-- ===== src/Examples/Clients.antt =====
-- The client's theorems at concrete requests and packets.
use bacnet_ip_rest_proxy.Prelude.{
  zero, suc, false, is_present, slice_from, Bool-cases, inl, inr, ==_iff, ℕ, ◌+◌, ◌<◌, ◌≡◌, ◌≢◌,
  ◌⊎◌, refl, Bool, true, List, [], ◌∷◌, none, some, ◌==◌, if◌then◌else◌, ok, panic, arith,
}
use bacnet_ip_rest_proxy.Bacnet.Packet.{Apdu, decode_incoming_packet, decode_apdu, decode_npdu}
use bacnet_ip_rest_proxy.Bacnet.Primitive.{ObjectIdentifier}
use bacnet_ip_rest_proxy.Bacnet.Value.{Values}
use bacnet_ip_rest_proxy.Bacnet.Services.Discovery.{IAm}
use bacnet_ip_rest_proxy.Client.Calls.{CallResult, failed}
use bacnet_ip_rest_proxy.Client.Identify.{
  heard, first_from, Attempt, waited, expired, number, who_is, device_instance,
}
use bacnet_ip_rest_proxy.Client.Identify.Laws.{Silent, who_is-heard, Found, device_instance-Found}
use bacnet_ip_rest_proxy.Client.{
  Pending, ClientState, Event, replied, timed_out, reply, begin_request, handle_incoming,
  confirmed_attempts, is_reply, timeout_error,
}
use bacnet_ip_rest_proxy.Client.Allocate.{begin_request-fresh, begin_request-refused}
use bacnet_ip_rest_proxy.Client.Deliver.{Delivered}
use bacnet_ip_rest_proxy.Client.Incoming.{handle_incoming-pending}
use bacnet_ip_rest_proxy.Client.Unsolicited.{Unsolicited, handle_incoming-cases}
use bacnet_ip_rest_proxy.Client.Replies.{RunAnswers, Run-answers}
use bacnet_ip_rest_proxy.Client.Reach.{
  new_client, IsWellFormed, Run, begins, here, more, receives, Run-reply,
}
use bacnet_ip_rest_proxy.Client.Attempts.{confirmed_attempts-reply}

-- Addresses are numbers; the request with the identifier 7 went to 10 and asked the service 15.
abbrev ack : Apdu
ack = record {
  pdu_type = 2;
  invoke_id = 7;
  service_choice = 15;
  reject_reason = 0;
  abort_reason = 0;
  params = [];
}

abbrev ack_packet : List ℕ
ack_packet = 0x81 ∷ 0x0a ∷ 0 ∷ 9 ∷ 1 ∷ 0 ∷ 0x20 ∷ 7 ∷ 15 ∷ []

abbrev waiting : ClientState ℕ
waiting = record {
  next_id = 7;
  pending = λ id. if id == 7 then some (record { to = 10; service = 15; reply = none }) else none;
  subscribers = [];
}

abbrev answered : ClientState ℕ
answered = record {
  next_id = 8;
  pending =
      λ id. if id == 7 then some (record { to = 10; service = 15; reply = some ack }) else none;
  subscribers = [];
}

abbrev full : ClientState ℕ
full = record {
  next_id = 3;
  pending = λ id. some (record { to = 10; service = 15; reply = none });
  subscribers = [];
}

abbrev same_address : ℕ → ℕ → Bool
same_address a b = a == b

begins_at_8 : (begin_request 20 12 waiting).0 ≡ some 8
unfolding begin_request
begins_at_8 = refl

begin_request-fresh_example :
    (waiting.pending 8 ≡ none)
    × (8 < 256)
    × ((begin_request 20 12 waiting).1.pending 8
        ≡ some (record { to = 20; service = 12; reply = none }))
    × ((j : ℕ) → j ≢ 8 → (begin_request 20 12 waiting).1.pending j ≡ waiting.pending j)
begin_request-fresh_example = begin_request-fresh 20 12 waiting 8 (omega arith) begins_at_8

full_refuses : (begin_request 20 12 full).0 ≡ none
unfolding begin_request
full_refuses = refl

begin_request-refused_example : is_present (full.pending 200) ≡ true
begin_request-refused_example =
    begin_request-refused 20 12 full (omega arith) full_refuses 200 (omega arith)

ack_decodes : decode_incoming_packet ack_packet ≡ ok ack
unfolding decode_incoming_packet slice_from decode_npdu decode_apdu
ack_decodes = refl

ack_is_reply : is_reply 2 ≡ true
unfolding is_reply
ack_is_reply = refl

-- The reply reaches the request, and a second one is dropped.
received : ClientState ℕ
unfolding handle_incoming
received = elim (handle_incoming same_address ack_packet 10 waiting) [ ok c ↦ c | _ ↦ waiting ]

ack_received : handle_incoming same_address ack_packet 10 waiting ≡ ok received
unfolding handle_incoming received decode_incoming_packet slice_from decode_npdu decode_apdu
ack_received = refl

handle_incoming-pending_example :
    (received.pending 7 ≡ waiting.pending 7)
    ⊎ ((apdu : Apdu) × (p : Pending ℕ) × (decode_incoming_packet ack_packet ≡ ok apdu)
        × (apdu.invoke_id ≡ 7)
        × (waiting.pending 7 ≡ some p)
        × Delivered same_address apdu 10 p (received.pending 7))
handle_incoming-pending_example =
    handle_incoming-pending same_address ack_packet 10 waiting received 7 ack_received

handle_incoming-cases_example :
    (((c' : ClientState ℕ) × (handle_incoming same_address ack_packet 99 (new_client ℕ) ≡ ok c'))
      × (Unsolicited ack_packet (new_client ℕ) → ⊥))
    ⊎ ((handle_incoming same_address ack_packet 99 (new_client ℕ) ≡ panic)
        × Unsolicited ack_packet (new_client ℕ))
handle_incoming-cases_example = handle_incoming-cases same_address ack_packet 99 (new_client ℕ)

-- The first case and the second both occur.
panics : handle_incoming same_address ack_packet 99 (new_client ℕ) ≡ panic
unfolding handle_incoming new_client decode_incoming_packet slice_from decode_npdu decode_apdu
panics = refl

nothing : {p : Pending ℕ} → none ≢ some p
nothing = cc

answered-IsWellFormed : IsWellFormed answered
answered-IsWellFormed = record {
  next_fits = omega arith;
  ids_fit = λ id p e. elim (Bool-cases (id == 7)) [
    | inl same ↦ let i : id ≡ 7 = (==_iff id 7).0 same in omega arith
    | inr ne ↦ absurd (nothing (rw ne at e))
  ];
}

answered_begins_8 : (begin_request 20 12 answered).0 ≡ some 8
unfolding begin_request
answered_begins_8 = refl

next_request : Run same_address (some 7) answered ((begin_request 20 12 answered).1)
next_request = more (begins 20 12 8 answered_begins_8) (λ id e. none_ne) here
  where
    none_ne : {a : ℕ} → none ≢ some a
    none_ne = cc

-- After the start a request begins, and its reply arrives.
abbrev first_ack : Apdu
first_ack = record ack { invoke_id = 0 }

abbrev first_packet : List ℕ
first_packet = 0x81 ∷ 0x0a ∷ 0 ∷ 9 ∷ 1 ∷ 0 ∷ 0x20 ∷ 0 ∷ 15 ∷ []

begins_at_0 : (begin_request 10 15 (new_client ℕ)).0 ≡ some 0
unfolding begin_request new_client
begins_at_0 = refl

served : ClientState ℕ
unfolding handle_incoming
served =
    elim (handle_incoming same_address first_packet 10 (begin_request 10 15 (new_client ℕ)).1) [
      | ok c ↦ c
      | _ ↦ waiting
    ]

first_received :
    handle_incoming same_address first_packet 10 (begin_request 10 15 (new_client ℕ)).1 ≡ ok served
unfolding handle_incoming served begin_request new_client decode_incoming_packet slice_from
    decode_npdu decode_apdu
first_received = refl

two_steps : Run same_address none (new_client ℕ) served
two_steps =
    more (begins 10 15 0 begins_at_0) (λ id e. absurd (none_ne e))
      (more (receives first_packet 10 served first_received) (λ id e. absurd (none_ne e)) here)
  where
    none_ne : {a : ℕ} → none ≢ some a
    none_ne = cc

abbrev first_entry : Pending ℕ
first_entry = record { to = 10; service = 15; reply = some first_ack }

served_entry : served.pending 0 ≡ some first_entry
unfolding served begin_request new_client handle_incoming decode_incoming_packet slice_from
    decode_npdu decode_apdu
served_entry = refl

Run-answers_example : RunAnswers same_address 0 first_entry first_ack two_steps
Run-answers_example = Run-answers same_address 0 first_entry first_ack two_steps served_entry refl

Run-reply_example :
    (begin_request 20 12 answered).1.pending 7
    ≡ some (record { to = 10; service = 15; reply = some ack })
Run-reply_example =
    Run-reply same_address 7 (record { to = 10; service = 15; reply = some ack }) ack next_request
      answered-IsWellFormed refl refl

-- The first attempt times out.
abbrev second_time : ℕ → Event
second_time n = if n == 1 then replied ack else timed_out

confirmed_attempts-reply_example : confirmed_attempts 3 second_time ≡ (reply ack, 1 + 1)
confirmed_attempts-reply_example =
    confirmed_attempts-reply 3 second_time 1 ack (omega arith) first_silent refl
  where
    first_silent : (j : ℕ) → j < 1 → second_time j ≡ timed_out
    first_silent j h = ground arith

abbrev announced : IAm
announced = record {
  device = record { object_type = 8; instance_number = 17 };
  max_apdu_length = 1476;
  segmentation_supported = 3;
  vendor_id = 5;
}

abbrev another : IAm
another = record announced { device = record { object_type = 8; instance_number = 4 } }

-- The first attempt hears only another device, the second this one too.
abbrev announcements : ℕ → Attempt ℕ
announcements zero = waited ((11, another) ∷ []) expired
announcements (suc k) = waited ((11, another) ∷ (10, announced) ∷ []) expired

abbrev unanswered : ObjectIdentifier → CallResult Values
unanswered o = failed timeout_error

seventeen : device_instance (who_is same_address 10 3 announcements) false unanswered ≡ number 17
unfolding device_instance who_is
seventeen = refl

device_instance-Found_example : Found same_address 10 3 announcements unanswered 17
device_instance-Found_example =
    device_instance-Found same_address 10 3 announcements false unanswered 17 seventeen

second_hears : first_from same_address 10 ((11, another) ∷ (10, announced) ∷ []) ≡ some announced
unfolding first_from
second_hears = refl

first_silent : first_from same_address 10 ((11, another) ∷ []) ≡ none
unfolding first_from
first_silent = refl

announcements-Silent : (j : ℕ) → j < 1 → Silent same_address 10 (announcements j)
announcements-Silent zero l = ((11, another) ∷ [], refl, first_silent)
announcements-Silent (suc j) l = absurd (omega arith)

who_is-heard_example : who_is same_address 10 3 announcements ≡ heard announced
who_is-heard_example =
    who_is-heard same_address 10 3 announcements 1 ((11, another) ∷ (10, announced) ∷ []) expired
      announced (omega arith) announcements-Silent refl second_hears
