-- ===== src/Client.antt =====
-- The BACnet/IP client, internal/bacnet/client.go: invoke identifiers and outstanding requests,
-- incoming packets, and the attempts of a confirmed request. The address type and `IP.Equal` are
-- parameters. A channel is what is buffered in it.
pub mod Allocate
pub mod Deliver
pub mod Incoming
pub mod Unsolicited
pub mod Reach
pub mod Replies
pub mod Attempts
pub mod Calls
pub mod Identify
use bacnet_ip_rest_proxy.Prelude.{
  is_present, ◌>>=◌, ℕ, zero, suc, ◌+◌, ◌%◌, Bool, true, false, ◌&&◌, ◌||◌, List, [], ◌∷◌, ◌++◌,
  map, Option, none, some, ltb, leb, ◌==◌, if◌then◌else◌, Outcome, ok, err, panic, out_of_fuel,
  length,
}
use bacnet_ip_rest_proxy.Bacnet.Errors.{BacnetError, decode_error_sequence}
use bacnet_ip_rest_proxy.Bacnet.Packet.{
  Apdu, decode_incoming_packet, pdu_simple_ack, pdu_complex_ack, pdu_error, pdu_reject, pdu_abort,
  pdu_unconfirmed_request,
}
use bacnet_ip_rest_proxy.Bacnet.Services.Discovery.{IAm, decode_i_am}

-- A `pendingRequest`; its channel holds at most one reply.
pub record Pending (Ip : Type 0) : Type 0 where
  pub to : Ip
  pub service : ℕ
  pub reply : Option Apdu

-- The client's tables. `pending` is Go's map from the 256 invoke identifiers, `subscribers` the
-- buffers of the channels of `iamSubs`, of eight places each.
pub record ClientState (Ip : Type 0) : Type 0 where
  pub next_id : ℕ
  pub pending : ℕ → Option (Pending Ip)
  pub subscribers : List (List (Ip × IAm))

-- `if err != nil { return }`, after which the state is `s`.
abbrev pub or_dropped {ℓ κ} :
    {A : Type ℓ} {S : Type κ} → Outcome A → S → (A → Outcome S) → Outcome S
or_dropped (ok a) s f = f a
or_dropped (err e) s f = ok s
or_dropped panic s f = panic
or_dropped out_of_fuel s f = out_of_fuel

-- The types of PDU that answer a confirmed request.
unfoldable pub is_reply : ℕ → Bool
is_reply t =
    t == pdu_simple_ack
    || (t == pdu_complex_ack || (t == pdu_error || (t == pdu_reject || t == pdu_abort)))

-- A map with one entry changed.
unfoldable pub update {ℓ} : {A : Type ℓ} → (ℕ → Option A) → ℕ → Option A → ℕ → Option A
update m k v j = if j == k then v else m j

module _ {Ip : Type 0} where
  -- `for range 256`: the identifier found, and `nextID` after the loop.
  unfoldable pub allocate_loop : ℕ → (ℕ → Option (Pending Ip)) → ℕ → Option ℕ × ℕ
  allocate_loop zero pending next_id = (none, next_id)
  allocate_loop (suc n) pending next_id =
      let next = (next_id + 1) % 256 in
      let rest = allocate_loop n pending next in
      if is_present (pending next_id) then rest else (some next_id, next)

  -- The first part of `doConfirmedRequest`, up to the release of the lock: none is the error "too
  -- many outstanding requests".
  unfoldable pub begin_request : Ip → ℕ → ClientState Ip → Option ℕ × ClientState Ip
  unfolding allocate_loop update
  begin_request addr service c =
      let (found, next) = allocate_loop 256 c.pending c.next_id in
      elim found [
        | none ↦ (none, record c { next_id = next })
        | some id ↦ (
          some id,
          record c {
            next_id = next;
            pending =
                update c.pending id (some (record { to = addr; service = service; reply = none }));
          },
        )
      ]

  -- The deferred `delete(c.pending, invokeID)`.
  unfoldable pub end_request : ℕ → ClientState Ip → ClientState Ip
  unfolding update
  end_request id c = record c { pending = update c.pending id none }

  -- `select { case req.ch <- ...: default: }` on a channel of one place.
  unfoldable pub put_reply : Option Apdu → Apdu → Pending Ip → Pending Ip
  put_reply none apdu p = record p { reply = some apdu }
  put_reply (some first) apdu p = p

  unfoldable pub send_reply : Apdu → Pending Ip → Pending Ip
  unfolding put_reply
  send_reply apdu p = put_reply p.reply apdu p

  unfoldable pub send_event : Ip × IAm → List (Ip × IAm) → List (Ip × IAm)
  send_event e buffer = if ltb (length buffer) 8 then buffer ++ (e ∷ []) else buffer

  module _ (ip_equal : Ip → Ip → Bool) where
    -- A reply whose request `found` says is outstanding. The test on the service reads
    -- `req.service` before `ok` is looked at, and `req` is nil where nothing was found.
    unfoldable pub deliver : Apdu → Ip → Option (Pending Ip) → Outcome (Option (Pending Ip))
    unfolding send_reply
    deliver apdu from none =
        if apdu.pdu_type == pdu_reject || apdu.pdu_type == pdu_abort then ok none else panic
    deliver apdu from (some p) =
        let same_service =
          apdu.pdu_type == pdu_reject
          || (apdu.pdu_type == pdu_abort || apdu.service_choice == p.service) in
        if ip_equal p.to from && same_service then ok (some (send_reply apdu p)) else ok (some p)

    unfoldable pub handle_reply : Apdu → Ip → ClientState Ip → Outcome (ClientState Ip)
    unfolding deliver update
    handle_reply apdu from c = do
      entry ← deliver apdu from (c.pending apdu.invoke_id)
      ok (record c { pending = update c.pending apdu.invoke_id entry })

    unfoldable pub handle_i_am : Apdu → Ip → ClientState Ip → Outcome (ClientState Ip)
    unfolding send_event
    handle_i_am apdu from c =
        or_dropped (decode_i_am apdu.params) c
          (λ i_am. ok (record c { subscribers = map (send_event (from, i_am)) c.subscribers }))

    unfoldable pub handle_apdu : Apdu → Ip → ClientState Ip → Outcome (ClientState Ip)
    unfolding is_reply handle_reply handle_i_am
    handle_apdu apdu from c =
        if is_reply apdu.pdu_type
        then handle_reply apdu from c
        else if apdu.pdu_type == pdu_unconfirmed_request && apdu.service_choice == 0
        then handle_i_am apdu from c
        else ok c

    -- `handleIncoming`: a packet that cannot be decoded is dropped.
    unfoldable pub handle_incoming : List ℕ → Ip → ClientState Ip → Outcome (ClientState Ip)
    unfolding handle_apdu
    handle_incoming pkt from c =
        or_dropped (decode_incoming_packet pkt) c (λ apdu. handle_apdu apdu from c)

-- What an attempt meets: its packet is not sent, a reply arrives, the timeout passes, or the
-- context is done.
pub data Event : Type 0 where
  send_failed : Event
  replied : Apdu → Event
  timed_out : Event
  cancelled : Event

pub data RequestResult : Type 0 where
  reply : Apdu → RequestResult
  send_error : RequestResult
  context_error : RequestResult
  timeout_error : RequestResult

-- The loop `attempt <= c.retries`, over what its attempts meet, and the packets it sends. The
-- first argument counts the attempts that are left.
unfoldable pub attempts_loop : ℕ → (ℕ → Event) → ℕ → RequestResult × ℕ
attempts_loop zero meets sent = (timeout_error, sent)
attempts_loop (suc left) meets sent =
    let again = attempts_loop left meets (sent + 1) in
    elim (meets sent) [
      | send_failed ↦ (send_error, sent)
      | replied apdu ↦ (reply apdu, sent + 1)
      | timed_out ↦ again
      | cancelled ↦ (context_error, sent + 1)
    ]

unfoldable pub confirmed_attempts : ℕ → (ℕ → Event) → RequestResult × ℕ
unfolding attempts_loop
confirmed_attempts retries meets = attempts_loop (retries + 1) meets 0

-- `serviceError`
pub data ServiceError : Type 0 where
  bacnet_error : BacnetError → ServiceError
  undecodable_error : ServiceError
  reject_error : ℕ → ServiceError
  abort_error : ℕ → ServiceError
  unexpected_type : ℕ → ℕ → ServiceError

unfoldable pub service_error : Apdu → ℕ → ServiceError
service_error apdu want =
    let decoded : ServiceError = elim (decode_error_sequence apdu.params) [
      | ok (e, n) ↦ bacnet_error e
      | _ ↦ undecodable_error
    ] in
    if apdu.pdu_type == pdu_error
    then decoded
    else if apdu.pdu_type == pdu_reject
    then reject_error apdu.reject_reason
    else if apdu.pdu_type == pdu_abort
    then abort_error apdu.abort_reason
    else unexpected_type apdu.pdu_type want
