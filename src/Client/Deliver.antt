-- ===== src/Client/Deliver.antt =====
-- Replies and the requests they are for: handleIncoming, internal/bacnet/client.go.
use mathlib.Core.Path.{subst}
use bacnet_ip_rest_proxy.Prelude.{
  ℕ, ◌≡◌, ◌≢◌, ◌⊎◌, refl, sym, ap, ◌∙◌, inl, inr, Bool, true, ◌&&◌, ◌||◌, List, map, Option, none,
  some, ◌==◌, ==_iff, Bool-cases, &&-eq-true, Outcome, ok, err, panic, out_of_fuel, arith,
  >>=-eq-ok,
}
use bacnet_ip_rest_proxy.Bacnet.Packet.{Apdu, pdu_reject, pdu_abort}
use bacnet_ip_rest_proxy.Bacnet.Services.Discovery.{IAm, decode_i_am}
use bacnet_ip_rest_proxy.Client.{
  or_dropped, put_reply, Pending, ClientState, update, send_reply, send_event, deliver,
  handle_reply, handle_i_am,
}
use bacnet_ip_rest_proxy.Client.Allocate.{update_at, update_other}

-- Reject and Abort PDUs name no service.
abbrev pub names_no_service : Apdu → Bool
names_no_service apdu = apdu.pdu_type == pdu_reject || apdu.pdu_type == pdu_abort

pub state_eq : {A : Type 0} {a b : A} → ok a ≡ ok b → a ≡ b
state_eq = cc

pub no_state : {A : Type 0} {b : A} → panic ≢ ok b
no_state = cc

pub no_fuel : {A : Type 0} {b : A} → out_of_fuel ≢ ok b
no_fuel = cc

module _ {Ip : Type 0} (ip_equal : Ip → Ip → Bool) where
  -- The reply `apdu` from `from` was put into the empty channel of the request `p`: it came from
  -- the address that the request went to, and names the request's service or is a Reject or Abort.
  pub record Delivered (apdu : Apdu) (from : Ip) (p : Pending Ip) (after : Option (Pending Ip))
      : Type 0 where
    pub empty : p.reply ≡ none
    pub sender : ip_equal p.to from ≡ true
    pub answers : (names_no_service apdu ≡ true) ⊎ (apdu.service_choice ≡ p.service)
    pub entry : after ≡ some (record p { reply = some apdu })

  put_reply-cases :
      (o : Option Apdu) (apdu : Apdu) (p : Pending Ip)
      → (put_reply o apdu p ≡ p)
        ⊎ ((o ≡ none) × (put_reply o apdu p ≡ record p { reply = some apdu }))
  unfolding put_reply
  put_reply-cases none apdu p = inr (refl, refl)
  put_reply-cases (some r) apdu p = inl refl

  send_reply-cases :
      (apdu : Apdu) (p : Pending Ip)
      → (send_reply apdu p ≡ p)
        ⊎ ((p.reply ≡ none) × (send_reply apdu p ≡ record p { reply = some apdu }))
  unfolding send_reply
  send_reply-cases apdu p = put_reply-cases p.reply apdu p

  answers-cases : (a b c : Bool) → a || (b || c) ≡ true → (a || b ≡ true) ⊎ (c ≡ true)
  answers-cases a b c h = ground arith

  deliver-cases :
      (apdu : Apdu) (from : Ip) (found after : Option (Pending Ip))
      → deliver ip_equal apdu from found ≡ ok after
      → (after ≡ found) ⊎ ((p : Pending Ip) × (found ≡ some p) × Delivered apdu from p after)
  unfolding deliver
  deliver-cases apdu from none after e = elim (Bool-cases (names_no_service apdu)) [
    | inl n ↦ inl (ok_eq (sym (rw n at e)))
    | inr n ↦ absurd (panics (rw n at e))
  ]
    where
      ok_eq : {a b : Option (Pending Ip)} → ok a ≡ ok b → a ≡ b
      ok_eq = cc

      panics : panic ≢ ok after
      panics = cc
  deliver-cases apdu from (some p) after e =
      elim (Bool-cases (
        ip_equal p.to from
        && (apdu.pdu_type == pdu_reject
            || (apdu.pdu_type == pdu_abort || apdu.service_choice == p.service)))) [
              | inr n ↦ inl (ok_eq (sym (rw n at e)))
              | inl n ↦
                  let sent : after ≡ some (send_reply apdu p) = ok_eq (sym (rw n at e)) in
                  let (sender, service) = &&-eq-true (ip_equal p.to from) _ n in
                  elim (send_reply-cases apdu p) [
                    | inl same ↦ inl (rw same at sent)
                    | inr (empty, put) ↦ inr (
                      p,
                      refl,
                      record {
                        empty = empty;
                        sender = sender;
                        answers = names service;
                        entry = rw put at sent;
                      },
                    )
                  ]
            ]
    where
      ok_eq : {a b : Option (Pending Ip)} → ok a ≡ ok b → a ≡ b
      ok_eq = cc

      names :
          apdu.pdu_type == pdu_reject
              || (apdu.pdu_type == pdu_abort || apdu.service_choice == p.service)
            ≡ true
          → (names_no_service apdu ≡ true) ⊎ (apdu.service_choice ≡ p.service)
      names h =
          elim (answers-cases (apdu.pdu_type == pdu_reject) (apdu.pdu_type == pdu_abort)
            (apdu.service_choice == p.service) h) [
              | inl a ↦ inl a
              | inr b ↦ inr ((==_iff apdu.service_choice p.service).0 b)
            ]

  pub handle_reply-pending :
      (apdu : Apdu) (from : Ip) (c c' : ClientState Ip)
      → handle_reply ip_equal apdu from c ≡ ok c'
      → (id : ℕ)
      → (c'.pending id ≡ c.pending id)
        ⊎ ((p : Pending Ip) × (apdu.invoke_id ≡ id)
            × (c.pending id ≡ some p)
            × Delivered apdu from p (c'.pending id))
  unfolding handle_reply
  handle_reply-pending apdu from c c' e id =
      let (entry, d, k) = >>=-eq-ok (deliver ip_equal apdu from (c.pending apdu.invoke_id)) _ e in
      let table : c'.pending ≡ update c.pending apdu.invoke_id entry = sym (pending_eq k) in
      elim (Bool-cases (apdu.invoke_id == id)) [
        | inl same ↦
            let i : apdu.invoke_id ≡ id = (==_iff apdu.invoke_id id).0 same in
            let now : c'.pending id ≡ entry =
              ap (λ t. t id) table ∙ update_at c.pending apdu.invoke_id entry id i in
            elim (deliver-cases apdu from (c.pending apdu.invoke_id) entry d) [
              | inl kept ↦ inl (now ∙ (kept ∙ ap c.pending i))
              | inr (p, found, put) ↦
                  inr (
                    p,
                    i,
                    sym (ap c.pending i) ∙ found,
                    subst (Delivered apdu from p) (sym now) put,
                  )
            ]
        | inr other ↦ inl (
            ap (λ t. t id) table
            ∙ update_other c.pending apdu.invoke_id id entry
                (λ e. cc ((==_iff apdu.invoke_id id).1 (sym e))))
      ]
    where
      pending_eq :
          {a : ℕ → Option (Pending Ip)} → ok (record c { pending = a }) ≡ ok c' → a ≡ c'.pending
      pending_eq = cc

  pub handle_i_am-pending :
      (apdu : Apdu) (from : Ip) (c c' : ClientState Ip)
      → handle_i_am ip_equal apdu from c ≡ ok c'
      → c'.pending ≡ c.pending
  unfolding handle_i_am
  handle_i_am-pending apdu from c c' e = i_am_table (decode_i_am apdu.params) e
    where
      i_am_table :
          (r : Outcome IAm)
          → or_dropped r c
              (λ i_am. ok (record c { subscribers = map (send_event (from, i_am)) c.subscribers }))
            ≡ ok c'
          → c'.pending ≡ c.pending
      i_am_table (ok i_am) h = same h
        where
          same :
              {t : List (List (Ip × IAm))}
              → ok (record c { subscribers = t }) ≡ ok c'
              → c'.pending ≡ c.pending
          same h = ap (λ s. s.pending) (sym (state_eq h))
      i_am_table (err x) h = ap (λ s. s.pending) (sym (state_eq h))
      i_am_table panic h = absurd (no_state h)
      i_am_table out_of_fuel h = absurd (no_fuel h)
