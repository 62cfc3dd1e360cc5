-- ===== src/Client/Incoming.antt =====
-- Incoming packets: handleIncoming, internal/bacnet/client.go.
use bacnet_ip_rest_proxy.Prelude.{
  ◌>>=◌, ℕ, ◌≡◌, ◌⊎◌, refl, sym, ap, inl, inr, Bool, ◌&&◌, List, map, Option, some, ◌==◌,
  Bool-cases, Outcome, ok, err, panic, out_of_fuel, >>=-eq-ok,
}
use bacnet_ip_rest_proxy.Bacnet.Packet.{Apdu, decode_incoming_packet, pdu_unconfirmed_request}
use bacnet_ip_rest_proxy.Bacnet.Services.Discovery.{IAm, decode_i_am}
use bacnet_ip_rest_proxy.Client.{
  or_dropped, Pending, ClientState, is_reply, update, send_event, deliver, handle_reply,
  handle_i_am, handle_apdu, handle_incoming,
}
use bacnet_ip_rest_proxy.Client.Deliver.{
  Delivered, handle_reply-pending, handle_i_am-pending, state_eq, no_state, no_fuel,
}

module _ {Ip : Type 0} (ip_equal : Ip → Ip → Bool) where
  -- What can become of the entry for `id` when `apdu` comes from `from`.
  abbrev pub Outcomes : Apdu → Ip → ClientState Ip → ClientState Ip → ℕ → Type 0
  Outcomes apdu from c c' id =
      (c'.pending id ≡ c.pending id)
      ⊎ ((p : Pending Ip) × (apdu.invoke_id ≡ id)
          × (c.pending id ≡ some p)
          × Delivered ip_equal apdu from p (c'.pending id))

  handle_apdu-pending :
      (apdu : Apdu) (from : Ip) (c c' : ClientState Ip)
      → handle_apdu ip_equal apdu from c ≡ ok c'
      → (id : ℕ) → Outcomes apdu from c c' id
  unfolding handle_apdu
  handle_apdu-pending apdu from c c' e id = elim (Bool-cases (is_reply apdu.pdu_type)) [
    | inl r ↦ handle_reply-pending ip_equal apdu from c c' (rw r at e) id
    | inr r ↦
        elim (Bool-cases (apdu.pdu_type == pdu_unconfirmed_request && apdu.service_choice == 0)) [
          | inl i ↦
              inl (ap (λ t. t id) (handle_i_am-pending ip_equal apdu from c c' (rw (r, i) at e)))
          | inr i ↦ inl (ap (λ s. s.pending id) (sym (state_eq (rw (r, i) at e))))
        ]
  ]

  -- A packet that the client takes without a panic leaves the entry of every outstanding request
  -- alone, or puts a reply into its empty channel; and then the packet decodes to a PDU with that
  -- request's invoke identifier which came from the address that the request went to and names
  -- the request's service, or is a Reject or Abort.
  pub handle_incoming-pending :
      (pkt : List ℕ) (from : Ip) (c c' : ClientState Ip) (id : ℕ)
      → handle_incoming ip_equal pkt from c ≡ ok c'
      → (c'.pending id ≡ c.pending id)
        ⊎ ((apdu : Apdu) × (p : Pending Ip) × (decode_incoming_packet pkt ≡ ok apdu)
            × (apdu.invoke_id ≡ id)
            × (c.pending id ≡ some p)
            × Delivered ip_equal apdu from p (c'.pending id))
  unfolding handle_incoming
  handle_incoming-pending pkt from c c' id e = through (decode_incoming_packet pkt) refl e
    where
      through :
          (r : Outcome Apdu)
          → decode_incoming_packet pkt ≡ r
          → or_dropped r c (λ apdu. handle_apdu ip_equal apdu from c) ≡ ok c'
          → (c'.pending id ≡ c.pending id)
            ⊎ ((apdu : Apdu) × (p : Pending Ip) × (decode_incoming_packet pkt ≡ ok apdu)
                × (apdu.invoke_id ≡ id)
                × (c.pending id ≡ some p)
                × Delivered ip_equal apdu from p (c'.pending id))
      through (ok apdu) d h = elim (handle_apdu-pending apdu from c c' h id) [
        | inl kept ↦ inl kept
        | inr (p, i, found, put) ↦ inr (apdu, p, d, i, found, put)
      ]
      through (err x) d h = inl (ap (λ s. s.pending id) (sym (state_eq h)))
      through panic d h = absurd (no_state h)
      through out_of_fuel d h = absurd (no_fuel h)

  handle_apdu-next :
      (apdu : Apdu) (from : Ip) (c c' : ClientState Ip)
      → handle_apdu ip_equal apdu from c ≡ ok c'
      → c'.next_id ≡ c.next_id
  unfolding handle_apdu handle_reply handle_i_am
  handle_apdu-next apdu from c c' e = elim (Bool-cases (is_reply apdu.pdu_type)) [
    | inl r ↦ replied (deliver ip_equal apdu from (c.pending apdu.invoke_id)) (rw r at e)
    | inr r ↦
        elim (Bool-cases (apdu.pdu_type == pdu_unconfirmed_request && apdu.service_choice == 0)) [
          | inl i ↦ announced (decode_i_am apdu.params) (rw (r, i) at e)
          | inr i ↦ ap (λ s. s.next_id) (sym (state_eq (rw (r, i) at e)))
        ]
  ]
    where
      replied :
          (r : Outcome (Option (Pending Ip)))
          → (r >>= λ entry. ok (record c { pending = update c.pending apdu.invoke_id entry }))
            ≡ ok c'
          → c'.next_id ≡ c.next_id
      replied r h = let (entry, d, k) = >>=-eq-ok r _ h in ap (λ s. s.next_id) (sym (state_eq k))

      announced :
          (r : Outcome IAm)
          → or_dropped r c
              (λ i_am. ok (record c { subscribers = map (send_event (from, i_am)) c.subscribers }))
            ≡ ok c'
          → c'.next_id ≡ c.next_id
      announced (ok i_am) h = ap (λ s. s.next_id) (sym (state_eq h))
      announced (err x) h = ap (λ s. s.next_id) (sym (state_eq h))
      announced panic h = absurd (no_state h)
      announced out_of_fuel h = absurd (no_fuel h)

  pub handle_incoming-next :
      (pkt : List ℕ) (from : Ip) (c c' : ClientState Ip)
      → handle_incoming ip_equal pkt from c ≡ ok c'
      → c'.next_id ≡ c.next_id
  unfolding handle_incoming
  handle_incoming-next pkt from c c' e = through (decode_incoming_packet pkt) e
    where
      through :
          (r : Outcome Apdu)
          → or_dropped r c (λ apdu. handle_apdu ip_equal apdu from c) ≡ ok c'
          → c'.next_id ≡ c.next_id
      through (ok apdu) h = handle_apdu-next apdu from c c' h
      through (err x) h = ap (λ s. s.next_id) (sym (state_eq h))
      through panic h = absurd (no_state h)
      through out_of_fuel h = absurd (no_fuel h)
