-- ===== src/Client/Unsolicited.antt =====
-- Which packets stop the client: handleIncoming, internal/bacnet/client.go.
use bacnet_ip_rest_proxy.Prelude.{
  ℕ, ◌≡◌, ◌⊎◌, refl, sym, ◌∙◌, inl, inr, Bool, true, false, ◌&&◌, ◌||◌, List, Option, none, some,
  ◌==◌, Bool-cases, Option-cases, Outcome, ok, err, panic, Ensures-cases, arith, Error,
}
use bacnet_ip_rest_proxy.Bacnet.Packet.{
  Apdu, decode_incoming_packet, pdu_unconfirmed_request, pdu_simple_ack, pdu_complex_ack, pdu_error,
  pdu_reject, pdu_abort,
}
use bacnet_ip_rest_proxy.Bacnet.Packet.Safe.{packet-Ensures}
use bacnet_ip_rest_proxy.Bacnet.Services.Discovery.Safe.{decode_i_am-Ensures}
use bacnet_ip_rest_proxy.Client.{
  Pending, ClientState, is_reply, deliver, send_reply, handle_reply, handle_i_am, handle_apdu,
  handle_incoming,
}
use bacnet_ip_rest_proxy.Client.Deliver.{names_no_service}

-- A SimpleACK, a ComplexACK or an Error: the replies that name the service they answer.
abbrev pub NamesService : Apdu → Type 0
NamesService apdu =
    (apdu.pdu_type ≡ pdu_simple_ack)
    ⊎ (apdu.pdu_type ≡ pdu_complex_ack)
    ⊎ (apdu.pdu_type ≡ pdu_error)

NamesService-names_no_service : (apdu : Apdu) → NamesService apdu → names_no_service apdu ≡ false
NamesService-names_no_service apdu h = ground (arith, h)

NamesService-is_reply : (apdu : Apdu) → NamesService apdu → is_reply apdu.pdu_type ≡ true
unfolding is_reply
NamesService-is_reply apdu h = ground (arith, h)

is_reply-NamesService :
    (apdu : Apdu)
    → is_reply apdu.pdu_type ≡ true
    → names_no_service apdu ≡ false
    → NamesService apdu
unfolding is_reply
is_reply-NamesService apdu r n = ground (arith, r, n)

same_apdu : {a b : Apdu} → ok a ≡ ok b → a ≡ b
same_apdu h = cc

true_ne_false : true ≡ false → ⊥
true_ne_false = cc

module _ {Ip : Type 0} where
  -- The packet is such a reply, and the request that it names is not outstanding.
  abbrev pub Unsolicited : List ℕ → ClientState Ip → Type 0
  Unsolicited pkt c =
      (apdu : Apdu) × (decode_incoming_packet pkt ≡ ok apdu)
      × NamesService apdu
      × (c.pending apdu.invoke_id ≡ none)

  Unsolicited-apdu :
      (pkt : List ℕ) (c : ClientState Ip) (apdu : Apdu)
      → decode_incoming_packet pkt ≡ ok apdu
      → Unsolicited pkt c
      → NamesService apdu × (c.pending apdu.invoke_id ≡ none)
  Unsolicited-apdu pkt c apdu d (other, d', names, free) =
      let e = same_apdu (sym d' ∙ d) in (rw e at names, rw e at free)

  -- A run that gives a state.
  data Takes : Outcome (ClientState Ip) → Type 0 where
    takes : {c' : ClientState Ip} → Takes (ok c')

  Takes-state : {r : Outcome (ClientState Ip)} → Takes r → (c' : ClientState Ip) × (r ≡ ok c')
  Takes-state (takes {c'}) = (c', refl)

module _ {Ip : Type 0} (ip_equal : Ip → Ip → Bool) where
  deliver-found :
      (apdu : Apdu) (from : Ip) (p : Pending Ip)
      → (after : Option (Pending Ip)) × (deliver ip_equal apdu from (some p) ≡ ok after)
  unfolding deliver
  deliver-found apdu from p =
      elim (Bool-cases (
        ip_equal p.to from
        && (apdu.pdu_type == pdu_reject
            || (apdu.pdu_type == pdu_abort || apdu.service_choice == p.service)))) [
              | inl n ↦ (some (send_reply apdu p), rw (n, deliver) refl)
              | inr n ↦ (some p, rw (n, deliver) refl)
            ]

  handle_reply-Takes :
      (apdu : Apdu) (from : Ip) (c : ClientState Ip) (p : Pending Ip)
      → c.pending apdu.invoke_id ≡ some p
      → Takes (handle_reply ip_equal apdu from c)
  unfolding handle_reply
  handle_reply-Takes apdu from c p found =
      let (after, e) = deliver-found apdu from p in rw (found, handle_reply, e) takes

  handle_reply-Takes_unnamed :
      (apdu : Apdu) (from : Ip) (c : ClientState Ip)
      → c.pending apdu.invoke_id ≡ none
      → names_no_service apdu ≡ true
      → Takes (handle_reply ip_equal apdu from c)
  unfolding handle_reply deliver
  handle_reply-Takes_unnamed apdu from c free n = rw (free, handle_reply, deliver, n) takes

  handle_reply-panic :
      (apdu : Apdu) (from : Ip) (c : ClientState Ip)
      → c.pending apdu.invoke_id ≡ none
      → names_no_service apdu ≡ false
      → handle_reply ip_equal apdu from c ≡ panic
  unfolding handle_reply deliver
  handle_reply-panic apdu from c free n = rw (free, handle_reply, deliver, n) refl

  handle_i_am-Takes :
      (apdu : Apdu) (from : Ip) (c : ClientState Ip) → Takes (handle_i_am ip_equal apdu from c)
  unfolding handle_i_am
  handle_i_am-Takes apdu from c = elim (Ensures-cases (decode_i_am-Ensures apdu.params)) [
    | inl (i_am, d) ↦ rw (d, handle_i_am) takes
    | inr (e, d) ↦ rw (d, handle_i_am) takes
  ]

  -- What handling a packet comes to.
  abbrev Comes : List ℕ → ClientState Ip → Outcome (ClientState Ip) → Type 0
  Comes pkt c r = (Takes r × (Unsolicited pkt c → ⊥)) ⊎ ((r ≡ panic) × Unsolicited pkt c)

  handle_reply-Comes :
      (pkt : List ℕ) (apdu : Apdu) (from : Ip) (c : ClientState Ip)
      → decode_incoming_packet pkt ≡ ok apdu
      → is_reply apdu.pdu_type ≡ true
      → Comes pkt c (handle_reply ip_equal apdu from c)
  handle_reply-Comes pkt apdu from c d r = elim (Option-cases (c.pending apdu.invoke_id)) [
    | inr (p, found) ↦ inl (
      handle_reply-Takes apdu from c p found,
      λ u. let (names, free) = Unsolicited-apdu pkt c apdu d u in none_ne (sym free ∙ found),
    )
    | inl free ↦ elim (Bool-cases (names_no_service apdu)) [
      | inl n ↦ inl (
        handle_reply-Takes_unnamed apdu from c free n,
        λ u.
            let (names, _) = Unsolicited-apdu pkt c apdu d u in
            true_ne_false (sym n ∙ NamesService-names_no_service apdu names),
      )
      | inr n ↦
          inr
            (handle_reply-panic apdu from c free n, (apdu, d, is_reply-NamesService apdu r n, free))
    ]
  ]
    where
      none_ne : {p : Pending Ip} → none ≡ some p → ⊥
      none_ne = cc

  handle_apdu-Comes :
      (pkt : List ℕ) (apdu : Apdu) (from : Ip) (c : ClientState Ip)
      → decode_incoming_packet pkt ≡ ok apdu
      → Comes pkt c (handle_apdu ip_equal apdu from c)
  unfolding handle_apdu
  handle_apdu-Comes pkt apdu from c d = elim (Bool-cases (is_reply apdu.pdu_type)) [
    | inl r ↦ rw (r, handle_apdu) (handle_reply-Comes pkt apdu from c d r)
    | inr r ↦ inl (
      elim (Bool-cases (apdu.pdu_type == pdu_unconfirmed_request && apdu.service_choice == 0)) [
        | inl i ↦ rw (r, handle_apdu, i) (handle_i_am-Takes apdu from c)
        | inr i ↦ rw (r, handle_apdu, i) takes
      ],
      λ u.
          let (names, _) = Unsolicited-apdu pkt c apdu d u in
          true_ne_false (sym (NamesService-is_reply apdu names) ∙ r),
    )
  ]

  -- Handling a packet ends, and gives the client's next state or stops the client with a panic; it
  -- panics where the packet decodes to a SimpleACK, ComplexACK or Error whose invoke identifier no
  -- outstanding request has, and for no other packet.
  pub handle_incoming-cases :
      (pkt : List ℕ) (from : Ip) (c : ClientState Ip)
      → (((c' : ClientState Ip) × (handle_incoming ip_equal pkt from c ≡ ok c'))
          × (Unsolicited pkt c → ⊥))
        ⊎ ((handle_incoming ip_equal pkt from c ≡ panic) × Unsolicited pkt c)
  unfolding handle_incoming
  handle_incoming-cases pkt from c = elim (Ensures-cases (packet-Ensures pkt)) [
    | inr (e, d) ↦ inl (
      Takes-state (rw (d, handle_incoming) takes),
      λ (apdu, d', names, free). not_decoded (sym d ∙ d'),
    )
    | inl (apdu, d) ↦ elim (handle_apdu-Comes pkt apdu from c d) [
      | inl (t, other) ↦ inl (Takes-state (rw (d, handle_incoming) t), other)
      | inr (p, u) ↦ inr (rw (d, handle_incoming) p, u)
    ]
  ]
    where
      not_decoded : {e : Error} {apdu : Apdu} → err e ≡ ok apdu → ⊥
      not_decoded = cc
