-- ===== src/Client/Replies.antt =====
-- Where the replies of outstanding requests come from: internal/bacnet/client.go.
use bacnet_ip_rest_proxy.Prelude.{
  ℕ, ◌≡◌, ◌⊎◌, sym, ap, ◌∙◌, inl, inr, Bool, true, List, Option, none, some, ◌==◌, ==_iff,
  Bool-cases, ok,
}
use bacnet_ip_rest_proxy.Bacnet.Packet.{Apdu, decode_incoming_packet}
use bacnet_ip_rest_proxy.Client.{Pending, ClientState, end_request}
use bacnet_ip_rest_proxy.Client.Allocate.{begin_request-fresh, update_at, update_other}
use bacnet_ip_rest_proxy.Client.Deliver.{names_no_service}
use bacnet_ip_rest_proxy.Client.Incoming.{handle_incoming-pending}
use bacnet_ip_rest_proxy.Client.Reach.{
  new_client, IsWellFormed, Step, begins, receives, ends, Run, here, more, Step-IsWellFormed,
  new_client-IsWellFormed,
}

module _ {Ip : Type 0} (ip_equal : Ip → Ip → Bool) where
  -- The packet from `from` carries the reply `apdu` to the request `p` with the identifier `id`.
  abbrev pub Answers : List ℕ → Ip → ℕ → Pending Ip → Apdu → Type 0
  Answers pkt from id p apdu =
      (decode_incoming_packet pkt ≡ ok apdu)
      × (apdu.invoke_id ≡ id)
      × (ip_equal p.to from ≡ true)
      × ((names_no_service apdu ≡ true) ⊎ (apdu.service_choice ≡ p.service))

  module _ (id : ℕ) (p : Pending Ip) (apdu : Apdu) where
    -- The step takes such a packet.
    abbrev pub StepAnswers : {c c1 : ClientState Ip} {l : Option ℕ} → Step ip_equal c l c1 → Type 0
    StepAnswers (begins addr service new e) = ⊥
    StepAnswers (receives pkt from c1 e) = Answers pkt from id p apdu
    StepAnswers (ends other) = ⊥

    -- One of the steps does.
    abbrev pub RunAnswers :
        {avoid : Option ℕ} {c c' : ClientState Ip} → Run ip_equal avoid c c' → Type 0
    RunAnswers here = ⊥
    RunAnswers (more s apart run) = StepAnswers s ⊎ RunAnswers run

    -- After a step an entry with a reply is the entry before it, or the step took the reply.
    Step-answers :
        {c c1 : ClientState Ip} {l : Option ℕ} (s : Step ip_equal c l c1)
        → IsWellFormed c
        → c1.pending id ≡ some p
        → p.reply ≡ some apdu
        → (c.pending id ≡ some p) ⊎ StepAnswers s
    unfolding end_request
    Step-answers {c} (begins addr service new e) w q r =
        let (free, small, entry, others) = begin_request-fresh addr service c new w.next_fits e in
        elim (Bool-cases (id == new)) [
          | inr other ↦ inl (sym (others id (λ e'. cc ((==_iff id new).1 e'))) ∙ q)
          | inl same ↦
              let i : id ≡ new = (==_iff id new).0 same in
              let empty : p.reply ≡ none = reply_of (sym (rw i at q) ∙ entry) in
              absurd (none_ne (sym empty ∙ r))
        ]
      where
        reply_of :
            some p ≡ some (record { to = addr; service = service; reply = none }) → p.reply ≡ none
        reply_of h = cc

        none_ne : {a : Apdu} → none ≡ some a → ⊥
        none_ne = cc
    Step-answers {c} (receives pkt from c1 e) w q r =
        elim (handle_incoming-pending ip_equal pkt from c c1 id e) [
          | inl kept ↦ inl (sym kept ∙ q)
          | inr (a, before, d, i, found, put) ↦
              let whole : p ≡ record before { reply = some a } = entry_eq (sym q ∙ put.entry) in
              let same : a ≡ apdu = apdu_eq (sym (ap (λ x. x.reply) whole) ∙ r) in
              let to : before.to ≡ p.to = sym (ap (λ x. x.to) whole) in
              let service : before.service ≡ p.service = sym (ap (λ x. x.service) whole) in
              let answers = put.answers in
              let sender = put.sender in
              inr (rw same at d, rw same at i, rw to at sender, rw (same, service) at answers)
        ]
      where
        entry_eq : {a b : Pending Ip} → some a ≡ some b → a ≡ b
        entry_eq = cc

        apdu_eq : {a b : Apdu} → some a ≡ some b → a ≡ b
        apdu_eq = cc
    Step-answers {c} (ends other) w q r = elim (Bool-cases (id == other)) [
      | inl same ↦
          absurd
            (gone (sym (update_at c.pending other none id (sym ((==_iff id other).0 same))) ∙ q))
      | inr ne ↦
          inl (sym (update_other c.pending other id none (λ e'. cc ((==_iff id other).1 e'))) ∙ q)
    ]
      where
        gone : none ≡ some p → ⊥
        gone = cc

    Run-answers_from :
        {avoid : Option ℕ} {c c' : ClientState Ip} (run : Run ip_equal avoid c c')
        → IsWellFormed c
        → c'.pending id ≡ some p
        → p.reply ≡ some apdu
        → (c.pending id ≡ some p) ⊎ RunAnswers run
    Run-answers_from here w q r = inl q
    Run-answers_from (more s apart run) w q r =
        elim (Run-answers_from run (Step-IsWellFormed ip_equal s w) q r) [
          | inr later ↦ inr (inr later)
          | inl before ↦ elim (Step-answers s w before r) [
            | inl kept ↦ inl kept
            | inr now ↦ inr (inl now)
          ]
        ]

    -- In every state that the client reaches after its start, a reply in the channel of an
    -- outstanding request was carried by a packet that it received on the way, from the address
    -- that the request went to, and has the request's invoke identifier and its service, unless it
    -- is a Reject or Abort.
    pub Run-answers :
        {avoid : Option ℕ} {c' : ClientState Ip} (run : Run ip_equal avoid (new_client Ip) c')
        → c'.pending id ≡ some p
        → p.reply ≡ some apdu
        → RunAnswers run
    unfolding new_client
    Run-answers run q r = elim (Run-answers_from run (new_client-IsWellFormed Ip) q r) [
      | inl start ↦ absurd (none_outstanding start)
      | inr taken ↦ taken
    ]
      where
        none_outstanding : none ≡ some p → ⊥
        none_outstanding = cc
