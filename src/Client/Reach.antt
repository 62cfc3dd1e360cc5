-- ===== src/Client/Reach.antt =====
-- The tables of internal/bacnet/client.go along any interleaving of requests and packets.
use bacnet_ip_rest_proxy.Prelude.{
  ℕ, ◌<◌, ◌≡◌, ◌≢◌, refl, sym, ap, ◌∙◌, inl, inr, Bool, List, [], Option, none, some, ◌==◌, ==_iff,
  Bool-cases, ok, arith,
}
use bacnet_ip_rest_proxy.Bacnet.Packet.{Apdu}
use bacnet_ip_rest_proxy.Client.{Pending, ClientState, begin_request, end_request, handle_incoming}
use bacnet_ip_rest_proxy.Client.Allocate.{
  begin_request-fresh, begin_request-next, update_at, update_other,
}
use bacnet_ip_rest_proxy.Client.Incoming.{handle_incoming-pending, handle_incoming-next}

-- `NewClient`: no request is outstanding.
unfoldable pub new_client : (Ip : Type 0) → ClientState Ip
new_client Ip = record { next_id = 0; pending = λ id. none; subscribers = [] }

pub record IsWellFormed {Ip : Type 0} (c : ClientState Ip) : Type 0 where
  pub next_fits : c.next_id < 256
  pub ids_fit : (id : ℕ) (p : Pending Ip) → c.pending id ≡ some p → id < 256

none_ne : {A : Type 0} {a : A} → none ≢ some a
none_ne = cc

module _ {Ip : Type 0} (ip_equal : Ip → Ip → Bool) where
  -- One step of the client, with the identifier of the request that it ends, if it ends one: a
  -- request begins, a packet is taken, a request ends.
  pub data Step (c : ClientState Ip) : Option ℕ → ClientState Ip → Type 0 where
    begins :
        (addr : Ip) (service id : ℕ)
        → (begin_request addr service c).0 ≡ some id
        → Step c none ((begin_request addr service c).1)
    receives :
        (pkt : List ℕ) (from : Ip) (c' : ClientState Ip)
        → handle_incoming ip_equal pkt from c ≡ ok c'
        → Step c none c'
    ends : (id : ℕ) → Step c (some id) (end_request id c)

  -- Any number of steps, none of which ends the request `avoid`.
  pub data Run (avoid : Option ℕ) : ClientState Ip → ClientState Ip → Type 0 where
    here : {c : ClientState Ip} → Run avoid c c
    more :
        {c c1 c2 : ClientState Ip} {l : Option ℕ}
        → Step c l c1
        → ((id : ℕ) → avoid ≡ some id → l ≢ some id)
        → Run avoid c1 c2
        → Run avoid c c2

  pub Step-IsWellFormed :
      {c c1 : ClientState Ip} {l : Option ℕ} → Step c l c1 → IsWellFormed c → IsWellFormed c1
  unfolding end_request
  Step-IsWellFormed {c} (begins addr service id e) w =
      let (free, small, entry, others) = begin_request-fresh addr service c id w.next_fits e in
      record {
        next_fits = begin_request-next addr service c w.next_fits;
        ids_fit = λ j p q. elim (Bool-cases (j == id)) [
          | inl same ↦ rw ((==_iff j id).0 same) small
          | inr ne ↦ w.ids_fit j p (sym (others j (λ e'. cc ((==_iff j id).1 e'))) ∙ q)
        ];
      }
  Step-IsWellFormed {c} (receives pkt from c1 e) w = record {
    next_fits = rw (handle_incoming-next ip_equal pkt from c c1 e) w.next_fits;
    ids_fit = λ j p q. elim (handle_incoming-pending ip_equal pkt from c c1 j e) [
      | inl kept ↦ w.ids_fit j p (sym kept ∙ q)
      | inr (apdu, p', d, i, found, put) ↦ w.ids_fit j p' found
    ];
  }
  Step-IsWellFormed {c} (ends id) w = record {
    next_fits = w.next_fits;
    ids_fit = λ j p q. elim (Bool-cases (j == id)) [
      | inl same ↦
          absurd (none_ne (sym (update_at c.pending id none j (sym ((==_iff j id).0 same))) ∙ q))
      | inr ne ↦
          w.ids_fit j p (sym (update_other c.pending id j none (λ e'. cc ((==_iff j id).1 e'))) ∙ q)
    ];
  }

  -- A request that has its reply keeps it through a step that does not end the request.
  Step-reply :
      {c c1 : ClientState Ip} {l : Option ℕ} (id : ℕ) (p : Pending Ip) (apdu : Apdu)
      → Step c l c1
      → l ≢ some id
      → IsWellFormed c
      → c.pending id ≡ some p
      → p.reply ≡ some apdu
      → c1.pending id ≡ some p
  unfolding end_request
  Step-reply {c} id p apdu (begins addr service new e) ne w q r =
      let (free, small, entry, others) = begin_request-fresh addr service c new w.next_fits e in
      elim (Bool-cases (id == new)) [
        | inl same ↦ absurd (none_ne (sym free ∙ (ap c.pending (sym ((==_iff id new).0 same)) ∙ q)))
        | inr other ↦ others id (λ e'. cc ((==_iff id new).1 e')) ∙ q
      ]
  Step-reply {c} id p apdu (receives pkt from c1 e) ne w q r =
      elim (handle_incoming-pending ip_equal pkt from c c1 id e) [
        | inl kept ↦ kept ∙ q
        | inr (a, p', d, i, found, put) ↦
            let same : p' ≡ p = some_eq (sym found ∙ q) in
            absurd (none_ne (sym put.empty ∙ (ap (λ x. x.reply) same ∙ r)))
      ]
    where
      some_eq : {a b : Pending Ip} → some a ≡ some b → a ≡ b
      some_eq = cc
  Step-reply {c} id p apdu (ends other) ne w q r =
      update_other c.pending other id none (λ e. ne (ap some (sym e))) ∙ q

  -- In a state whose tables are well formed and with a reply in a request's channel, no run of other
  -- requests beginning and ending and of packets arriving changes that request's entry until the
  -- request itself ends.
  pub Run-reply :
      (id : ℕ) (p : Pending Ip) (apdu : Apdu) {c c' : ClientState Ip}
      → Run (some id) c c'
      → IsWellFormed c
      → c.pending id ≡ some p
      → p.reply ≡ some apdu
      → c'.pending id ≡ some p
  Run-reply id p apdu here w q r = q
  Run-reply id p apdu (more s other run) w q r =
      Run-reply id p apdu run (Step-IsWellFormed s w) (Step-reply id p apdu s (other id refl) w q r)
        r

pub new_client-IsWellFormed : (Ip : Type 0) → IsWellFormed (new_client Ip)
unfolding new_client
new_client-IsWellFormed Ip = record {
  next_fits = omega arith;
  ids_fit = λ id p e. absurd (none_ne e);
}
