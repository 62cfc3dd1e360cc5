-- ===== src/Client/Allocate.antt =====
-- Invoke identifiers: the first part of doConfirmedRequest, internal/bacnet/client.go.
use bacnet_ip_rest_proxy.Prelude.{
  is_present, ==_iff, ℕ, zero, suc, ◌+◌, ◌-◌, ◌%◌, ◌<◌, ◌≡◌, ◌≢◌, refl, sym, ap, ◌∙◌, inl, inr,
  true, false, Option, none, some, ◌==◌, ==_self, ne→==_false, Bool-cases, Option-cases, arith,
}
use bacnet_ip_rest_proxy.Client.{Pending, ClientState, update, allocate_loop, begin_request}

absent : {A : Type 0} (o : Option A) → is_present o ≡ false → o ≡ none
absent none h = refl
absent (some a) h = cc

pub update_self {ℓ} : {A : Type ℓ} (m : ℕ → Option A) (k : ℕ) (v : Option A) → update m k v k ≡ v
unfolding update
update_self m k v = rw (==_self k)

pub update_at {ℓ} :
    {A : Type ℓ} (m : ℕ → Option A) (k : ℕ) (v : Option A) (j : ℕ) → k ≡ j → update m k v j ≡ v
unfolding update
update_at m k v j h = let e : (j == k) ≡ true = (==_iff j k).1 (sym h) in rw e

pub update_other {ℓ} :
    {A : Type ℓ} (m : ℕ → Option A) (k j : ℕ) (v : Option A) → j ≢ k → update m k v j ≡ m j
unfolding update
update_other m k j v h = rw (ne→==_false j k h)

module _ {Ip : Type 0} where
  allocate_loop-fresh :
      (n : ℕ) (pending : ℕ → Option (Pending Ip)) (next id : ℕ)
      → next < 256
      → (allocate_loop n pending next).0 ≡ some id
      → (pending id ≡ none) × (id < 256)
  unfolding allocate_loop
  allocate_loop-fresh zero pending next id h e = cc
  allocate_loop-fresh (suc n) pending next id h e =
      let ih = allocate_loop-fresh n pending ((next + 1) % 256) id (omega arith) in
      elim (Bool-cases (is_present (pending next))) [
        | inl p ↦ ih (rw p at e)
        | inr p ↦
            let same : next ≡ id = some_eq (rw p at e) in
            (rw same at (absent (pending next) p), rw same at h)
      ]
    where
      some_eq : {a b : ℕ} → some a ≡ some b → a ≡ b
      some_eq = cc

  allocate_loop-full :
      (n : ℕ) (pending : ℕ → Option (Pending Ip)) (next : ℕ)
      → next < 256
      → (allocate_loop n pending next).0 ≡ none
      → (k : ℕ) → k < n
      → is_present (pending ((next + k) % 256)) ≡ true
  unfolding allocate_loop
  allocate_loop-full zero pending next h e k lt = absurd (omega arith)
  allocate_loop-full (suc n) pending next h e k lt = elim (Bool-cases (is_present (pending next))) [
    | inr p ↦ absurd (no_id (rw p at e))
    | inl p ↦
        let ih = allocate_loop-full n pending ((next + 1) % 256) (omega arith) (rw p at e) in
        at_offset k lt p ih
  ]
    where
      no_id : some next ≢ none
      no_id = cc

      at_offset :
          (k : ℕ)
          → k < suc n
          → is_present (pending next) ≡ true
          → ((j : ℕ) → j < n → is_present (pending (((next + 1) % 256 + j) % 256)) ≡ true)
          → is_present (pending ((next + k) % 256)) ≡ true
      at_offset zero lt p ih = let same : (next + zero) % 256 ≡ next = omega arith in rw same p
      at_offset (suc j) lt p ih =
          let same : (next + suc j) % 256 ≡ ((next + 1) % 256 + j) % 256 = omega arith in
          rw same (ih j (omega arith))

  allocate_loop-next :
      (n : ℕ) (pending : ℕ → Option (Pending Ip)) (next : ℕ)
      → next < 256
      → (allocate_loop n pending next).1 < 256
  unfolding allocate_loop
  allocate_loop-next zero pending next h = h
  allocate_loop-next (suc n) pending next h =
      let ih = allocate_loop-next n pending ((next + 1) % 256) (omega arith) in
      elim (Bool-cases (is_present (pending next))) [ inl p ↦ rw p ih | inr p ↦ rw p (omega arith) ]

  -- Where the next identifier is below 256, a request that begins gets an identifier below 256 that
  -- no outstanding request has, and is entered under it with an empty channel; every other entry
  -- stays.
  pub begin_request-fresh :
      (addr : Ip) (service : ℕ) (c : ClientState Ip) (id : ℕ)
      → c.next_id < 256
      → (begin_request addr service c).0 ≡ some id
      → (c.pending id ≡ none)
        × (id < 256)
        × ((begin_request addr service c).1.pending id
            ≡ some (record { to = addr; service = service; reply = none }))
        × ((j : ℕ) → j ≢ id → (begin_request addr service c).1.pending j ≡ c.pending j)
  unfolding begin_request
  begin_request-fresh addr service c id h e =
      elim (Option-cases (allocate_loop 256 c.pending c.next_id).0) [
        | inl p ↦ absurd (no_id (rw (p, begin_request) at e))
        | inr (found, p) ↦
            let same : found ≡ id = some_eq (rw (p, begin_request) at e) in
            let q : (allocate_loop 256 c.pending c.next_id).0 ≡ some id = p ∙ ap some same in
            let (free, small) = allocate_loop-fresh 256 c.pending c.next_id id h q in
            let entry = some (record { to = addr; service = service; reply = none }) in
            (
              free,
              small,
              rw (q, begin_request) (update_self c.pending id entry),
              λ j ne. rw (q, begin_request) (update_other c.pending id j entry ne),
            )
      ]
    where
      some_eq : {a b : ℕ} → some a ≡ some b → a ≡ b
      some_eq = cc

      no_id : none ≢ some id
      no_id = cc

  -- Where the next identifier is below 256, a request is refused for want of an identifier only
  -- while all 256 of them are in use.
  pub begin_request-refused :
      (addr : Ip) (service : ℕ) (c : ClientState Ip)
      → c.next_id < 256
      → (begin_request addr service c).0 ≡ none
      → (id : ℕ) → id < 256
      → is_present (c.pending id) ≡ true
  unfolding begin_request
  begin_request-refused addr service c h e id lt =
      elim (Option-cases (allocate_loop 256 c.pending c.next_id).0) [
        | inr (found, p) ↦ absurd (some_id (rw (p, begin_request) at e))
        | inl p ↦
            let same : (c.next_id + (id + 256 - c.next_id) % 256) % 256 ≡ id = omega arith in
            rw same at (
              allocate_loop-full 256 c.pending c.next_id h p ((id + 256 - c.next_id) % 256)
                (omega arith))
      ]
    where
      some_id : {a : ℕ} → some a ≢ none
      some_id = cc

  pub begin_request-next :
      (addr : Ip) (service : ℕ) (c : ClientState Ip)
      → c.next_id < 256
      → (begin_request addr service c).1.next_id < 256
  unfolding begin_request
  begin_request-next addr service c h =
      elim (Option-cases (allocate_loop 256 c.pending c.next_id).0) [
        | inl p ↦ rw (p, begin_request) (allocate_loop-next 256 c.pending c.next_id h)
        | inr (found, p) ↦ rw (p, begin_request) (allocate_loop-next 256 c.pending c.next_id h)
      ]
