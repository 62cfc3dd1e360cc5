-- ===== src/Client/Identify/Laws.antt =====
-- What WhoIs and DeviceInstance find, internal/bacnet/client.go.
use bacnet_ip_rest_proxy.Prelude.{
  ℕ, zero, suc, ◌+◌, ◌≤◌, ◌<◌, ◌≡◌, ◌==◌, ◌⊎◌, inl, inr, Bool, true, false, List, [], ◌∷◌, Option,
  none, some, Bool-cases, Option-cases, refl, arith,
}
use bacnet_ip_rest_proxy.Bacnet.Value.{Values}
use bacnet_ip_rest_proxy.Bacnet.Primitive.{ObjectIdentifier}
use bacnet_ip_rest_proxy.Bacnet.Services.Discovery.{IAm}
use bacnet_ip_rest_proxy.Client.Calls.{CallResult, returned, refused, undecodable, failed}
use bacnet_ip_rest_proxy.Client.Identify.{
  Ending, expired, cancelled, Attempt, unsent, waited, WhoIsResult, heard, who_is_unsent,
  who_is_cancelled, who_is_timeout, first_from, who_is_loop, who_is, number, not_device,
  device_type, wildcard, object_in, device_of, wildcard_result, ask_wildcard, device_instance,
}

module _ {Ip : Type 0} (same : Ip → Ip → Bool) (to : Ip) where
  -- The I-Am is among the events, from the device's address.
  pub data Sent (iam : IAm) : List (Ip × IAm) → Type 0 where
    sent_now :
        {from : Ip} {events : List (Ip × IAm)}
        → same from to ≡ true
        → Sent iam ((from, iam) ∷ events)
    sent_later : {e : Ip × IAm} {events : List (Ip × IAm)} → Sent iam events → Sent iam (e ∷ events)

  first_from-Sent :
      (events : List (Ip × IAm)) (iam : IAm)
      → first_from same to events ≡ some iam
      → Sent iam events
  unfolding first_from
  first_from-Sent [] iam h = absurd (cc)
  first_from-Sent ((from, a) ∷ events) iam h = elim (Bool-cases (same from to)) [
    | inl yours ↦
        let found : ◌≡◌ {A = Option IAm} (some a) (some iam) = rw (yours, first_from) at h in
        let same_iam : a ≡ iam = cc in rw same_iam (sent_now yours)
    | inr other ↦ sent_later (first_from-Sent events iam (rw (other, first_from) at h))
  ]

  -- An attempt among those that start at the number `sent` hears the I-Am from the device.
  pub data Hears (attempts : ℕ → Attempt Ip) (sent left : ℕ) (iam : IAm) : Type 0 where
    hears :
        {k : ℕ} {events : List (Ip × IAm)} {ending : Ending}
        → k < left
        → attempts (sent + k) ≡ waited events ending
        → Sent iam events
        → Hears attempts sent left iam

  Hears-later :
      {attempts : ℕ → Attempt Ip} {sent left : ℕ} {iam : IAm}
      → Hears attempts (sent + 1) left iam
      → Hears attempts sent (suc left) iam
  Hears-later {sent = sent} (hears {k = k} lt met there) =
      let shift : sent + 1 + k ≡ sent + suc k = omega arith in
      hears {k = suc k} (omega arith) (rw shift at met) there

  Hears-now :
      {attempts : ℕ → Attempt Ip} {sent left : ℕ} {iam : IAm} {events : List (Ip × IAm)}
      {ending : Ending}
      → attempts sent ≡ waited events ending
      → Sent iam events
      → Hears attempts sent (suc left) iam
  Hears-now {attempts = attempts} {sent = sent} {events = events} {ending = ending} met there =
      let here : sent + zero ≡ sent = omega arith in
      let at_zero : attempts (sent + zero) ≡ waited events ending = rw here met in
      hears {k = zero} (omega arith) at_zero there

  Attempt-cases :
      (a : Attempt Ip)
      → (a ≡ unsent) ⊎ (events : List (Ip × IAm)) × (ending : Ending) × (a ≡ waited events ending)
  Attempt-cases unsent = inl refl
  Attempt-cases (waited events ending) = inr (events, ending, refl)

  Ending-cases : (e : Ending) → (e ≡ expired) ⊎ (e ≡ cancelled)
  Ending-cases expired = inl refl
  Ending-cases cancelled = inr refl

  who_is_loop-Hears :
      (left : ℕ) (attempts : ℕ → Attempt Ip) (sent : ℕ) (iam : IAm)
      → who_is_loop same to left attempts sent ≡ heard iam
      → Hears attempts sent left iam
  unfolding who_is_loop
  who_is_loop-Hears zero attempts sent iam h = absurd (cc)
  who_is_loop-Hears (suc left) attempts sent iam h = elim (Attempt-cases (attempts sent)) [
    | inl no_packet ↦ absurd (unsent_ne (rw (no_packet, who_is_loop) at h))
    | inr (events, ending, met) ↦ elim (Option-cases (first_from same to events)) [
      | inr (a, first) ↦
          let same_iam : a ≡ iam = heard_same (rw (met, first, who_is_loop) at h) in
          Hears-now met (rw same_iam at (first_from-Sent events a first))
      | inl nothing ↦ elim (Ending-cases ending) [
        | inr stop ↦ absurd (cancelled_ne (rw (met, nothing, stop, who_is_loop) at h))
        | inl next ↦ Hears-later (
            who_is_loop-Hears left attempts (sent + 1) iam
              (rw (met, nothing, next, who_is_loop) at h))
      ]
    ]
  ]
    where
      unsent_ne : who_is_unsent ≡ heard iam → ⊥
      unsent_ne e = cc

      cancelled_ne : who_is_cancelled ≡ heard iam → ⊥
      cancelled_ne e = cc

      heard_same : {a : IAm} → heard a ≡ heard iam → a ≡ iam
      heard_same e = cc

  -- How the number of a device was found: an I-Am from its address that an attempt heard, or its
  -- answer about the wildcard device.
  pub data Found (retries : ℕ) (attempts : ℕ → Attempt Ip)
      (read : ObjectIdentifier → CallResult Values) (n : ℕ) : Type 0 where
    by_who_is :
        {iam : IAm}
        → Hears attempts 0 (retries + 1) iam
        → iam.device.instance_number ≡ n
        → Found retries attempts read n
    by_read :
        {values : Values} {o : ObjectIdentifier}
        → read wildcard ≡ returned values
        → object_in values ≡ some o
        → o.object_type ≡ device_type
        → o.instance_number ≡ n
        → Found retries attempts read n

  Asked : (CallResult Values) → ℕ → Type 0
  Asked c n =
      (values : Values) × (o : ObjectIdentifier) × (c ≡ returned values)
      × (object_in values ≡ some o)
      × (o.object_type ≡ device_type)
      × (o.instance_number ≡ n)

  wildcard_result-Asked :
      (e : WhoIsResult) (c : CallResult Values) (n : ℕ) → wildcard_result e c ≡ number n → Asked c n
  unfolding wildcard_result device_of Asked
  wildcard_result-Asked e (refused why) n h = absurd (cc)
  wildcard_result-Asked e (undecodable why) n h = absurd (cc)
  wildcard_result-Asked e (failed why) n h = absurd (cc)
  wildcard_result-Asked e (returned values) n h = elim (Option-cases (object_in values)) [
    | inl nothing ↦ absurd (not_number (rw (nothing, wildcard_result, device_of) at h))
    | inr (o, found) ↦ elim (Bool-cases (o.object_type == device_type)) [
      | inl device ↦ (
        values,
        o,
        refl,
        found,
        (ground arith),
        number_same (rw (found, device, wildcard_result, device_of) at h),
      )
      | inr other ↦ absurd (not_number (rw (found, other, wildcard_result, device_of) at h))
    ]
  ]
    where
      not_number : not_device e values ≡ number n → ⊥
      not_number eq = cc

      number_same : {m : ℕ} → number m ≡ number n → m ≡ n
      number_same eq = cc

  ask_wildcard-Asked :
      (e : WhoIsResult) (done : Bool) (read : ObjectIdentifier → CallResult Values) (n : ℕ)
      → ask_wildcard e done read ≡ number n
      → Asked (read wildcard) n
  unfolding ask_wildcard
  ask_wildcard-Asked e true read n h = absurd (cc)
  ask_wildcard-Asked e false read n h = wildcard_result-Asked e (read wildcard) n h

  Found-read :
      {retries : ℕ} {attempts : ℕ → Attempt Ip} {read : ObjectIdentifier → CallResult Values}
      {n : ℕ}
      → Asked (read wildcard) n
      → Found retries attempts read n
  unfolding Asked
  Found-read (values, o, answer, found, device, same_number) =
      by_read answer found device same_number

  Found-result :
      (r : WhoIsResult) (retries : ℕ) (attempts : ℕ → Attempt Ip) (done : Bool)
      (read : ObjectIdentifier → CallResult Values) (n : ℕ)
      → who_is same to retries attempts ≡ r
      → device_instance r done read ≡ number n
      → Found retries attempts read n
  unfolding device_instance who_is
  Found-result (heard iam) retries attempts done read n found h =
      by_who_is (who_is_loop-Hears (retries + 1) attempts 0 iam found) (cc)
  Found-result who_is_unsent retries attempts done read n found h =
      Found-read (ask_wildcard-Asked who_is_unsent done read n h)
  Found-result who_is_cancelled retries attempts done read n found h =
      Found-read (ask_wildcard-Asked who_is_cancelled done read n h)
  Found-result who_is_timeout retries attempts done read n found h =
      Found-read (ask_wildcard-Asked who_is_timeout done read n h)

  -- If DeviceInstance returns a number, it is that of an I-Am which one of the attempts, of which
  -- there is one more than the retries, heard from the device's address, or the device gave it as
  -- the object identifier of the wildcard device.
  pub device_instance-Found :
      (retries : ℕ) (attempts : ℕ → Attempt Ip) (done : Bool)
      (read : ObjectIdentifier → CallResult Values) (n : ℕ)
      → device_instance (who_is same to retries attempts) done read ≡ number n
      → Found retries attempts read n
  device_instance-Found retries attempts done read n h =
      Found-result (who_is same to retries attempts) retries attempts done read n refl h

  -- An attempt hears nothing from the device until its deadline.
  abbrev pub Silent : Attempt Ip → Type 0
  Silent a =
      (events : List (Ip × IAm)) × (a ≡ waited events expired) × (first_from same to events ≡ none)

  who_is_loop-heard :
      (left : ℕ) (attempts : ℕ → Attempt Ip) (sent k : ℕ) (events : List (Ip × IAm))
      (ending : Ending) (iam : IAm)
      → k < left
      → ((j : ℕ) → j < k → Silent (attempts (sent + j)))
      → attempts (sent + k) ≡ waited events ending
      → first_from same to events ≡ some iam
      → who_is_loop same to left attempts sent ≡ heard iam
  unfolding who_is_loop
  who_is_loop-heard zero attempts sent k events ending iam lt silent met first =
      absurd (omega arith)
  who_is_loop-heard (suc left) attempts sent zero events ending iam lt silent met first =
      let here : sent + zero ≡ sent = omega arith in
      let now : attempts sent ≡ waited events ending = rw here at met in
      rw (now, first, who_is_loop) refl
  who_is_loop-heard (suc left) attempts sent (suc k) events ending iam lt silent met first =
      let here : sent + zero ≡ sent = omega arith in
      let shift : (j : ℕ) → sent + suc j ≡ sent + 1 + j = λ j. omega arith in
      let quiet : Silent (attempts sent) = rw here at (silent zero (omega arith)) in
      let (others, now, nothing) = quiet in
      let later =
        who_is_loop-heard left attempts (sent + 1) k events ending iam (omega arith)
          (λ j l. rw (shift j) at (silent (suc j) (omega arith))) (rw (shift k) at met) first in
      rw (now, nothing, who_is_loop) later

  -- If the attempts before one within the retries hear nothing from the device until their
  -- deadlines, and this one hears it, WhoIs returns the first I-Am from the device's address that
  -- it hears.
  pub who_is-heard :
      (retries : ℕ) (attempts : ℕ → Attempt Ip) (k : ℕ) (events : List (Ip × IAm)) (ending : Ending)
      (iam : IAm)
      → k ≤ retries
      → ((j : ℕ) → j < k → Silent (attempts j))
      → attempts k ≡ waited events ending
      → first_from same to events ≡ some iam
      → who_is same to retries attempts ≡ heard iam
  unfolding who_is
  who_is-heard retries attempts k events ending iam le silent met first =
      let plain : (j : ℕ) → 0 + j ≡ j = λ j. omega arith in
      who_is_loop-heard (retries + 1) attempts 0 k events ending iam (omega arith)
        (λ j l. rw (plain j) (silent j l)) (rw (plain k) met) first
