-- ===== src/Client/Attempts.antt =====
-- The attempts of a confirmed request: doConfirmedRequest, internal/bacnet/client.go.
use bacnet_ip_rest_proxy.Prelude.{ℕ, zero, suc, ◌+◌, ◌≤◌, ◌<◌, ◌≡◌, arith}
use bacnet_ip_rest_proxy.Bacnet.Packet.{Apdu}
use bacnet_ip_rest_proxy.Client.{
  Event, replied, timed_out, reply, timeout_error, attempts_loop, confirmed_attempts,
}

attempts_loop-reply :
    (left : ℕ) (meets : ℕ → Event) (sent k : ℕ) (apdu : Apdu)
    → k < left
    → ((j : ℕ) → j < k → meets (sent + j) ≡ timed_out)
    → meets (sent + k) ≡ replied apdu
    → attempts_loop left meets sent ≡ (reply apdu, sent + k + 1)
unfolding attempts_loop
attempts_loop-reply zero meets sent k apdu lt silent e = absurd (omega arith)
attempts_loop-reply (suc left) meets sent zero apdu lt silent e =
    let here : sent + zero ≡ sent = omega arith in
    let m : meets sent ≡ replied apdu = rw here at e in rw (m, attempts_loop, here)
attempts_loop-reply (suc left) meets sent (suc k) apdu lt silent e =
    let here : sent + zero ≡ sent = omega arith in
    let first : meets sent ≡ timed_out = rw here at (silent zero (omega arith)) in
    let shift : (j : ℕ) → sent + suc j ≡ sent + 1 + j = λ j. omega arith in
    let ih =
      attempts_loop-reply left meets (sent + 1) k apdu (omega arith)
        (λ j l. rw (shift j) at (silent (suc j) (omega arith))) (rw (shift k) at e) in
    rw (first, attempts_loop, shift k, ih)

attempts_loop-timeout :
    (left : ℕ) (meets : ℕ → Event) (sent : ℕ)
    → ((j : ℕ) → j < left → meets (sent + j) ≡ timed_out)
    → attempts_loop left meets sent ≡ (timeout_error, sent + left)
unfolding attempts_loop
attempts_loop-timeout zero meets sent silent =
    let here : sent + zero ≡ sent = omega arith in rw here
attempts_loop-timeout (suc left) meets sent silent =
    let here : sent + zero ≡ sent = omega arith in
    let first : meets sent ≡ timed_out = rw here at (silent zero (omega arith)) in
    let shift : (j : ℕ) → sent + suc j ≡ sent + 1 + j = λ j. omega arith in
    let ih =
      attempts_loop-timeout left meets (sent + 1)
        (λ j l. rw (shift j) at (silent (suc j) (omega arith))) in
    rw (first, attempts_loop, shift left, ih)

-- A reply to attempt k + 1, after k attempts that timed out and with k within the retries, is the
-- request's result, and k + 1 packets were sent.
pub confirmed_attempts-reply :
    (retries : ℕ) (meets : ℕ → Event) (k : ℕ) (apdu : Apdu)
    → k ≤ retries
    → ((j : ℕ) → j < k → meets j ≡ timed_out)
    → meets k ≡ replied apdu
    → confirmed_attempts retries meets ≡ (reply apdu, k + 1)
unfolding confirmed_attempts
confirmed_attempts-reply retries meets k apdu le silent e =
    let plain : (j : ℕ) → 0 + j ≡ j = λ j. omega arith in
    let back =
      attempts_loop-reply (retries + 1) meets 0 k apdu (omega arith)
        (λ j l. rw (plain j) (silent j l)) (rw (plain k) e) in
    rw (plain k) at back

-- If each of the attempts times out, the request ends with the timeout error after the first
-- packet and one packet a retry.
pub confirmed_attempts-timeout :
    (retries : ℕ) (meets : ℕ → Event)
    → ((j : ℕ) → j ≤ retries → meets j ≡ timed_out)
    → confirmed_attempts retries meets ≡ (timeout_error, retries + 1)
unfolding confirmed_attempts
confirmed_attempts-timeout retries meets silent =
    let plain : (j : ℕ) → 0 + j ≡ j = λ j. omega arith in
    rw (plain (retries + 1)) at
      (attempts_loop-timeout (retries + 1) meets 0 (λ j l. rw (plain j) (silent j (omega arith))))
