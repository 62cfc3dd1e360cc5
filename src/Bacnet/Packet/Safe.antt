-- ===== src/Bacnet/Packet/Safe.antt =====
-- Taking apart any octets as a packet: internal/bacnet/apdu.go, npdu.go and bvlc.go.
use bacnet_ip_rest_proxy.Prelude.{
  bit_or, ◌*◌, mismatch, ℕ, ◌+◌, ◌/◌, ◌≤◌, ◌<◌, ◌≡◌, ◌≢◌, bit_and, Bool, true, false, not, ◌||◌,
  List, [], ◌∷◌, ltb, ◌==◌, if◌then◌else◌, panic, arith, length, Ensures, returns, fails,
  Ensures-if, Ensures-guard, Ensures-bind, Ensures-weaken, Ensures-ne-panic, slice_from-Ensures,
  get_elem?-get_or,
}
use bacnet_ip_rest_proxy.Bacnet.Primitive.BitString.{index}
use bacnet_ip_rest_proxy.Bacnet.Packet.{
  decode_apdu, confirmed_request_of, unconfirmed_request_of, reply_of, reject_of, abort_of,
  skip_address, decode_npdu, bvlc_header, decode_incoming_packet,
}

abbrev pub Anything {ℓ} : {A : Type ℓ} → A → Type 0
Anything a = Unit {0}

index-Ensures : (buf : List ℕ) (k : ℕ) → k < length buf → Ensures Anything (index buf k)
index-Ensures buf k h = rw (get_elem?-get_or buf k 0 h, index) (returns tt)

not-ltb : (a b : ℕ) → not (ltb a b) ≡ true → b ≤ a
not-ltb a b h = ground arith

skip_address-Ensures :
    (present : Bool) (buf : List ℕ) (pos : ℕ) → Ensures Anything (skip_address present buf pos)
unfolding skip_address
skip_address-Ensures present buf pos =
    Ensures-if present
      (λ _. Ensures-guard (not (ltb (length buf) (pos + 3))) _ λ h.
        Ensures-bind (index-Ensures buf (pos + 2) (omega (arith, not-ltb (length buf) (pos + 3) h)))
          λ len _. returns tt)
      (λ _. returns tt)

decode_npdu-Ensures : (buf : List ℕ) → Ensures Anything (decode_npdu buf)
unfolding decode_npdu
decode_npdu-Ensures buf = Ensures-guard (not (ltb (length buf) 2)) _ λ h.
    Ensures-bind (index-Ensures buf 1 (omega (arith, not-ltb (length buf) 2 h))) λ control _.
      let destination = not (bit_and control 0x20 == 0) in
      let source = not (bit_and control 0x08 == 0) in
      Ensures-guard (bit_and control 0x80 == 0) _ λ _.
        Ensures-bind (skip_address-Ensures destination buf 2) λ pos _.
          Ensures-bind (skip_address-Ensures source buf pos) λ pos' _.
            let last = if destination then pos' + 1 else pos' in
            Ensures-guard (not (ltb (length buf) (last + 1))) _ λ k.
              Ensures-weaken
                (slice_from-Ensures last buf (omega (arith, not-ltb (length buf) (last + 1) k)))
                (λ _ _. tt)

confirmed_request_of-Ensures : (rest : List ℕ) → Ensures Anything (confirmed_request_of rest)
unfolding confirmed_request_of
confirmed_request_of-Ensures (a ∷ b ∷ c ∷ rest) = returns tt
confirmed_request_of-Ensures _ = fails

unconfirmed_request_of-Ensures : (rest : List ℕ) → Ensures Anything (unconfirmed_request_of rest)
unfolding unconfirmed_request_of
unconfirmed_request_of-Ensures (a ∷ rest) = returns tt
unconfirmed_request_of-Ensures _ = fails

reply_of-Ensures :
    (pdu_type : ℕ) (p : Bool) (rest : List ℕ) → Ensures Anything (reply_of pdu_type p rest)
unfolding reply_of
reply_of-Ensures pdu_type p (a ∷ b ∷ rest) = returns tt
reply_of-Ensures pdu_type p _ = fails

reject_of-Ensures : (rest : List ℕ) → Ensures Anything (reject_of rest)
unfolding reject_of
reject_of-Ensures (a ∷ b ∷ rest) = returns tt
reject_of-Ensures _ = fails

abort_of-Ensures : (rest : List ℕ) → Ensures Anything (abort_of rest)
unfolding abort_of
abort_of-Ensures (a ∷ b ∷ rest) = returns tt
abort_of-Ensures _ = fails

decode_apdu-Ensures : (buf : List ℕ) → Ensures Anything (decode_apdu buf)
unfolding decode_apdu
decode_apdu-Ensures [] = fails
decode_apdu-Ensures (first ∷ rest) =
    let t = first / 16 in
    let segmented = not (bit_and first 0x08 == 0) in
    Ensures-if (t == 0)
      (λ _. Ensures-if segmented (λ _. fails) (λ _. confirmed_request_of-Ensures rest))
      λ _.
        Ensures-if (t == 1) (λ _. unconfirmed_request_of-Ensures rest)
          λ _.
            Ensures-if (t == 2) (λ _. reply_of-Ensures 2 false rest)
              λ _.
                Ensures-if (t == 3)
                  (λ _. Ensures-if segmented (λ _. fails) (λ _. reply_of-Ensures 3 true rest))
                  λ _.
                    Ensures-if (t == 5) (λ _. reply_of-Ensures 5 true rest)
                      λ _.
                        Ensures-if (t == 6) (λ _. reject_of-Ensures rest)
                          λ _. Ensures-if (t == 7) (λ _. abort_of-Ensures rest) (λ _. fails)

bvlc_header-Ensures : (function : ℕ) → Ensures Anything (bvlc_header function)
unfolding bvlc_header
bvlc_header-Ensures function =
    Ensures-if (function == 0x0a || function == 0x0b) (λ _. returns tt)
      λ _. Ensures-if (function == 0x04) (λ _. returns tt) (λ _. fails)

pub packet-Ensures : (pkt : List ℕ) → Ensures Anything (decode_incoming_packet pkt)
unfolding decode_incoming_packet
packet-Ensures (type ∷ function ∷ high ∷ low ∷ rest) =
    let pkt = type ∷ function ∷ high ∷ low ∷ rest in
    Ensures-guard (type == 0x81) _ λ _. Ensures-bind (bvlc_header-Ensures function) λ header _.
      Ensures-guard (bit_or (high * 256) low == length pkt) mismatch λ _.
        Ensures-guard (not (ltb (length pkt) header)) _ λ h.
          Ensures-bind (slice_from-Ensures header pkt (not-ltb (length pkt) header h))
            λ npdu _. Ensures-bind (decode_npdu-Ensures npdu) λ apdu _. decode_apdu-Ensures apdu
packet-Ensures _ = fails

-- No datagram, however malformed, makes the decoding of a packet panic.
pub decode_incoming_packet-ne-panic : (pkt : List ℕ) → decode_incoming_packet pkt ≢ panic
decode_incoming_packet-ne-panic pkt = Ensures-ne-panic (packet-Ensures pkt)
