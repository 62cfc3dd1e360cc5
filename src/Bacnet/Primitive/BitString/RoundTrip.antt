-- ===== src/Bacnet/Primitive/BitString/RoundTrip.antt =====
-- Bit strings there and back: internal/bacnet/value.go.
use bacnet_ip_rest_proxy.Prelude.{
  ℕ, zero, suc, ◌+◌, ◌-◌, ◌*◌, ◌/◌, ◌%◌, ◌≤◌, ◌<◌, bit_and, bit_or, ◌≡◌, refl, sym, ap, ◌∙◌, Bool,
  true, false, not, List, [], ◌∷◌, ltb, ◌==◌, if◌then◌else◌, ok, arith, length, get_or, set,
  replicate, length-set, length-replicate, get_or-set_self, get_or-set_ne, get_or-replicate,
  get_elem?-get_or, Bool-cases, inl, inr, Ensures, returns, fails, Ensures-bind, Ensures-if,
  Ensures-weaken, le→ltb_false, ne→==_false,
}
use native.Mathlib.Nat.{add-zero}
use bacnet_ip_rest_proxy.Prelude.Bits.{set_bit_mask, bit_or_mask-lt, zero-bit_and}
use bacnet_ip_rest_proxy.Bacnet.Primitive.BitString.{
  bit_mask, set_bits, encode_bit_string_data, index, read_bits, decode_bit_string_data,
}

-- The bit `j` of the octets after the first.
bit_at : List ℕ → ℕ → Bool
bit_at octets j = not (bit_and (get_or octets (1 + j / 8) 0) (bit_mask j) == 0)

set_bit : List ℕ → ℕ → List ℕ
set_bit out i = set out (1 + i / 8) (bit_or (get_or out (1 + i / 8) 0) (bit_mask i))

abbrev AreBytes : List ℕ → Type 0
AreBytes octets = (k : ℕ) → get_or octets k 0 < 256

bit_at-set_bit :
    (out : List ℕ) (i j : ℕ)
    → AreBytes out
    → 1 + i / 8 < length out
    → bit_at (set_bit out i) j ≡ (if i == j then true else bit_at out j)
unfolding bit_at set_bit
bit_at-set_bit out i j bytes h = elim (Bool-cases (i / 8 == j / 8)) [
  | inl same ↦
      let e : i / 8 ≡ j / 8 = ground arith in
      rw (← e, get_or-set_self out (1 + i / 8) _ 0 h)
        (ground (arith, set_bit_mask (get_or out (1 + i / 8) 0) (i % 8) (j % 8), bytes (1 + i / 8)))
  | inr other ↦
      rw
        (get_or-set_ne out (1 + i / 8) (1 + j / 8) (bit_or (get_or out (1 + i / 8) 0) (bit_mask i))
          0 (ground arith))
        (ground arith)
]

set-lt :
    (out : List ℕ) (i k : ℕ) {v : ℕ}
    → v < 256
    → get_or out k 0 < 256
    → get_or (set out i v) k 0 < 256
set-lt [] i k hv h = h
set-lt (x ∷ out) zero zero hv h = hv
set-lt (x ∷ out) zero (suc k) hv h = h
set-lt (x ∷ out) (suc i) zero hv h = h
set-lt (x ∷ out) (suc i) (suc k) hv h = set-lt out i k hv h

set_bit-AreBytes : (out : List ℕ) (i : ℕ) → AreBytes out → AreBytes (set_bit out i)
unfolding set_bit
set_bit-AreBytes out i bytes k =
    set-lt out (1 + i / 8) k (bit_or_mask-lt _ (i % 8) (bytes (1 + i / 8)) (omega arith)) (bytes k)

length-set_bit : (out : List ℕ) (i : ℕ) → length (set_bit out i) ≡ length out
unfolding set_bit
length-set_bit out i = length-set out (1 + i / 8) (bit_or (get_or out (1 + i / 8) 0) (bit_mask i))

-- One round of the loop.
round : Bool → List ℕ → ℕ → List ℕ
unfolding set_bit
round b out i = if b then set_bit out i else out

set_bits-cons :
    (i : ℕ) (b : Bool) (rest : List Bool) (out : List ℕ)
    → set_bits i (b ∷ rest) out ≡ set_bits (i + 1) rest (round b out i)
unfolding set_bits round
set_bits-cons i b rest out = refl

bit_at-round :
    (b : Bool) (out : List ℕ) (i j : ℕ)
    → AreBytes out
    → 1 + i / 8 < length out
    → bit_at out i ≡ false
    → bit_at (round b out i) j ≡ (if i == j then b else bit_at out j)
unfolding round
bit_at-round true out i j bytes h z = bit_at-set_bit out i j bytes h
bit_at-round false out i j bytes h z = elim (Bool-cases (i == j)) [
  | inl e ↦ rw e (ap (bit_at out) (sym (ground arith)) ∙ z)
  | inr n ↦ rw n
]

round-AreBytes : (b : Bool) (out : List ℕ) (i : ℕ) → AreBytes out → AreBytes (round b out i)
unfolding round
round-AreBytes true out i bytes = set_bit-AreBytes out i bytes
round-AreBytes false out i bytes = bytes

length-round : (b : Bool) (out : List ℕ) (i : ℕ) → length (round b out i) ≡ length out
unfolding round
length-round true out i = length-set_bit out i
length-round false out i = refl

get_or-cons :
    (b : Bool) (rest : List Bool) (k : ℕ)
    → get_or (b ∷ rest) k false ≡ (if k == 0 then b else get_or rest (k - 1) false)
get_or-cons b rest zero = refl
get_or-cons b rest (suc k) =
    let e : suc k - 1 ≡ k = omega arith in rw (e, ne→==_false (suc k) 0 (omega arith))

bits_from :
    (b : Bool) (rest : List Bool) (i j : ℕ) (x : Bool)
    → (if ltb j (i + 1) then (if i == j then b else x) else get_or rest (j - (i + 1)) false)
      ≡ (if ltb j i then x else get_or (b ∷ rest) (j - i) false)
bits_from b rest i j x =
    let e : j - (i + 1) ≡ j - i - 1 = omega arith in
    rw e (ground (arith, get_or-cons b rest (j - i)))

-- After the loop the bits from `i` on are those of the list, and the others are as before.
bit_at-set_bits :
    (bits : List Bool) (i : ℕ) (out : List ℕ) (j : ℕ)
    → AreBytes out
    → (i + length bits + 7) / 8 < length out
    → ((k : ℕ) → i ≤ k → bit_at out k ≡ false)
    → bit_at (set_bits i bits out) j ≡ (if ltb j i then bit_at out j else get_or bits (j - i) false)
bit_at-set_bits [] i out j bytes fits clear = unfold set_bits in ground (arith, clear j)
bit_at-set_bits (b ∷ rest) i out j bytes fits clear =
    let k : 1 + i / 8 < length out = omega arith in
    let z = clear i (omega arith) in
    let bytes' = round-AreBytes b out i bytes in
    let fits' : (i + 1 + length rest + 7) / 8 < length (round b out i) =
      omega (arith, length-round b out i) in
    rw (set_bits-cons i b rest out) (
      bit_at-set_bits rest (i + 1) (round b out i) j bytes' fits' (λ m hm.
        bit_at-round b out i m bytes k z
        ∙ rw (ne→==_false i m (omega arith)) (clear m (omega arith)))
      ∙ rw (bit_at-round b out i j bytes k z) (bits_from b rest i j (bit_at out j)))

length-set_bits :
    (bits : List Bool) (i : ℕ) (out : List ℕ) → length (set_bits i bits out) ≡ length out
length-set_bits [] i out = unfold set_bits in refl
length-set_bits (b ∷ rest) i out =
    rw (set_bits-cons i b rest out)
      (length-set_bits rest (i + 1) (round b out i) ∙ length-round b out i)

-- The first octet, the count of unused bits, is left alone.
get_or-set_bits_zero :
    (bits : List Bool) (i : ℕ) (out : List ℕ) → get_or (set_bits i bits out) 0 0 ≡ get_or out 0 0
get_or-set_bits_zero [] i out = unfold set_bits in refl
get_or-set_bits_zero (b ∷ rest) i out =
    rw (set_bits-cons i b rest out)
      (get_or-set_bits_zero rest (i + 1) (round b out i) ∙ unchanged b)
  where
    unchanged : (b : Bool) → get_or (round b out i) 0 0 ≡ get_or out 0 0
    unchanged true = unfold round set_bit in get_or-set_ne out (1 + i / 8) 0 _ 0 (omega arith)
    unchanged false = unfold round in refl

index_in : (octets : List ℕ) (k : ℕ) → k < length octets → index octets k ≡ ok (get_or octets k 0)
index_in octets k h = rw (get_elem?-get_or octets k 0 h, index)

read_bits-bit_at :
    (bits : List Bool) (octets : List ℕ) (i : ℕ)
    → (i + length bits + 7) / 8 < length octets
    → ((j : ℕ) → bit_at octets (i + j) ≡ get_or bits j false)
    → read_bits octets i (length bits) ≡ ok bits
unfolding read_bits bit_at
read_bits-bit_at [] octets i h same = refl
read_bits-bit_at (b ∷ rest) octets i h same =
    let here : bit_at octets i ≡ b = rw (add-zero i) at (same 0) in
    let ih =
      read_bits-bit_at rest octets (i + 1) (omega arith)
        (λ j. ap (bit_at octets) (omega arith) ∙ same (suc j)) in
    rw (index_in octets (1 + i / 8) (omega arith), ih, here)

-- The octets that the encoder starts from.
cleared : List Bool → List ℕ
cleared bits = (8 - length bits % 8) % 8 ∷ replicate ((length bits + 7) / 8) 0

cleared-AreBytes : (bits : List Bool) → AreBytes (cleared bits)
unfolding cleared
cleared-AreBytes bits zero = omega arith
cleared-AreBytes bits (suc k) = omega (arith, get_or-replicate {A = ℕ} ((length bits + 7) / 8) k 0)

bit_at-cleared : (bits : List Bool) (j : ℕ) → bit_at (cleared bits) j ≡ false
unfolding bit_at cleared
bit_at-cleared bits j =
    let e : 1 + j / 8 ≡ suc (j / 8) = omega arith in
    rw (e, get_or-replicate {A = ℕ} ((length bits + 7) / 8) (j / 8) 0, zero-bit_and (bit_mask j))

encode_bit_string_data-set_bits :
    (bits : List Bool) → encode_bit_string_data bits ≡ set_bits 0 bits (cleared bits)
unfolding encode_bit_string_data cleared
encode_bit_string_data-set_bits bits = refl

pub length-encode_bit_string_data :
    (bits : List Bool) → length (encode_bit_string_data bits) ≡ 1 + (length bits + 7) / 8
unfolding cleared
length-encode_bit_string_data bits = rw (encode_bit_string_data-set_bits bits) (
    length-set_bits bits 0 (cleared bits)
    ∙ omega (arith, length-replicate {A = ℕ} ((length bits + 7) / 8) 0))

-- Decoding octets whose first one and length are known.
decode_octets :
    (octets : List ℕ) (n : ℕ)
    → get_or octets 0 0 ≡ (8 - n % 8) % 8
    → length octets ≡ 1 + (n + 7) / 8
    → decode_bit_string_data octets ≡ read_bits octets 0 n
unfolding decode_bit_string_data
decode_octets [] n h k = absurd (omega arith)
decode_octets (unused ∷ rest) n h k =
    let e : length rest * 8 - unused ≡ n = omega arith in
    rw (le→ltb_false (length rest * 8) unused (omega arith), e)

-- Every bit string reads back, bit for bit.
pub decode_bit_string_data-encode_bit_string_data :
    (bits : List Bool) → decode_bit_string_data (encode_bit_string_data bits) ≡ ok bits
decode_bit_string_data-encode_bit_string_data bits =
    let octets = encode_bit_string_data bits in
    let e = encode_bit_string_data-set_bits bits in
    let size = length-encode_bit_string_data bits in
    let first : get_or octets 0 0 ≡ (8 - length bits % 8) % 8 =
      rw e (get_or-set_bits_zero bits 0 (cleared bits) ∙ unfold cleared in refl) in
    decode_octets octets (length bits) first size
    ∙ read_bits-bit_at bits octets 0 (omega arith) (λ j. rw e (
        bit_at-set_bits bits 0 (cleared bits) (0 + j) (cleared-AreBytes bits)
          (unfold cleared in omega (arith, length-replicate {A = ℕ} ((length bits + 7) / 8) 0))
          (λ k _. bit_at-cleared bits k)
        ∙ rw (le→ltb_false (0 + j) 0 (omega arith)) (ap (λ k. get_or bits k false) (omega arith))))

-- On any octets the decoder fails or returns, with no read past the end.
read_bits-Ensures :
    (octets : List ℕ) (i n : ℕ)
    → i + n ≤ 8 * (length octets - 1)
    → Ensures (λ bits. length bits ≡ n) (read_bits octets i n)
unfolding read_bits
read_bits-Ensures octets i zero h = returns refl
read_bits-Ensures octets i (suc n) h =
    rw (index_in octets (1 + i / 8) (omega arith))
      (Ensures-bind (read_bits-Ensures octets (i + 1) n (omega arith)) λ bits e. returns (ap suc e))

pub decode_bit_string_data-Ensures :
    (octets : List ℕ)
    → Ensures (λ bits. length bits ≤ 8 * (length octets - 1)) (decode_bit_string_data octets)
unfolding decode_bit_string_data
decode_bit_string_data-Ensures [] = fails
decode_bit_string_data-Ensures (unused ∷ rest) =
    Ensures-if (ltb (length rest * 8) unused) (λ _. fails)
      λ h.
        Ensures-weaken
          (read_bits-Ensures (unused ∷ rest) 0 (length rest * 8 - unused) (omega arith))
          (λ bits e. omega arith)
