-- ===== src/Bacnet/Tag/Safe.antt =====
-- Tag headers read from any octets: internal/bacnet/tag.go.
use bacnet_ip_rest_proxy.Prelude.{
  ℕ, ◌+◌, ◌/◌, ◌≤◌, ◌≡◌, List, [], ◌∷◌, ltb, ◌==◌, if◌then◌else◌, ok, arith, length, Ensures,
  returns, fails, Ensures-if, Ensures-bind, Ensures-weaken, bit_and,
}
use bacnet_ip_rest_proxy.Bacnet.Tag.{
  TagInfo, decode_tag_header, extended_number, extended_length, two_octets, four_octets,
}

-- A header of `t.header` octets, which stand at the front of `buf`.
abbrev pub HeaderIn : List ℕ → TagInfo → Type 0
HeaderIn buf t = (1 ≤ t.header) × (t.header ≤ length buf)

abbrev ReadsNumber : ℕ → ℕ × List ℕ × ℕ → Type 0
ReadsNumber limit r = (1 ≤ r.2) × (r.2 + length r.1 ≡ 1 + limit)

extended_number-Ensures :
    (rest : List ℕ) → Ensures (ReadsNumber (length rest)) (extended_number rest)
unfolding extended_number
extended_number-Ensures [] = fails
extended_number-Ensures (n ∷ rest) = returns {a = (n, rest, 2)} (omega arith, omega arith)

number_part-Ensures :
    (number : ℕ) (rest : List ℕ)
    → Ensures
        (ReadsNumber (length rest))
        (if number == 0x0f then extended_number rest else ok (number, rest, 1))
number_part-Ensures number rest =
    Ensures-if (number == 0x0f) (λ _. extended_number-Ensures rest)
      (λ _. returns {a = (number, rest, 1)} (omega arith, omega arith))

abbrev Reads : ℕ → ℕ → ℕ × ℕ → Type 0
Reads pos limit r = (1 ≤ r.1) × (r.1 ≤ limit)

two_octets-Ensures :
    (rest : List ℕ) (pos : ℕ) → Ensures (Reads pos (pos + length rest)) (two_octets rest pos)
unfolding two_octets
two_octets-Ensures (a ∷ b ∷ rest) pos = returns (omega arith)
two_octets-Ensures _ pos = fails

four_octets-Ensures :
    (rest : List ℕ) (pos : ℕ) → Ensures (Reads pos (pos + length rest)) (four_octets rest pos)
unfolding four_octets
four_octets-Ensures (a ∷ b ∷ c ∷ d ∷ rest) pos = returns (omega arith)
four_octets-Ensures _ pos = fails

extended_length-Ensures :
    (rest : List ℕ) (pos : ℕ) → Ensures (Reads pos (pos + length rest)) (extended_length rest pos)
unfolding extended_length
extended_length-Ensures [] pos = fails
extended_length-Ensures (len_byte ∷ rest) pos =
    Ensures-if (ltb len_byte 254) (λ _. returns (omega arith))
      λ _.
        Ensures-if (len_byte == 254)
          (λ _. Ensures-weaken (two_octets-Ensures rest (pos + 1)) (λ a h. omega arith))
          (λ _. Ensures-weaken (four_octets-Ensures rest (pos + 1)) (λ a h. omega arith))

-- On any input `decodeTagHeader` fails, or reads at least one octet and none past the end.
pub decode_tag_header-Ensures : (buf : List ℕ) → Ensures (HeaderIn buf) (decode_tag_header buf)
unfolding decode_tag_header
decode_tag_header-Ensures [] = fails
decode_tag_header-Ensures (first ∷ rest) =
    Ensures-bind (number_part-Ensures (first / 16) rest) λ (number, tail, pos) h.
      Ensures-bind {P = Reads pos (1 + length rest)}
        (Ensures-if (bit_and first 0x07 == 5)
          (λ _. Ensures-weaken (extended_length-Ensures tail pos) (λ a k. omega arith))
          (λ _. returns (omega arith)))
        λ (lvt, header) k. returns (omega arith)
