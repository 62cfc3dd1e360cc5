-- ===== src/Bacnet/Primitive/BitString.antt =====
-- Bit strings of value.go: a count of unused bits, then the bits, eight to an octet, highest first.
pub mod RoundTrip
use bacnet_ip_rest_proxy.Prelude.{
  ℕ, zero, suc, ◌+◌, ◌-◌, ◌*◌, ◌/◌, ◌%◌, ◌^◌, bit_and, bit_or, Bool, not, List, [], ◌∷◌, none, some,
  ltb, ◌==◌, if◌then◌else◌, Outcome, ok, err, panic, malformed, ◌>>=◌, length, get_elem?, get_or,
  set, replicate,
}

-- `0x80 >> uint(i%8)`
abbrev pub bit_mask : ℕ → ℕ
bit_mask i = 0x80 / 2 ^ (i % 8)

-- The loop over the bits: `if b { out[1+i/8] |= 0x80 >> uint(i%8) }`. A write past the end would
-- panic; `length-set_bits` and the size of `out` rule it out.
pub set_bits : ℕ → List Bool → List ℕ → List ℕ
set_bits i [] out = out
set_bits i (b ∷ rest) out =
    let k = 1 + i / 8 in
    set_bits (i + 1) rest (if b then set out k (bit_or (get_or out k 0) (bit_mask i)) else out)

unfoldable pub encode_bit_string_data : List Bool → List ℕ
unfolding set_bits
encode_bit_string_data bits =
    let n = length bits in set_bits 0 bits ((8 - n % 8) % 8 ∷ replicate ((n + 7) / 8) 0)

-- `data[k]`
abbrev pub index : List ℕ → ℕ → Outcome ℕ
index octets k = elim (get_elem? octets k) [ none ↦ panic | some b ↦ ok b ]

-- `n` bits from the bit `i` on.
pub read_bits : List ℕ → ℕ → ℕ → Outcome (List Bool)
read_bits octets i zero = ok []
read_bits octets i (suc n) = do
  byt ← index octets (1 + i / 8)
  bits ← read_bits octets (i + 1) n
  ok (not (bit_and byt (bit_mask i) == 0) ∷ bits)

unfoldable pub decode_bit_string_data : List ℕ → Outcome (List Bool)
unfolding read_bits
decode_bit_string_data [] = err malformed
decode_bit_string_data (unused ∷ rest) =
    if ltb (length rest * 8) unused
    then err malformed
    else read_bits (unused ∷ rest) 0 (length rest * 8 - unused)
