-- ===== src/Prelude/Decimal.antt =====
-- Texts as bytes: comparison, prefixes and suffixes (package strings), and decimal numbers
-- (fmt's %d and strconv.ParseUint in base 10).
pub mod RoundTrip
use Prim.Native.Nat.{ℕ, zero, suc, ◌+◌, ◌-◌, ◌*◌, ◌/◌, ◌%◌}
use Prim.Native.Char.{code}
use Prim.Native.String.{String}
use mathlib.Core.Bool.{Bool, true, false, ◌&&◌}
use mathlib.Core.List.{List, [], ◌∷◌}
use mathlib.Core.Option.{Option, none, some}
use bacnet_ip_rest_proxy.Prelude.Tests.{ltb, leb, ◌==◌, if◌then◌else◌}

abbrev pub Bytes : Type 0
Bytes = List ℕ

-- The bytes of an ASCII text.
abbrev pub codes : String → Bytes
codes String.[] = []
codes (String.◌∷◌ c s) = code c ∷ codes s

unfoldable pub same_bytes : Bytes → Bytes → Bool
same_bytes [] [] = true
same_bytes (a ∷ s) (b ∷ t) = (a == b) && same_bytes s t
same_bytes s t = false

-- `strings.CutPrefix`
unfoldable pub cut_prefix : Bytes → Bytes → Option Bytes
cut_prefix [] s = some s
cut_prefix (p ∷ ps) [] = none
cut_prefix (p ∷ ps) (c ∷ s) = if p == c then cut_prefix ps s else none

-- `strings.CutSuffix` of a text of one byte.
unfoldable pub cut_last : ℕ → Bytes → Option Bytes
cut_last b [] = none
cut_last b (c ∷ []) = if c == b then some [] else none
cut_last b (c ∷ d ∷ s) = elim (cut_last b (d ∷ s)) [ none ↦ none | some t ↦ some (c ∷ t) ]

unfoldable pub digits_loop : ℕ → ℕ → Bytes → Bytes
digits_loop zero n out = out
digits_loop (suc fuel) n out =
    let more = (b'0' + n % 10) ∷ out in
    let rest = digits_loop fuel (n / 10) more in if n / 10 == 0 then more else rest

-- A number has at most as many digits as it counts, and one more.
unfoldable pub print_decimal : ℕ → Bytes
unfolding digits_loop
print_decimal n = digits_loop (suc n) n []

unfoldable pub read_digits : ℕ → Bytes → Option ℕ
read_digits n [] = some n
read_digits n (c ∷ s) =
    if leb b'0' c && leb c b'9' then read_digits (n * 10 + (c - b'0')) s else none

-- `strconv.ParseUint(s, 10, 32)`, with the limit of the type.
unfoldable pub parse_uint32 : Bytes → Option ℕ
unfolding read_digits
parse_uint32 [] = none
parse_uint32 (c ∷ s) = elim (read_digits 0 (c ∷ s)) [
  | some n ↦ if leb n 4294967295 then some n else none
  | none ↦ none
]
