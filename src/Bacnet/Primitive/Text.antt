-- ===== src/Bacnet/Primitive/Text.antt =====
-- Character strings of value.go: the decoding of the four character sets into UTF-8, with the
-- functions of Go's standard library that it calls. A Go string is the list of its bytes.
use bacnet_ip_rest_proxy.Prelude.{
  ℕ, zero, suc, ◌+◌, ◌-◌, ◌*◌, ◌/◌, ◌%◌, ◌^◌, ◌≡◌, refl, ap, Bool, true, false, ◌&&◌, ◌||◌, List,
  [], ◌∷◌, ◌++◌, ltb, leb, ◌==◌, if◌then◌else◌, Outcome, ok, err, unsupported, malformed, length,
  Ensures, returns, fails, Ensures-if, ℕ-cases, inl, inr,
}
use bacnet_ip_rest_proxy.Bacnet.Tag.{uint32_of}

within : ℕ → ℕ → ℕ → Bool
within lo hi b = leb lo b && leb b hi

cont : ℕ → Bool
unfolding within
cont b = within 0x80 0xbf b

-- How many bytes the encoded rune at the front takes, 0 where there is none (`utf8.DecodeRune`).
abbrev two_bytes : List ℕ → ℕ
two_bytes (b1 ∷ rest) = if cont b1 then 2 else 0
two_bytes _ = 0

abbrev three_bytes : ℕ → ℕ → List ℕ → ℕ
three_bytes lo hi (b1 ∷ b2 ∷ rest) = if within lo hi b1 && cont b2 then 3 else 0
three_bytes lo hi _ = 0

abbrev four_bytes : ℕ → ℕ → List ℕ → ℕ
four_bytes lo hi (b1 ∷ b2 ∷ b3 ∷ rest) = if within lo hi b1 && (cont b2 && cont b3) then 4 else 0
four_bytes lo hi _ = 0

rune_width : ℕ → List ℕ → ℕ
unfolding cont
rune_width b rest =
    if ltb b 0x80
    then 1
    else if within 0xc2 0xdf b
    then two_bytes rest
    else if b == 0xe0
    then three_bytes 0xa0 0xbf rest
    else if b == 0xed
    then three_bytes 0x80 0x9f rest
    else if within 0xe1 0xef b
    then three_bytes 0x80 0xbf rest
    else if b == 0xf0
    then four_bytes 0x90 0xbf rest
    else if b == 0xf4
    then four_bytes 0x80 0x8f rest
    else if within 0xf1 0xf3 b
    then four_bytes 0x80 0xbf rest
    else 0

-- U+FFFD in UTF-8.
abbrev rune_error : List ℕ
rune_error = 0xef ∷ 0xbf ∷ 0xbd ∷ []

-- `strings.ToValidUTF8` with U+FFFD: `left` bytes of a rune are still to be copied, and `run` says
-- that the last byte was invalid, so that a run of invalid bytes is replaced once.
valid_loop : ℕ → Bool → List ℕ → List ℕ
valid_loop left run [] = []
valid_loop (suc left) run (b ∷ rest) = b ∷ valid_loop left false rest
valid_loop zero run (b ∷ rest) = elim (rune_width b rest) [
  | zero ↦ (if run then [] else rune_error) ++ valid_loop zero true rest
  | suc more ↦ b ∷ valid_loop more false rest
]

unfoldable pub to_valid_utf8 : List ℕ → List ℕ
unfolding valid_loop rune_width
to_valid_utf8 octets = valid_loop 0 false octets

-- `utf8.ValidString`.
valid_from : ℕ → List ℕ → Bool
valid_from left [] = true
valid_from (suc left) (b ∷ rest) = valid_from left rest
valid_from zero (b ∷ rest) = elim (rune_width b rest) [
  | zero ↦ false
  | suc more ↦ valid_from more rest
]

unfoldable pub valid_utf8 : List ℕ → Bool
unfolding valid_from rune_width
valid_utf8 octets = valid_from 0 octets

-- `string(rune)`: an invalid rune, a surrogate or one past U+10FFFF, becomes U+FFFD.
encode_rune : ℕ → List ℕ
unfolding within
encode_rune r =
    if ltb r 0x80
    then r ∷ []
    else if ltb r 0x800
    then (0xc0 + r / 64) ∷ (0x80 + r % 64) ∷ []
    else if within 0xd800 0xdfff r || ltb 0x10ffff r
    then rune_error
    else if ltb r 0x10000
    then (0xe0 + r / 4096) ∷ (0x80 + r / 64 % 64) ∷ (0x80 + r % 64) ∷ []
    else (0xf0 + r / 2 ^ 18) ∷ (0x80 + r / 4096 % 64) ∷ (0x80 + r / 64 % 64) ∷ (0x80 + r % 64) ∷ []

encode_runes : List ℕ → List ℕ
unfolding encode_rune
encode_runes [] = []
encode_runes (r ∷ rest) = encode_rune r ++ encode_runes rest

-- The 16-bit and the 32-bit units of the data; the length has been checked.
units16 : List ℕ → List ℕ
units16 (a ∷ b ∷ rest) = (a * 256 + b) ∷ units16 rest
units16 _ = []

units32 : List ℕ → List ℕ
units32 (a ∷ b ∷ c ∷ d ∷ rest) = uint32_of a b c d ∷ units32 rest
units32 _ = []

-- `utf16.Decode`: a high and a low surrogate make one rune, a lone one is U+FFFD.
utf16_decode : List ℕ → List ℕ
unfolding within
utf16_decode [] = []
utf16_decode (u ∷ []) = (if within 0xd800 0xdfff u then 0xfffd else u) ∷ []
utf16_decode (u ∷ w ∷ rest) =
    let pair = within 0xd800 0xdbff u && within 0xdc00 0xdfff w in
    let paired = utf16_decode rest in
    let single = utf16_decode (w ∷ rest) in
    if pair
    then ((u - 0xd800) * 1024 + (w - 0xdc00) + 0x10000) ∷ paired
    else (if within 0xd800 0xdfff u then 0xfffd else u) ∷ single

-- `decodeCharacterString`
unfoldable pub decode_character_string : ℕ → List ℕ → Outcome (List ℕ)
unfolding to_valid_utf8 encode_runes units16 units32 utf16_decode
decode_character_string charset octets =
    if charset == 0
    then ok (to_valid_utf8 octets)
    else if charset == 5
    then ok (encode_runes octets)
    else if charset == 4
    then (if length octets % 2 == 0
        then ok (encode_runes (utf16_decode (units16 octets)))
        else err malformed)
    else if charset == 3
    then (if length octets % 4 == 0 then ok (encode_runes (units32 octets)) else err malformed)
    else err unsupported

valid_loop-valid :
    (left : ℕ) (run : Bool) (octets : List ℕ)
    → valid_from left octets ≡ true
    → valid_loop left run octets ≡ octets
unfolding valid_loop valid_from
valid_loop-valid left run [] h = refl
valid_loop-valid (suc left) run (b ∷ rest) h = ap (λ t. b ∷ t) (valid_loop-valid left false rest h)
valid_loop-valid zero run (b ∷ rest) h = elim (ℕ-cases (rune_width b rest)) [
  | inl e ↦ cc (rw (e, valid_from) at h)
  | inr (more, e) ↦
      rw (e, valid_loop)
        (ap (λ t. b ∷ t) (valid_loop-valid more false rest (rw (e, valid_from) at h)))
]

-- Valid UTF-8 is read as it stands.
pub decode_character_string-utf8 :
    (octets : List ℕ) → valid_utf8 octets ≡ true → decode_character_string 0 octets ≡ ok octets
unfolding decode_character_string valid_utf8
decode_character_string-utf8 octets h = ap ok (valid_loop-valid 0 false octets h)

pub decode_character_string-Ensures :
    (charset : ℕ) (octets : List ℕ)
    → Ensures (λ s. Unit {0}) (decode_character_string charset octets)
unfolding decode_character_string
decode_character_string-Ensures charset octets =
    Ensures-if (charset == 0) (λ _. returns tt)
      λ _.
        Ensures-if (charset == 5) (λ _. returns tt)
          λ _.
            Ensures-if (charset == 4)
              (λ _. Ensures-if (length octets % 2 == 0) (λ _. returns tt) (λ _. fails))
              λ _.
                Ensures-if (charset == 3)
                  (λ _. Ensures-if (length octets % 4 == 0) (λ _. returns tt) (λ _. fails))
                  (λ _. fails)

-- "Aé€" as Latin-1 or UCS-2 data, and a surrogate pair.
latin1_run : decode_character_string 5 (0x41 ∷ 0xe9 ∷ []) ≡ ok (0x41 ∷ 0xc3 ∷ 0xa9 ∷ [])
unfolding decode_character_string
latin1_run = refl

ucs2_run :
    decode_character_string 4 (0xd8 ∷ 0x3d ∷ 0xde ∷ 0x00 ∷ 0xdc ∷ 0x00 ∷ [])
    ≡ ok (0xf0 ∷ 0x9f ∷ 0x98 ∷ 0x80 ∷ 0xef ∷ 0xbf ∷ 0xbd ∷ [])
unfolding decode_character_string
ucs2_run = refl

invalid_run :
    decode_character_string 0 (0x41 ∷ 0xff ∷ 0xfe ∷ 0x42 ∷ [])
    ≡ ok (0x41 ∷ 0xef ∷ 0xbf ∷ 0xbd ∷ 0x42 ∷ [])
unfolding decode_character_string
invalid_run = refl
