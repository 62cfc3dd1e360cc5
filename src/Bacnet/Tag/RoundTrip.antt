-- ===== src/Bacnet/Tag/RoundTrip.antt =====
-- Tag headers there and back: internal/bacnet/tag.go.
use bacnet_ip_rest_proxy.Prelude.{
  ℕ, ◌+◌, ◌*◌, ◌/◌, ◌<◌, bit_and, ◌≡◌, Bool, true, false, List, [], ◌∷◌, ◌++◌, ltb, leb, ◌==◌,
  if◌then◌else◌, ok, ◌>>=◌, arith, length, append_assoc, length-append, ap,
}
use bacnet_ip_rest_proxy.Prelude.Bits.{bit_and-0x07, bit_and-0x08, tag_octet, marker_octet}
use bacnet_ip_rest_proxy.Bacnet.Tag.{
  IsU32, TagInfo, tag_header, marker_tag, opening_tag, closing_tag, decode_tag_header,
  extended_number, extended_length, length_octets, opening_lvt, closing_lvt,
}

abbrev class_bit : Bool → ℕ
class_bit true = 1
class_bit false = 0

-- The header's first octet, as a number.
octet : ℕ → Bool → ℕ → ℕ
octet n c l = n * 16 + class_bit c * 8 + l

-- Reading from an octet with the nibble `n` and the low bits `l`.
decode_octet :
    (n : ℕ) (c : Bool) (l : ℕ) (rest : List ℕ)
    → n < 16
    → l < 8
    → decode_tag_header (octet n c l ∷ rest) ≡ (
        (if n == 15 then extended_number rest else ok (n, rest, 1)) >>= λ (number, tail, pos).
        (if l == 5 then extended_length tail pos else ok (l, pos)) >>= λ (lvt, header).
        ok (record { number = number; context = c; lvt = lvt; header = header }))
unfolding decode_tag_header octet
decode_octet n true l rest hn hl =
    let x : ℕ = n * 16 + class_bit true * 8 + l in
    let e : x / 16 ≡ n = omega arith in
    let a : bit_and x 0x07 ≡ l = omega (arith, bit_and-0x07 x) in
    let b : bit_and x 0x08 ≡ 8 = omega (arith, bit_and-0x08 x) in rw (e, a, b)
decode_octet n false l rest hn hl =
    let x : ℕ = n * 16 + class_bit false * 8 + l in
    let e : x / 16 ≡ n = omega arith in
    let a : bit_and x 0x07 ≡ l = omega (arith, bit_and-0x07 x) in
    let b : bit_and x 0x08 ≡ 0 = omega (arith, bit_and-0x08 x) in rw (e, a, b)

tag_header-octet :
    (n : ℕ) (c : Bool) (len : ℕ)
    → tag_header n c len
      ≡ octet (if ltb n 15 then n else 15) c (if leb len 4 then len else 5)
        ∷ ((if ltb n 15 then [] else n ∷ []) ++ length_octets len)
unfolding tag_header octet
tag_header-octet n true len =
    ground (arith, tag_octet n 1 len, tag_octet n 1 5, tag_octet 15 1 len, tag_octet 15 1 5)
tag_header-octet n false len =
    ground (arith, tag_octet n 0 len, tag_octet n 0 5, tag_octet 15 0 len, tag_octet 15 0 5)

extended_length-octets :
    (len pos : ℕ) (rest : List ℕ)
    → 4 < len
    → IsU32 len
    → extended_length (length_octets len ++ rest) pos ≡ ok (len, pos + length (length_octets len))
unfolding extended_length length_octets
extended_length-octets len pos rest h fits = ground arith

number_part-octets :
    (n : ℕ) (rest : List ℕ)
    → (if (if ltb n 15 then n else 15) == 15
        then extended_number ((if ltb n 15 then [] else n ∷ []) ++ rest)
        else ok (if ltb n 15 then n else 15, (if ltb n 15 then [] else n ∷ []) ++ rest, 1))
      ≡ ok (n, rest, 1 + length (if◌then◌else◌ {A = List ℕ} (ltb n 15) [] (n ∷ [])))
unfolding extended_number
number_part-octets n rest = ground arith

length_part-octets :
    (len pos : ℕ) (rest : List ℕ)
    → IsU32 len
    → (if (if leb len 4 then len else 5) == 5
        then extended_length (length_octets len ++ rest) pos
        else ok (if leb len 4 then len else 5, pos))
      ≡ ok (len, pos + length (length_octets len))
unfolding length_octets extended_length
length_part-octets len pos rest fits = ground (arith, extended_length-octets len pos rest)

-- The header that was read.
abbrev pub tag_info : ℕ → Bool → ℕ → ℕ → TagInfo
tag_info n c l h = record { number = n; context = c; lvt = l; header = h }

-- Every tag number and length reads back, with the octets that the header takes.
pub decode_tag_header-tag_header :
    (n : ℕ) (c : Bool) (len : ℕ) (rest : List ℕ)
    → IsU32 len
    → decode_tag_header (tag_header n c len ++ rest)
      ≡ ok (tag_info n c len (length (tag_header n c len)))
decode_tag_header-tag_header n c len rest fits =
    let number : List ℕ = if ltb n 15 then [] else n ∷ [] in
    rw
      (
        tag_header-octet n c len,
        append_assoc number (length_octets len) rest,
        decode_octet (if ltb n 15 then n else 15) c (if leb len 4 then len else 5)
            (number ++ (length_octets len ++ rest)) (ground arith) (ground arith),
        number_part-octets n (length_octets len ++ rest),
        length_part-octets len (1 + length number) rest fits,
        length-append number (length_octets len),
      )
      (ap (λ h. ok (tag_info n c len h)) (omega arith))

marker_tag-octet :
    (n l : ℕ)
    → l < 8
    → marker_tag n l
      ≡ octet (if ltb n 15 then n else 15) true l
        ∷ (if◌then◌else◌ {A = List ℕ} (ltb n 15) [] (n ∷ []))
unfolding marker_tag octet
marker_tag-octet n l h = ground (arith, marker_octet n l, marker_octet 15 l)

decode_tag_header-marker_tag :
    (n l : ℕ) (rest : List ℕ)
    → 5 < l
    → l < 8
    → decode_tag_header (marker_tag n l ++ rest) ≡ ok (tag_info n true l (length (marker_tag n l)))
decode_tag_header-marker_tag n l rest lo hi =
    rw
      (
        marker_tag-octet n l hi,
        decode_octet (if ltb n 15 then n else 15) true l _ (ground arith) hi,
        number_part-octets n rest,
      )
      (ground arith)

pub decode_tag_header-opening_tag :
    (n : ℕ) (rest : List ℕ)
    → decode_tag_header (opening_tag n ++ rest)
      ≡ ok (tag_info n true opening_lvt (length (opening_tag n)))
unfolding opening_tag
decode_tag_header-opening_tag n rest =
    decode_tag_header-marker_tag n _ rest (omega arith) (omega arith)

pub decode_tag_header-closing_tag :
    (n : ℕ) (rest : List ℕ)
    → decode_tag_header (closing_tag n ++ rest)
      ≡ ok (tag_info n true closing_lvt (length (closing_tag n)))
unfolding closing_tag
decode_tag_header-closing_tag n rest =
    decode_tag_header-marker_tag n _ rest (omega arith) (omega arith)

pub length-tag_header_pos : (n : ℕ) (c : Bool) (len : ℕ) → 0 < length (tag_header n c len)
unfolding tag_header
length-tag_header_pos n c len = omega arith

pub length-opening_tag_pos : (n : ℕ) → 0 < length (opening_tag n)
unfolding opening_tag
length-opening_tag_pos n = ground arith

pub length-closing_tag_pos : (n : ℕ) → 0 < length (closing_tag n)
unfolding closing_tag
length-closing_tag_pos n = ground arith
