-- ===== src/Bacnet/Tag.antt =====
-- Tag headers, internal/bacnet/tag.go. A byte slice is a list of numbers; an `append` function is
-- given by the bytes that it appends.
pub mod RoundTrip
pub mod Safe
use bacnet_ip_rest_proxy.Prelude.{
  ℕ, ◌+◌, ◌*◌, ◌/◌, ◌%◌, ◌^◌, ◌<◌, bit_and, bit_or, Bool, true, false, not, ◌&&◌, List, [], ◌∷◌,
  ◌++◌, ltb, leb, ◌==◌, if◌then◌else◌, Outcome, ok, err, truncated, ◌>>=◌,
}

abbrev pub IsByte : ℕ → Type 0
IsByte b = b < 256

abbrev pub IsU32 : ℕ → Type 0
IsU32 v = v < 2 ^ 32

abbrev pub tag_null : ℕ
tag_null = 0

abbrev pub tag_boolean : ℕ
tag_boolean = 1

abbrev pub tag_unsigned_int : ℕ
tag_unsigned_int = 2

abbrev pub tag_signed_int : ℕ
tag_signed_int = 3

abbrev pub tag_real : ℕ
tag_real = 4

abbrev pub tag_double : ℕ
tag_double = 5

abbrev pub tag_octet_string : ℕ
tag_octet_string = 6

abbrev pub tag_character_string : ℕ
tag_character_string = 7

abbrev pub tag_bit_string : ℕ
tag_bit_string = 8

abbrev pub tag_enumerated : ℕ
tag_enumerated = 9

abbrev pub tag_date : ℕ
tag_date = 10

abbrev pub tag_time : ℕ
tag_time = 11

abbrev pub tag_object_id : ℕ
tag_object_id = 12

abbrev pub opening_lvt : ℕ
opening_lvt = 6

abbrev pub closing_lvt : ℕ
closing_lvt = 7

-- `binary.BigEndian.PutUint16` and `PutUint32`.
abbrev pub put_uint16 : ℕ → List ℕ
put_uint16 v = (v / 256 % 256) ∷ (v % 256) ∷ []

abbrev pub put_uint32 : ℕ → List ℕ
put_uint32 v = (v / 2 ^ 24 % 256) ∷ (v / 2 ^ 16 % 256) ∷ (v / 256 % 256) ∷ (v % 256) ∷ []

-- The octets after the first one that an extended length takes.
length_octets : ℕ → List ℕ
length_octets length =
    if leb length 4
    then []
    else if leb length 253
    then (length % 256) ∷ []
    else if leb length 65535
    then 254 ∷ put_uint16 (length % 65536)
    else 255 ∷ put_uint32 length

-- What `appendTagHeader` appends.
unfoldable pub tag_header : ℕ → Bool → ℕ → List ℕ
unfolding length_octets
tag_header tag_number context length =
    let class : ℕ = if context then 0x08 else 0 in
    let first = bit_or class (if ltb tag_number 15 then tag_number * 16 % 256 else 0xf0) in
    bit_or first (if leb length 4 then length % 256 else 0x05)
    ∷ ((if ltb tag_number 15 then [] else tag_number ∷ []) ++ length_octets length)

-- What `appendMarkerTag` appends.
unfoldable pub marker_tag : ℕ → ℕ → List ℕ
marker_tag tag_number lvt =
    if ltb tag_number 15
    then bit_or (bit_or (tag_number * 16 % 256) 0x08) (lvt % 256) ∷ []
    else bit_or (bit_or 0xf0 0x08) (lvt % 256) ∷ tag_number ∷ []

unfoldable pub opening_tag : ℕ → List ℕ
unfolding marker_tag
opening_tag tag_number = marker_tag tag_number opening_lvt

unfoldable pub closing_tag : ℕ → List ℕ
unfolding marker_tag
closing_tag tag_number = marker_tag tag_number closing_lvt

pub record TagInfo : Type 0 where
  pub number : ℕ
  pub context : Bool
  pub lvt : ℕ
  pub header : ℕ

abbrev pub is_opening : TagInfo → Bool
is_opening t = t.context && t.lvt == opening_lvt

abbrev pub is_closing : TagInfo → Bool
is_closing t = t.context && t.lvt == closing_lvt

-- The extended tag number, the octets after it and the octets read so far.
extended_number : List ℕ → Outcome (ℕ × List ℕ × ℕ)
extended_number [] = err truncated
extended_number (n ∷ rest) = ok (n, rest, 2)

two_octets : List ℕ → ℕ → Outcome (ℕ × ℕ)
two_octets (a ∷ b ∷ rest) pos = ok (a * 256 + b, pos + 2)
two_octets _ pos = err truncated

-- `binary.BigEndian.Uint32`
abbrev pub uint32_of : ℕ → ℕ → ℕ → ℕ → ℕ
uint32_of a b c d = a * 2 ^ 24 + b * 2 ^ 16 + c * 256 + d

four_octets : List ℕ → ℕ → Outcome (ℕ × ℕ)
four_octets (a ∷ b ∷ c ∷ d ∷ rest) pos = ok (uint32_of a b c d, pos + 4)
four_octets _ pos = err truncated

-- The extended length and the octets read so far.
extended_length : List ℕ → ℕ → Outcome (ℕ × ℕ)
unfolding two_octets four_octets
extended_length [] pos = err truncated
extended_length (len_byte ∷ rest) pos =
    if ltb len_byte 254
    then ok (len_byte, pos + 1)
    else if len_byte == 254
    then two_octets rest (pos + 1)
    else four_octets rest (pos + 1)

-- `decodeTagHeader`
unfoldable pub decode_tag_header : List ℕ → Outcome TagInfo
unfolding extended_number extended_length
decode_tag_header [] = err truncated
decode_tag_header (first ∷ rest) = do
  let lvt = bit_and first 0x07
  (number, tail, pos) ←
      if first / 16 == 0x0f then extended_number rest else ok (first / 16, rest, 1)
  (lvt', header) ← if lvt == 5 then extended_length tail pos else ok (lvt, pos)
  ok (record {
    number = number;
    context = not (bit_and first 0x08 == 0);
    lvt = lvt';
    header = header;
  })
