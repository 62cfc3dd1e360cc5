-- ===== src/Bacnet/Value/RoundTrip.antt =====
-- Application-tagged values there and back: internal/bacnet/value.go.
use bacnet_ip_rest_proxy.Prelude.{
  slice_from, ℕ, ◌+◌, ◌/◌, ◌%◌, ◌^◌, ◌≤◌, ◌<◌, ◌≡◌, refl, sym, ap, Bool, true, false, List, [], ◌∷◌,
  ◌++◌, append_assoc, ◌==◌, if◌then◌else◌, ok, IsInt64, arith, length, length-append,
  slice_from-append, slice_to-append, le→ltb_false,
}
use bacnet_ip_rest_proxy.Bacnet.Tag.{
  IsU32, tag_header, decode_tag_header, put_uint32, uint32_of, tag_boolean,
}
use bacnet_ip_rest_proxy.Bacnet.Tag.RoundTrip.{tag_info, decode_tag_header-tag_header}
use bacnet_ip_rest_proxy.Bacnet.Primitive.{put_uint64, min_unsigned_bytes, min_signed_bytes}
use bacnet_ip_rest_proxy.Bacnet.Primitive.Integers.{
  decode_unsigned_data-min_unsigned_bytes, decode_signed_data-min_signed_bytes,
}
use bacnet_ip_rest_proxy.Bacnet.Primitive.Fields.{
  IsDate, IsTime, IsObjectIdentifier, decode_date_data-encode_date_data,
  decode_time_data-encode_time_data, decode_object_id_data-encode_object_id_data,
}
use bacnet_ip_rest_proxy.Bacnet.Primitive.Text.{valid_utf8, decode_character_string-utf8}
use bacnet_ip_rest_proxy.Bacnet.Primitive.BitString.RoundTrip.{
  decode_bit_string_data-encode_bit_string_data,
}
use bacnet_ip_rest_proxy.Bacnet.Value.{
  Primitive, null, boolean, unsigned, signed, real, double, octet_string, character_string,
  bit_string, enumerated, date, time, object_id, application_tag_for, tagged, context_value,
  tag_data, real_data, double_data, text_data, application_data, decode_application_value,
}

-- The values that a Go program can hold and that the wire format can carry.
abbrev pub IsPrimitive : Primitive → Type 0
IsPrimitive null = Unit {0}
IsPrimitive (boolean b) = Unit {0}
IsPrimitive (unsigned v) = v < 2 ^ 64
IsPrimitive (signed v) = IsInt64 v
IsPrimitive (real w) = w < 2 ^ 32
IsPrimitive (double w) = w < 2 ^ 64
IsPrimitive (octet_string s) = Unit {0}
IsPrimitive (character_string s) = valid_utf8 s ≡ true
IsPrimitive (bit_string b) = Unit {0}
IsPrimitive (enumerated v) = v < 2 ^ 32
IsPrimitive (date d) = IsDate d
IsPrimitive (time t) = IsTime t
IsPrimitive (object_id o) = IsObjectIdentifier o

-- The header in front of some data reads back with the data's length.
pub decode_tag_header-tagged :
    (n : ℕ) (c : Bool) (octets rest : List ℕ)
    → IsU32 (length octets)
    → decode_tag_header (tagged n c octets ++ rest)
      ≡ ok (tag_info n c (length octets) (length (tag_header n c (length octets))))
unfolding tagged
decode_tag_header-tagged n c octets rest h =
    let e : length octets % 2 ^ 32 ≡ length octets = omega arith in
    rw (e, append_assoc (tag_header n c (length octets)) octets rest)
      (decode_tag_header-tag_header n c (length octets) (octets ++ rest) h)

-- And the data is what stands behind it.
pub tag_data-tagged :
    (n : ℕ) (c : Bool) (octets rest : List ℕ)
    → IsU32 (length octets + length rest)
    → tag_data
        (tagged n c octets ++ rest)
        (tag_info n c (length octets) (length (tag_header n c (length octets))))
      ≡ ok octets
unfolding tagged tag_data
tag_data-tagged n c octets rest h =
    let e : length octets % 2 ^ 32 ≡ length octets = omega arith in
    let fits : length (octets ++ rest) % 2 ^ 32 ≡ length octets + length rest =
      omega (arith, length-append octets rest) in
    rw
      (
        e,
        append_assoc (tag_header n c (length octets)) octets rest,
        slice_from-append (tag_header n c (length octets)) (octets ++ rest),
        fits,
        le→ltb_false (length octets + length rest) (length octets) (omega arith),
      )
      (slice_to-append octets rest)

pub length-tagged :
    (n : ℕ) (c : Bool) (octets : List ℕ)
    → IsU32 (length octets)
    → length (tagged n c octets) ≡ length (tag_header n c (length octets)) + length octets
unfolding tagged
length-tagged n c octets h =
    let e : length octets % 2 ^ 32 ≡ length octets = omega arith in
    rw e (length-append (tag_header n c (length octets)) octets)

-- Reading data behind an application tag that is not the boolean's.
decode_application_value-tagged :
    (n : ℕ) (octets rest : List ℕ) (p : Primitive)
    → (n == tag_boolean) ≡ false
    → IsU32 (length octets + length rest)
    → application_data n octets ≡ ok p
    → decode_application_value (tagged n false octets ++ rest)
      ≡ ok (p, length (tagged n false octets))
unfolding decode_application_value
decode_application_value-tagged n octets rest p other h e =
    rw
      (
        decode_tag_header-tagged n false octets rest (omega arith),
        other,
        tag_data-tagged n false octets rest h,
        e,
      )
      (ap (λ k. ok (p, k)) (sym (length-tagged n false octets (omega arith))))

pub length-le-tagged :
    (n : ℕ) (c : Bool) (octets : List ℕ) → length octets ≤ length (tagged n c octets)
unfolding tagged
length-le-tagged n c octets =
    omega (arith, length-append (tag_header n c (length octets % 2 ^ 32)) octets)

abbrev ReadsBack : ℕ → List ℕ → Primitive → Type 0
ReadsBack n octets p =
    (rest : List ℕ)
    → IsU32 (length (tagged n false octets ++ rest))
    → decode_application_value (tagged n false octets ++ rest)
      ≡ ok (p, length (tagged n false octets))

reads_back :
    (n : ℕ) (octets : List ℕ) (p : Primitive)
    → (n == tag_boolean) ≡ false
    → application_data n octets ≡ ok p
    → ReadsBack n octets p
reads_back n octets p other e rest h =
    let fits : IsU32 (length octets + length rest) =
      omega (arith, length-append (tagged n false octets) rest, length-le-tagged n false octets) in
    decode_application_value-tagged n octets rest p other fits e

uint32_back :
    (w : ℕ)
    → w < 2 ^ 32
    → uint32_of (w / 2 ^ 24 % 256) (w / 2 ^ 16 % 256) (w / 256 % 256) (w % 256) ≡ w
uint32_back w h = omega arith

real_back : (w : ℕ) → w < 2 ^ 32 → application_data 4 (put_uint32 w) ≡ ok (real w)
unfolding application_data real_data
real_back w h = ap (λ v. ok (real v)) (uint32_back w h)

double_back : (w : ℕ) → w < 2 ^ 64 → application_data 5 (put_uint64 w) ≡ ok (double w)
unfolding application_data double_data
double_back w h = ap (λ v. ok (double v)) (omega arith)

text_back :
    (s : List ℕ) → valid_utf8 s ≡ true → application_data 7 (0 ∷ s) ≡ ok (character_string s)
unfolding application_data text_data
text_back s h = rw (decode_character_string-utf8 s h)

enumerated_back :
    (v : ℕ) → v < 2 ^ 32 → application_data 9 (min_unsigned_bytes v) ≡ ok (enumerated v)
unfolding application_data
enumerated_back v h =
    let e : v % 2 ^ 32 ≡ v = omega arith in
    rw (decode_unsigned_data-min_unsigned_bytes v (omega arith), e)

boolean_back :
    (b : Bool) (rest : List ℕ)
    → decode_application_value (tag_header tag_boolean false (if b then 1 else 0) ++ rest)
      ≡ ok (boolean b, length (tag_header tag_boolean false (if b then 1 else 0)))
unfolding decode_application_value
boolean_back true rest = rw (decode_tag_header-tag_header tag_boolean false 1 rest (omega arith))
boolean_back false rest = rw (decode_tag_header-tag_header tag_boolean false 0 rest (omega arith))

-- Every primitive value that the wire format can carry is read back from its encoding, in front of
-- any octets, with the number of octets that it takes.
pub decode_application_value-context_value :
    (p : Primitive) (rest : List ℕ)
    → IsPrimitive p
    → IsU32 (length (context_value false (application_tag_for p) p ++ rest))
    → decode_application_value (context_value false (application_tag_for p) p ++ rest)
      ≡ ok (p, length (context_value false (application_tag_for p) p))
unfolding context_value application_tag_for application_data
decode_application_value-context_value null rest v h = reads_back 0 [] null refl refl rest h
decode_application_value-context_value (boolean b) rest v h = boolean_back b rest
decode_application_value-context_value (unsigned n) rest v h =
    reads_back 2 (min_unsigned_bytes n) (unsigned n) refl
      (ap (λ m. ok (unsigned m)) (decode_unsigned_data-min_unsigned_bytes n v)) rest h
decode_application_value-context_value (signed n) rest v h =
    reads_back 3 (min_signed_bytes n) (signed n) refl
      (ap (λ m. ok (signed m)) (decode_signed_data-min_signed_bytes n v)) rest h
decode_application_value-context_value (real w) rest v h =
    reads_back 4 (put_uint32 w) (real w) refl (real_back w v) rest h
decode_application_value-context_value (double w) rest v h =
    reads_back 5 (put_uint64 w) (double w) refl (double_back w v) rest h
decode_application_value-context_value (octet_string s) rest v h =
    reads_back 6 s (octet_string s) refl refl rest h
decode_application_value-context_value (character_string s) rest v h =
    reads_back 7 (0 ∷ s) (character_string s) refl (text_back s v) rest h
decode_application_value-context_value (bit_string b) rest v h =
    reads_back 8 _ (bit_string b) refl (rw (decode_bit_string_data-encode_bit_string_data b)) rest h
decode_application_value-context_value (enumerated n) rest v h =
    reads_back 9 (min_unsigned_bytes n) (enumerated n) refl (enumerated_back n v) rest h
decode_application_value-context_value (date d) rest v h =
    reads_back 10 _ (date d) refl (rw (decode_date_data-encode_date_data d v)) rest h
decode_application_value-context_value (time t) rest v h =
    reads_back 11 _ (time t) refl (rw (decode_time_data-encode_time_data t v)) rest h
decode_application_value-context_value (object_id o) rest v h =
    reads_back 12 _ (object_id o) refl (rw (decode_object_id_data-encode_object_id_data o v)) rest h

pub length-tagged_pos : (n : ℕ) (c : Bool) (octets : List ℕ) → 0 < length (tagged n c octets)
unfolding tagged tag_header
length-tagged_pos n c octets = omega arith

pub length-context_value_pos : (c : Bool) (n : ℕ) (p : Primitive) → 0 < length (context_value c n p)
unfolding context_value tag_header
length-context_value_pos true n (boolean b) = omega arith
length-context_value_pos false n (boolean b) = omega arith
length-context_value_pos c n _ = omega arith

pub slice_from-tagged :
    (n : ℕ) (c : Bool) (octets rest : List ℕ)
    → IsU32 (length octets)
    → slice_from (length (tag_header n c (length octets))) (tagged n c octets ++ rest)
      ≡ ok (octets ++ rest)
unfolding tagged
slice_from-tagged n c octets rest h =
    let e : length octets % 2 ^ 32 ≡ length octets = omega arith in
    rw (e, append_assoc (tag_header n c (length octets)) octets rest)
      (slice_from-append (tag_header n c (length octets)) (octets ++ rest))
