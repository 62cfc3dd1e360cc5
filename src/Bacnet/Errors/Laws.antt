-- ===== src/Bacnet/Errors/Laws.antt =====
-- The encoding and decoding of error sequences, internal/bacnet/errors.go.
use bacnet_ip_rest_proxy.Prelude.{
  ℕ, ◌+◌, ◌%◌, ◌^◌, ◌≤◌, ◌<◌, ◌≡◌, refl, true, false, ◌&&◌, List, ◌++◌, append_assoc, leb, le→leb,
  Outcome, ok, arith, length, length-append, slice_from-append, slice_to-append, Ensures, returns,
  fails, Ensures-bind, Ensures-guard, slice_from-Ensures, slice_to-Ensures, leb→le, &&-eq-true,
}
use bacnet_ip_rest_proxy.Bacnet.Tag.{IsU32, TagInfo, tag_header, decode_tag_header}
use bacnet_ip_rest_proxy.Bacnet.Tag.Safe.{HeaderIn, decode_tag_header-Ensures}
use bacnet_ip_rest_proxy.Bacnet.Primitive.{min_unsigned_bytes}
use bacnet_ip_rest_proxy.Bacnet.Primitive.Integers.{
  decode_unsigned_data-min_unsigned_bytes, min_unsigned_bytes_bounds,
}
use bacnet_ip_rest_proxy.Bacnet.Value.{tagged, value_bytes, primitive, enumerated}
use bacnet_ip_rest_proxy.Bacnet.Value.RoundTrip.{
  decode_tag_header-tagged, length-tagged, slice_from-tagged,
}
use bacnet_ip_rest_proxy.Bacnet.Value.Nested.{value_bytes-pos}
use bacnet_ip_rest_proxy.Bacnet.Errors.{
  BacnetError, error_sequence, error_tag, error_element, decode_error_sequence,
}

pub record IsBacnetError (e : BacnetError) : Type 0 where
  pub class_fits : IsU32 e.class
  pub code_fits : IsU32 e.error_code

error_element-enumerated :
    (i v : ℕ) (rest : List ℕ)
    → IsU32 v
    → error_element i (value_bytes (primitive (enumerated v)) ++ rest)
      ≡ ok (v, length (value_bytes (primitive (enumerated v))))
unfolding error_element error_tag value_bytes
error_element-enumerated i v rest h =
    let octets = min_unsigned_bytes v in
    let small : IsU32 (length octets) = omega (arith, min_unsigned_bytes_bounds v) in
    let size = length-tagged 9 false octets small in
    let inside : leb (length (tag_header 9 false (length octets)) + length octets)
          (length (tagged 9 false octets ++ rest))
        ≡ true =
      le→leb _ _ (omega (arith, length-append (tagged 9 false octets) rest)) in
    let back : v % 2 ^ 32 ≡ v = omega arith in
    rw (
      decode_tag_header-tagged 9 false octets rest small,
      error_element,
      inside,
      slice_from-tagged 9 false octets rest small,
      slice_to-append octets rest,
      decode_unsigned_data-min_unsigned_bytes v (omega arith),
      back,
      size,
    )

-- A BACnet error reads back, whatever follows it.
pub decode_error_sequence-error_sequence :
    (e : BacnetError) (rest : List ℕ)
    → IsBacnetError e
    → decode_error_sequence (error_sequence e ++ rest) ≡ ok (e, length (error_sequence e))
unfolding decode_error_sequence error_sequence
decode_error_sequence-error_sequence e rest h =
    let a = value_bytes (primitive (enumerated e.class)) in
    let b = value_bytes (primitive (enumerated e.error_code)) in
    rw (
      append_assoc a b rest,
      error_element-enumerated 0 e.class (b ++ rest) h.class_fits,
      slice_from-append a (b ++ rest),
      error_element-enumerated 1 e.error_code rest h.code_fits,
      length-append a b,
    )

pub length-error_sequence_pos : (e : BacnetError) → 0 < length (error_sequence e)
unfolding error_sequence
length-error_sequence_pos e = omega (
  arith,
  length-append (value_bytes (primitive (enumerated e.class)))
      (value_bytes (primitive (enumerated e.error_code))),
  value_bytes-pos (primitive (enumerated e.class)),
)

error_element-Ensures :
    (i : ℕ) (buf : List ℕ) → Ensures (λ r. r.1 ≤ length buf) (error_element i buf)
unfolding error_element
error_element-Ensures i buf = element refl (decode_tag_header-Ensures buf)
  where
    element :
        {r : Outcome TagInfo}
        → decode_tag_header buf ≡ r
        → Ensures (HeaderIn buf) r
        → Ensures (λ r. r.1 ≤ length buf) (error_element i buf)
    element e (returns {a = th} h) =
        rw (e, error_element)
          (Ensures-guard (error_tag i th && leb (th.header + th.lvt) (length buf)) _ λ c.
            let fits = leb→le _ _ (&&-eq-true (error_tag i th) _ c).1 in
            Ensures-bind (slice_from-Ensures th.header buf h.1) λ rest k.
              Ensures-bind (slice_to-Ensures th.lvt rest (omega arith)) λ octets m. returns fits)
    element e fails = rw (e, error_element) fails

-- On any octets the decoder fails or returns, within the buffer.
pub decode_error_sequence-Ensures :
    (buf : List ℕ) → Ensures (λ r. r.1 ≤ length buf) (decode_error_sequence buf)
unfolding decode_error_sequence
decode_error_sequence-Ensures buf = Ensures-bind (error_element-Ensures 0 buf) λ (class, n) h.
    Ensures-bind (slice_from-Ensures n buf h) λ rest e.
      Ensures-bind (error_element-Ensures 1 rest) λ (code, m) k.
        returns {a = (record { class = class; error_code = code }, n + m)} (omega arith)
