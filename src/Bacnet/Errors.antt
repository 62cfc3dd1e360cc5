-- ===== src/Bacnet/Errors.antt =====
-- BACnet errors, internal/bacnet/errors.go.
pub mod Laws
use bacnet_ip_rest_proxy.Prelude.{
  ℕ, ◌+◌, ◌%◌, ◌^◌, Bool, true, false, not, ◌&&◌, ◌||◌, List, ◌++◌, leb, ◌==◌, Outcome, ok, err,
  malformed, panic, out_of_fuel, ◌>>=◌, ◌>>◌, guard, length, slice_from, slice_to, if◌then◌else◌,
}
use bacnet_ip_rest_proxy.Bacnet.Tag.{
  TagInfo, decode_tag_header, is_opening, is_closing, tag_enumerated,
}
use bacnet_ip_rest_proxy.Bacnet.Primitive.{decode_unsigned_data}
use bacnet_ip_rest_proxy.Bacnet.Value.{value_bytes, primitive, enumerated}

pub record BacnetError : Type 0 where
  pub class : ℕ
  pub error_code : ℕ

-- What `appendErrorSequence` appends.
unfoldable pub error_sequence : BacnetError → List ℕ
error_sequence e =
    value_bytes (primitive (enumerated e.class))
    ++ value_bytes (primitive (enumerated e.error_code))

-- The test `ok` of `decodeErrorSequence` for the element `i`.
error_tag : ℕ → TagInfo → Bool
error_tag i th =
    not (is_opening th)
    && (not (is_closing th)
        && ((not th.context && th.number == tag_enumerated) || (th.context && th.number == i)))

-- One round of the loop: the element `i` and the octets read. A header that cannot be read is the
-- same error as a missing element.
error_element : ℕ → List ℕ → Outcome (ℕ × ℕ)
unfolding error_tag
error_element i buf = elim (decode_tag_header buf) [
  | ok th ↦ do
    guard (error_tag i th && leb (th.header + th.lvt) (length buf)) malformed
    rest ← slice_from th.header buf
    octets ← slice_to th.lvt rest
    ok (decode_unsigned_data octets % 2 ^ 32, th.header + th.lvt)
  | err e ↦ err malformed
  | panic ↦ panic
  | out_of_fuel ↦ out_of_fuel
]

-- `decodeErrorSequence`
unfoldable pub decode_error_sequence : List ℕ → Outcome (BacnetError × ℕ)
unfolding error_element
decode_error_sequence buf = do
  (class, n) ← error_element 0 buf
  rest ← slice_from n buf
  (error_code, m) ← error_element 1 rest
  ok (record { class = class; error_code = error_code }, n + m)
