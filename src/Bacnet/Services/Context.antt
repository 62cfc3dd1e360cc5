-- ===== src/Bacnet/Services/Context.antt =====
-- The generic decoders of context-tagged primitives of services.go.
pub mod Laws
pub mod Safe
use bacnet_ip_rest_proxy.Prelude.{
  ℕ, ◌+◌, ◌%◌, ◌^◌, Bool, true, false, not, ◌&&◌, List, [], ◌∷◌, ◌++◌, Option, none, some, ltb,
  ◌==◌, if◌then◌else◌, Outcome, ok, err, panic, out_of_fuel, truncated, wrong_tag, ◌>>=◌, ◌>>◌,
  guard, length, slice_from, slice_to,
}
use bacnet_ip_rest_proxy.Bacnet.Tag.{TagInfo, decode_tag_header, is_opening, is_closing}
use bacnet_ip_rest_proxy.Bacnet.Primitive.{
  ObjectIdentifier, decode_unsigned_data, decode_object_id_data,
}
use bacnet_ip_rest_proxy.Bacnet.Value.{context_value, unsigned, tag_data}

-- `peekContextTag`: the header of a context tag at the front, if there is one.
unfoldable pub peek_context_tag : List ℕ → Option TagInfo
peek_context_tag buf = elim (decode_tag_header buf) [
  | ok th ↦ if th.context then some th else none
  | _ ↦ none
]

-- The test of `decodeContextData` on the header.
unfoldable pub plain_tag : ℕ → TagInfo → Bool
plain_tag want th =
    th.context && (th.number == want && (not (is_opening th) && not (is_closing th)))

-- `decodeContextData`: the data and the octets read.
unfoldable pub decode_context_data : ℕ → List ℕ → Outcome (List ℕ × ℕ)
unfolding plain_tag
decode_context_data want buf = do
  th ← decode_tag_header buf
  guard (plain_tag want th) (wrong_tag want)
  octets ← tag_data buf th
  ok (octets, th.header + th.lvt)

unfoldable pub decode_context_unsigned : ℕ → List ℕ → Outcome (ℕ × ℕ)
decode_context_unsigned want buf = do
  (octets, n) ← decode_context_data want buf
  ok (decode_unsigned_data octets, n)

unfoldable pub decode_context_enumerated : ℕ → List ℕ → Outcome (ℕ × ℕ)
decode_context_enumerated want buf = do
  (v, n) ← decode_context_unsigned want buf
  ok (v % 2 ^ 32, n)

unfoldable pub decode_context_object_id : ℕ → List ℕ → Outcome (ObjectIdentifier × ℕ)
decode_context_object_id want buf = do
  (octets, n) ← decode_context_data want buf
  o ← decode_object_id_data octets
  ok (o, n)

-- An unsigned of `2 ^ width` values with the tag `want`, if a tag of that number comes next, and
-- what follows it: the pattern of array indexes and priorities.
unfoldable pub optional_unsigned : ℕ → ℕ → List ℕ → Outcome (Option ℕ × List ℕ)
optional_unsigned width want buf =
    let present = decode_context_unsigned want buf >>= λ (v, n).
    slice_from n buf >>= λ rest. ok (some (v % 2 ^ width), rest) in
    elim (peek_context_tag buf) [
      | none ↦ ok (none, buf)
      | some th ↦ if th.number == want then present else ok (none, buf)
    ]

-- The same where an opening or a closing tag of that number is let through.
unfoldable pub optional_plain_unsigned : ℕ → ℕ → List ℕ → Outcome (Option ℕ × List ℕ)
unfolding plain_tag
optional_plain_unsigned width want buf =
    let present = decode_context_unsigned want buf >>= λ (v, n).
    slice_from n buf >>= λ rest. ok (some (v % 2 ^ width), rest) in
    elim (peek_context_tag buf) [
      | none ↦ ok (none, buf)
      | some th ↦ if plain_tag want th then present else ok (none, buf)
    ]

-- What the encoders append for an optional unsigned.
unfoldable pub optional_bytes : ℕ → Option ℕ → List ℕ
optional_bytes tag none = []
optional_bytes tag (some v) = context_value true tag (unsigned v)
