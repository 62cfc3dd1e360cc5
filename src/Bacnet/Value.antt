-- ===== src/Bacnet/Value.antt =====
-- BACnet values, internal/bacnet/value.go: their encoding and decoding. A `Value` of the source is
-- a struct with a kind; here each kind is a constructor with the fields that the kind uses.
pub mod RoundTrip
pub mod Rounds
pub mod Nested
pub mod Safe
pub mod Markers
pub mod Application
use bacnet_ip_rest_proxy.Prelude.{
  ℕ, zero, suc, ◌+◌, ◌*◌, ◌%◌, ◌^◌, Bool, true, false, not, List, [], ◌∷◌, ◌++◌, ltb, leb, ◌==◌,
  if◌then◌else◌, Outcome, ok, err, out_of_fuel, truncated, malformed, unsupported, wrong_tag,
  too_deep, ◌>>=◌, ◌>>◌, guard, ℤ, length, slice_from, slice_to,
}
use bacnet_ip_rest_proxy.Bacnet.Tag.{
  TagInfo, tag_header, opening_tag, closing_tag, decode_tag_header, is_opening, is_closing,
  tag_null, tag_boolean, tag_unsigned_int, tag_signed_int, tag_real, tag_double, tag_octet_string,
  tag_character_string, tag_bit_string, tag_enumerated, tag_date, tag_time, tag_object_id,
  put_uint32, uint32_of,
}
use bacnet_ip_rest_proxy.Bacnet.Primitive.{
  Date, Time, ObjectIdentifier, put_uint64, min_unsigned_bytes, min_signed_bytes,
  decode_unsigned_data, decode_signed_data, encode_date_data, decode_date_data, encode_time_data,
  decode_time_data, encode_object_id_data, decode_object_id_data,
}
use bacnet_ip_rest_proxy.Bacnet.Primitive.BitString.{encode_bit_string_data, decode_bit_string_data}
use bacnet_ip_rest_proxy.Bacnet.Primitive.Text.{decode_character_string}

-- The application-tagged kinds. `real` and `double` hold the IEEE bits (`math.Float32bits`), text
-- and octets are lists of bytes.
pub data Primitive : Type 0 where
  null : Primitive
  boolean : Bool → Primitive
  unsigned : ℕ → Primitive
  signed : ℤ → Primitive
  real : ℕ → Primitive
  double : ℕ → Primitive
  octet_string : List ℕ → Primitive
  character_string : List ℕ → Primitive
  bit_string : List Bool → Primitive
  enumerated : ℕ → Primitive
  date : Date → Primitive
  time : Time → Primitive
  object_id : ObjectIdentifier → Primitive

-- `Values` is the source's `[]Value`.
mutual
  pub data Value : Type 0 where
    primitive : Primitive → Value
    context_primitive : ℕ → List ℕ → Value
    constructed : ℕ → Values → Value

  pub data Values : Type 0 where
    nil : Values
    cons : Value → Values → Values

unfoldable pub application_tag_for : Primitive → ℕ
application_tag_for null = tag_null
application_tag_for (boolean b) = tag_boolean
application_tag_for (unsigned v) = tag_unsigned_int
application_tag_for (signed v) = tag_signed_int
application_tag_for (real w) = tag_real
application_tag_for (double w) = tag_double
application_tag_for (octet_string s) = tag_octet_string
application_tag_for (character_string s) = tag_character_string
application_tag_for (bit_string b) = tag_bit_string
application_tag_for (enumerated v) = tag_enumerated
application_tag_for (date d) = tag_date
application_tag_for (time t) = tag_time
application_tag_for (object_id o) = tag_object_id

-- A tag header with the length of the data, and the data.
unfoldable pub tagged : ℕ → Bool → List ℕ → List ℕ
tagged tag_number context octets = tag_header tag_number context (length octets % 2 ^ 32) ++ octets

-- What `AppendContextValue` appends. The argument's type leaves out the context-tagged kinds, for
-- which the source panics and which no caller passes. An application-tagged boolean keeps its
-- value in the header.
unfoldable pub context_value : Bool → ℕ → Primitive → List ℕ
unfolding tagged
context_value context tag null = tagged tag context []
context_value true tag (boolean b) = tagged tag true ((if b then 1 else 0) ∷ [])
context_value false tag (boolean b) = tag_header tag false (if b then 1 else 0)
context_value context tag (unsigned v) = tagged tag context (min_unsigned_bytes v)
context_value context tag (signed v) = tagged tag context (min_signed_bytes v)
context_value context tag (real w) = tagged tag context (put_uint32 w)
context_value context tag (double w) = tagged tag context (put_uint64 w)
context_value context tag (octet_string s) = tagged tag context s
context_value context tag (character_string s) = tagged tag context (0 ∷ s)
context_value context tag (bit_string b) = tagged tag context (encode_bit_string_data b)
context_value context tag (enumerated v) = tagged tag context (min_unsigned_bytes v)
context_value context tag (date d) = tagged tag context (encode_date_data d)
context_value context tag (time t) = tagged tag context (encode_time_data t)
context_value context tag (object_id o) = tagged tag context (encode_object_id_data o)

-- What `AppendValue` appends, for a value and for the values of a slice in turn.
unfoldable mutual
  unfolding context_value application_tag_for

  pub value_bytes : Value → List ℕ
  value_bytes (primitive p) = context_value false (application_tag_for p) p
  value_bytes (context_primitive tag octets) = tagged tag true octets
  value_bytes (constructed tag items) = opening_tag tag ++ (values_bytes items ++ closing_tag tag)

  pub values_bytes : Values → List ℕ
  values_bytes nil = []
  values_bytes (cons v vs) = value_bytes v ++ values_bytes vs

-- The data behind a header: `uint32(len(buf)-header) < LVT` is an error, then
-- `buf[header:header+LVT]`.
unfoldable pub tag_data : List ℕ → TagInfo → Outcome (List ℕ)
tag_data buf th = do
  rest ← slice_from th.header buf
  guard (not (ltb (length rest % 2 ^ 32) th.lvt)) truncated
  slice_to th.lvt rest

real_data : List ℕ → Outcome Primitive
real_data (a ∷ b ∷ c ∷ d ∷ []) = ok (real (uint32_of a b c d))
real_data _ = err malformed

double_data : List ℕ → Outcome Primitive
double_data (a ∷ b ∷ c ∷ d ∷ e ∷ f ∷ g ∷ h ∷ []) =
    ok (double (uint32_of a b c d * 2 ^ 32 + uint32_of e f g h))
double_data _ = err malformed

text_data : List ℕ → Outcome Primitive
text_data [] = err malformed
text_data (charset ∷ rest) = do s ← decode_character_string charset rest; ok (character_string s)

-- The `switch th.Number` of `decodeApplicationValue`.
application_data : ℕ → List ℕ → Outcome Primitive
unfolding real_data double_data text_data
application_data number octets =
    if number == tag_null
    then ok null
    else if number == tag_unsigned_int
    then ok (unsigned (decode_unsigned_data octets))
    else if number == tag_signed_int
    then ok (signed (decode_signed_data octets))
    else if number == tag_real
    then real_data octets
    else if number == tag_double
    then double_data octets
    else if number == tag_octet_string
    then ok (octet_string octets)
    else if number == tag_character_string
    then text_data octets
    else if number == tag_bit_string
    then (decode_bit_string_data octets >>= λ b. ok (bit_string b))
    else if number == tag_enumerated
    then ok (enumerated (decode_unsigned_data octets % 2 ^ 32))
    else if number == tag_date
    then (decode_date_data octets >>= λ d. ok (date d))
    else if number == tag_time
    then (decode_time_data octets >>= λ t. ok (time t))
    else if number == tag_object_id
    then (decode_object_id_data octets >>= λ o. ok (object_id o))
    else err unsupported

-- `decodeApplicationValue`: the value and the octets read.
unfoldable pub decode_application_value : List ℕ → Outcome (Primitive × ℕ)
unfolding application_data tag_data
decode_application_value buf = do
  th ← decode_tag_header buf
  guard (not th.context) (wrong_tag th.number)
  if th.number == tag_boolean
      then ok (boolean (not (th.lvt == 0)), th.header)
      else (tag_data buf th >>= λ octets.
          application_data th.number octets >>= λ p. ok (p, th.header + th.lvt))

-- `expectOpening` and `expectClosing` of services.go.
unfoldable pub expect_opening : ℕ → List ℕ → Outcome ℕ
expect_opening want buf = do
  th ← decode_tag_header buf
  if is_opening th
      then (if th.number == want then ok th.header else err (wrong_tag want))
      else err (wrong_tag want)

unfoldable pub expect_closing : ℕ → List ℕ → Outcome ℕ
expect_closing want buf = do
  th ← decode_tag_header buf
  if is_closing th
      then (if th.number == want then ok th.header else err (wrong_tag want))
      else err (wrong_tag want)

-- The loop of `decodeApplicationValues`, with a round of fuel for each value.
application_values_loop : ℕ → List ℕ → Outcome (Values × ℕ)
application_values_loop zero buf = out_of_fuel
application_values_loop (suc fuel) [] = ok (nil, 0)
application_values_loop (suc fuel) (b ∷ bs) = do
  th ← decode_tag_header (b ∷ bs)
  let more = decode_application_value (b ∷ bs) >>= λ (p, n). slice_from n (b ∷ bs) >>= λ rest.
      application_values_loop fuel rest >>= λ (vs, m). ok (cons (primitive p) vs, n + m)
  if th.context then ok (nil, 0) else more

unfoldable pub decode_application_values : List ℕ → Outcome (Values × ℕ)
unfolding application_values_loop
decode_application_values buf = application_values_loop (suc (length buf)) buf

abbrev pub max_nesting : ℕ
max_nesting = 16

-- `values = append(values, v); pos += n`, and the rest of the loop.
pub then_more : (List ℕ → Outcome (Values × ℕ)) → List ℕ → Value → ℕ → Outcome (Values × ℕ)
then_more loop buf v n = do rest ← slice_from n buf; (vs, m) ← loop rest; ok (cons v vs, n + m)

-- The case of an opening tag: the items, then the closing tag with the same number.
pub nested_value : (List ℕ → Outcome (Values × ℕ)) → List ℕ → TagInfo → Outcome (Value × ℕ)
nested_value items_at buf th = do
  inner ← slice_from th.header buf
  (items, n) ← items_at inner
  after ← slice_from n inner
  c ← expect_closing th.number after
  ok (constructed th.number items, th.header + n + c)

-- One round of the loop of `decodeNestedValues`. `buf[pos:]` is handed on instead of `pos`.
pub nested_round : (ℕ → List ℕ → Outcome (Values × ℕ)) → ℕ → List ℕ → Outcome (Values × ℕ)
unfolding then_more nested_value
nested_round recur depth buf = do
  th ← decode_tag_header buf
  let application =
      decode_application_value buf >>= λ (p, n). then_more (recur depth) buf (primitive p) n
  let nested = nested_value (recur (depth + 1)) buf th >>= λ (v, n). then_more (recur depth) buf v n
  let raw = tag_data buf th >>= λ octets.
      then_more (recur depth) buf (context_primitive th.number octets) (th.header + th.lvt)
  if not th.context
      then application
      else if is_closing th
      then ok (nil, 0)
      else if is_opening th
      then (if leb max_nesting depth then err too_deep else nested)
      else raw

-- `decodeNestedValues`: the values and the octets read. A round of fuel is used for each value and
-- each level.
pub decode_nested_values : ℕ → ℕ → List ℕ → Outcome (Values × ℕ)
unfolding nested_round
decode_nested_values zero depth buf = out_of_fuel
decode_nested_values (suc fuel) depth [] = ok (nil, 0)
decode_nested_values (suc fuel) depth (b ∷ bs) =
    nested_round (decode_nested_values fuel) depth (b ∷ bs)

-- `decodeValues`. Each value takes an octet, so the fuel is enough.
unfoldable pub decode_values : List ℕ → Outcome (Values × ℕ)
unfolding decode_nested_values
decode_values buf = decode_nested_values (suc (length buf)) 0 buf
