-- ===== src/Bacnet/Services/Context/Laws.antt =====
-- Context-tagged primitives there and back: internal/bacnet/services.go.
use native.Mathlib.Nat.{mod-eq_of_lt}
use mathlib.Core.Path.{subst}
use bacnet_ip_rest_proxy.Prelude.{
  Option-cases, inl, inr, ℕ, ◌+◌, ◌%◌, ◌^◌, ◌<◌, ◌≡◌, true, false, List, [], ◌++◌, none, some, ◌==◌,
  ==_self, ne→==_false, ok, arith, length, length-append, slice_from-append,
}
use bacnet_ip_rest_proxy.Bacnet.Tag.{IsU32, TagInfo, tag_header, opening_tag, decode_tag_header}
use bacnet_ip_rest_proxy.Bacnet.Tag.RoundTrip.{tag_info, decode_tag_header-opening_tag}
use bacnet_ip_rest_proxy.Bacnet.Primitive.{
  ObjectIdentifier, min_unsigned_bytes, encode_object_id_data,
}
use bacnet_ip_rest_proxy.Bacnet.Primitive.Integers.{
  decode_unsigned_data-min_unsigned_bytes, length-min_unsigned_bytes_u32, min_unsigned_bytes_bounds,
}
use bacnet_ip_rest_proxy.Bacnet.Primitive.Fields.{
  IsObjectIdentifier, decode_object_id_data-encode_object_id_data, length-encode_object_id_data,
}
use bacnet_ip_rest_proxy.Bacnet.Value.{context_value, tagged, unsigned, enumerated, object_id}
use bacnet_ip_rest_proxy.Bacnet.Value.RoundTrip.{
  decode_tag_header-tagged, tag_data-tagged, length-tagged, length-le-tagged,
}
use bacnet_ip_rest_proxy.Bacnet.Value.Rounds.{IsPlainLength}
use bacnet_ip_rest_proxy.Bacnet.Services.Context.{
  peek_context_tag, plain_tag, decode_context_data, decode_context_unsigned,
  decode_context_enumerated, decode_context_object_id, optional_unsigned, optional_plain_unsigned,
}

-- The buffer's length fits 32 bits.
abbrev pub Fits : List ℕ → Type 0
Fits buf = IsU32 (length buf)

plain_tag-tagged : (want l h : ℕ) → IsPlainLength l → plain_tag want (tag_info want true l h) ≡ true
unfolding plain_tag
plain_tag-tagged want l h (a, b) = rw (==_self want, ne→==_false l 6 a, ne→==_false l 7 b)

pub decode_context_data-tagged :
    (want : ℕ) (octets rest : List ℕ)
    → IsPlainLength (length octets)
    → Fits (tagged want true octets ++ rest)
    → decode_context_data want (tagged want true octets ++ rest)
      ≡ ok (octets, length (tagged want true octets))
unfolding decode_context_data
decode_context_data-tagged want octets rest plain h =
    let fits : IsU32 (length octets + length rest) =
      omega
        (arith, length-append (tagged want true octets) rest, length-le-tagged want true octets) in
    rw (
      decode_tag_header-tagged want true octets rest (omega arith),
      plain_tag-tagged want (length octets) (length (tag_header want true (length octets))) plain,
      tag_data-tagged want true octets rest fits,
      length-tagged want true octets (omega arith),
    )

plain_u32 : (v : ℕ) → IsU32 v → IsPlainLength (length (min_unsigned_bytes v))
plain_u32 v h = (
  λ e. omega (arith, length-min_unsigned_bytes_u32 v h),
  λ e. omega (arith, length-min_unsigned_bytes_u32 v h),
)

pub decode_context_unsigned-context_value :
    (want v : ℕ) (rest : List ℕ)
    → IsU32 v
    → Fits (context_value true want (unsigned v) ++ rest)
    → decode_context_unsigned want (context_value true want (unsigned v) ++ rest)
      ≡ ok (v, length (context_value true want (unsigned v)))
unfolding decode_context_unsigned context_value
decode_context_unsigned-context_value want v rest h fits = rw (
  decode_context_data-tagged want (min_unsigned_bytes v) rest (plain_u32 v h) fits,
  decode_unsigned_data-min_unsigned_bytes v (omega arith),
)

pub decode_context_enumerated-context_value :
    (want v : ℕ) (rest : List ℕ)
    → IsU32 v
    → Fits (context_value true want (enumerated v) ++ rest)
    → decode_context_enumerated want (context_value true want (enumerated v) ++ rest)
      ≡ ok (v, length (context_value true want (enumerated v)))
unfolding decode_context_enumerated decode_context_unsigned context_value
decode_context_enumerated-context_value want v rest h fits =
    let e : v % 2 ^ 32 ≡ v = omega arith in
    rw (
      decode_context_data-tagged want (min_unsigned_bytes v) rest (plain_u32 v h) fits,
      decode_unsigned_data-min_unsigned_bytes v (omega arith),
      e,
    )

pub decode_context_object_id-context_value :
    (want : ℕ) (o : ObjectIdentifier) (rest : List ℕ)
    → IsObjectIdentifier o
    → Fits (context_value true want (object_id o) ++ rest)
    → decode_context_object_id want (context_value true want (object_id o) ++ rest)
      ≡ ok (o, length (context_value true want (object_id o)))
unfolding decode_context_object_id context_value
decode_context_object_id-context_value want o rest h fits =
    let size = length-encode_object_id_data o in
    rw (
      decode_context_data-tagged want (encode_object_id_data o) rest
          ((λ e. omega arith), (λ e. omega arith)) fits,
      decode_object_id_data-encode_object_id_data o h,
    )

-- What comes next is no tag with the number `want`.
abbrev pub Absent : ℕ → List ℕ → Type 0
Absent want rest = (th : TagInfo) → peek_context_tag rest ≡ some th → (th.number == want) ≡ false

pub Absent-nil : (want : ℕ) → Absent want []
unfolding peek_context_tag decode_tag_header
Absent-nil want th e = cc

pub peek_context_tag-opening_tag :
    (t : ℕ) (rest : List ℕ)
    → peek_context_tag (opening_tag t ++ rest) ≡ some (tag_info t true 6 (length (opening_tag t)))
unfolding peek_context_tag
peek_context_tag-opening_tag t rest = rw (decode_tag_header-opening_tag t rest, peek_context_tag)

pub Absent-opening_tag :
    (want t : ℕ) (rest : List ℕ) → (t == want) ≡ false → Absent want (opening_tag t ++ rest)
Absent-opening_tag want t rest h th e =
    let p : tag_info t true 6 (length (opening_tag t)) ≡ th =
      cc (peek_context_tag-opening_tag t rest) in
    subst (λ x. (x.number == want) ≡ false) p h

pub optional_unsigned-Absent :
    (width want : ℕ) (rest : List ℕ)
    → Absent want rest
    → optional_unsigned width want rest ≡ ok (none, rest)
unfolding optional_unsigned
optional_unsigned-Absent width want rest absent = elim (Option-cases (peek_context_tag rest)) [
  | inl e ↦ rw (e, optional_unsigned)
  | inr (th, e) ↦ rw (e, optional_unsigned, absent th e)
]

pub peek_context_tag-unsigned :
    (t v : ℕ) (rest : List ℕ)
    → (h : ℕ) × (peek_context_tag (context_value true t (unsigned v) ++ rest)
        ≡ some (tag_info t true (length (min_unsigned_bytes v)) h))
unfolding peek_context_tag context_value
peek_context_tag-unsigned t v rest =
    let octets = min_unsigned_bytes v in
    let small : IsU32 (length octets) = omega (arith, min_unsigned_bytes_bounds v) in
    (
      length (tag_header t true (length octets)),
      rw (decode_tag_header-tagged t true octets rest small, peek_context_tag),
    )

pub optional_unsigned-present :
    (width want v : ℕ) (rest : List ℕ)
    → IsU32 v
    → v < 2 ^ width
    → Fits (context_value true want (unsigned v) ++ rest)
    → optional_unsigned width want (context_value true want (unsigned v) ++ rest)
      ≡ ok (some v, rest)
unfolding optional_unsigned
optional_unsigned-present width want v rest h k fits =
    let (header, e) = peek_context_tag-unsigned want v rest in
    rw (
      e,
      optional_unsigned,
      ==_self want,
      decode_context_unsigned-context_value want v rest h fits,
      slice_from-append (context_value true want (unsigned v)) rest,
      mod-eq_of_lt k,
    )

-- The same three facts where markers are let through.
abbrev pub AbsentPlain : ℕ → List ℕ → Type 0
AbsentPlain want rest = (th : TagInfo) → peek_context_tag rest ≡ some th → plain_tag want th ≡ false

pub optional_plain_unsigned-AbsentPlain :
    (width want : ℕ) (rest : List ℕ)
    → AbsentPlain want rest
    → optional_plain_unsigned width want rest ≡ ok (none, rest)
unfolding optional_plain_unsigned
optional_plain_unsigned-AbsentPlain width want rest absent =
    elim (Option-cases (peek_context_tag rest)) [
      | inl e ↦ rw (e, optional_plain_unsigned)
      | inr (th, e) ↦ rw (e, optional_plain_unsigned, absent th e)
    ]

pub optional_plain_unsigned-present :
    (width want v : ℕ) (rest : List ℕ)
    → IsU32 v
    → v < 2 ^ width
    → Fits (context_value true want (unsigned v) ++ rest)
    → optional_plain_unsigned width want (context_value true want (unsigned v) ++ rest)
      ≡ ok (some v, rest)
unfolding optional_plain_unsigned
optional_plain_unsigned-present width want v rest h k fits =
    let (header, e) = peek_context_tag-unsigned want v rest in
    rw (
      e,
      optional_plain_unsigned,
      plain_tag-tagged want (length (min_unsigned_bytes v)) header (plain_u32 v h),
      decode_context_unsigned-context_value want v rest h fits,
      slice_from-append (context_value true want (unsigned v)) rest,
      mod-eq_of_lt k,
    )
