-- ===== src/Bacnet/Services/Property/Target.antt =====
-- The object, property and array index at the front of a message: internal/bacnet/services.go.
use native.Mathlib.Nat.{le_trans, pow-le-pow_right}
use bacnet_ip_rest_proxy.Prelude.{
  true, ℕ, ◌^◌, ◌≤◌, ◌<◌, ◌≡◌, List, ◌++◌, append_assoc, Option, none, some, ok, arith,
  length-append, slice_from-append, slice_from-Ensures, Ensures, returns, Ensures-bind,
}
use bacnet_ip_rest_proxy.Bacnet.Tag.{IsU32}
use bacnet_ip_rest_proxy.Bacnet.Primitive.Fields.{IsObjectIdentifier}
use bacnet_ip_rest_proxy.Bacnet.Value.{context_value, object_id, enumerated}
use bacnet_ip_rest_proxy.Bacnet.Services.Context.{optional_unsigned, optional_bytes}
use bacnet_ip_rest_proxy.Bacnet.Services.Context.Laws.{
  Fits, Absent, decode_context_object_id-context_value, decode_context_enumerated-context_value,
  optional_unsigned-Absent, optional_unsigned-present,
}
use bacnet_ip_rest_proxy.Bacnet.Services.Context.Safe.{
  Leaves, decode_context_object_id-Ensures, decode_context_enumerated-Ensures,
  optional_unsigned-Ensures,
}
use bacnet_ip_rest_proxy.Bacnet.Services.Property.{PropertyTarget, encode_target, decode_target}

abbrev pub IsOptional : ℕ → Option ℕ → Type 0
IsOptional width none = Unit {0}
IsOptional width (some v) = v < 2 ^ width

pub record IsTarget (t : PropertyTarget) : Type 0 where
  pub object_fits : IsObjectIdentifier t.object
  pub property_fits : IsU32 t.property
  pub index_fits : IsOptional 32 t.array_index

pub Fits-append_right : (a b : List ℕ) → Fits (a ++ b) → Fits b
Fits-append_right a b h = omega (arith, length-append a b)

-- An optional field reads back where no tag of its number follows it.
pub optional_unsigned-optional_bytes :
    (width tag : ℕ) (o : Option ℕ) (rest : List ℕ)
    → width ≤ 32
    → IsOptional width o
    → Absent tag rest
    → Fits (optional_bytes tag o ++ rest)
    → optional_unsigned width tag (optional_bytes tag o ++ rest) ≡ ok (o, rest)
unfolding optional_bytes
optional_unsigned-optional_bytes width tag none rest w h absent fits =
    optional_unsigned-Absent width tag rest absent
optional_unsigned-optional_bytes width tag (some v) rest w h absent fits =
    optional_unsigned-present width tag v rest (u32 v h) h fits
  where
    u32 : (v : ℕ) → v < 2 ^ width → IsU32 v
    u32 v h = le_trans h (pow-le-pow_right {n = 2} (omega arith) w)

pub decode_target-encode_target :
    (t : PropertyTarget) (rest : List ℕ)
    → IsTarget t
    → Absent 2 rest
    → Fits (encode_target t ++ rest)
    → decode_target (encode_target t ++ rest) ≡ ok (t, rest)
unfolding decode_target encode_target
decode_target-encode_target t rest h absent fits =
    let a = context_value true 0 (object_id t.object) in
    let b = context_value true 1 (enumerated t.property) in
    let c = optional_bytes 2 t.array_index in
    let shape : (a ++ (b ++ c)) ++ rest ≡ a ++ (b ++ (c ++ rest)) = simp append_assoc in
    let fits1 : Fits (a ++ (b ++ (c ++ rest))) = rw shape at fits in
    let fits2 = Fits-append_right a (b ++ (c ++ rest)) fits1 in
    let fits3 = Fits-append_right b (c ++ rest) fits2 in
    rw (
      shape,
      decode_context_object_id-context_value 0 t.object (b ++ (c ++ rest)) h.object_fits fits1,
      slice_from-append a (b ++ (c ++ rest)),
      decode_context_enumerated-context_value 1 t.property (c ++ rest) h.property_fits fits2,
      slice_from-append b (c ++ rest),
      optional_unsigned-optional_bytes 32 2 t.array_index rest (omega arith) h.index_fits absent
          fits3,
    )

pub decode_target-Ensures : (buf : List ℕ) → Ensures (Leaves buf) (decode_target buf)
unfolding decode_target
decode_target-Ensures buf = Ensures-bind (decode_context_object_id-Ensures 0 buf) λ (oid, n) h.
    Ensures-bind (slice_from-Ensures n buf h.1) λ rest e.
      Ensures-bind (decode_context_enumerated-Ensures 1 rest) λ (prop, m) k.
        Ensures-bind (slice_from-Ensures m rest k.1) λ rest' e'.
          Ensures-bind (optional_unsigned-Ensures 32 2 rest') λ (idx, rest'') j.
            returns {a = (record { object = oid; property = prop; array_index = idx }, rest'')}
              (omega arith)
