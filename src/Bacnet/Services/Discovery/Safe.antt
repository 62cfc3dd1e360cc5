-- ===== src/Bacnet/Services/Discovery/Safe.antt =====
-- The I-Am decoder on any octets: internal/bacnet/services.go.
use bacnet_ip_rest_proxy.Prelude.{ℕ, List, Ensures, returns, fails, Ensures-bind}
use bacnet_ip_rest_proxy.Bacnet.Value.{
  Primitive, Values, nil, cons, primitive, context_primitive, constructed, null, boolean, unsigned,
  signed, real, double, octet_string, character_string, bit_string, enumerated, date, time,
  object_id,
}
use bacnet_ip_rest_proxy.Bacnet.Value.Application.{decode_application_values-Ensures}
use bacnet_ip_rest_proxy.Bacnet.Services.Discovery.{i_am_of, decode_i_am}

abbrev Anything : {A : Type 0} → A → Type 0
Anything a = Unit {0}

by_kind-Ensures : (p : Primitive) (vs : Values) → Ensures Anything (i_am_of (cons (primitive p) vs))
unfolding i_am_of
by_kind-Ensures (object_id o) nil = fails
by_kind-Ensures (object_id o) (cons a nil) = fails
by_kind-Ensures (object_id o) (cons a (cons b nil)) = fails
by_kind-Ensures (object_id o) (cons a (cons b (cons c nil))) = returns tt
by_kind-Ensures (object_id o) (cons a (cons b (cons c (cons d vs)))) = fails
by_kind-Ensures null vs = fails
by_kind-Ensures (boolean b) vs = fails
by_kind-Ensures (unsigned n) vs = fails
by_kind-Ensures (signed z) vs = fails
by_kind-Ensures (real f) vs = fails
by_kind-Ensures (double f) vs = fails
by_kind-Ensures (octet_string s) vs = fails
by_kind-Ensures (character_string s) vs = fails
by_kind-Ensures (bit_string b) vs = fails
by_kind-Ensures (enumerated n) vs = fails
by_kind-Ensures (date d) vs = fails
by_kind-Ensures (time t) vs = fails

i_am_of-Ensures : (vs : Values) → Ensures Anything (i_am_of vs)
unfolding i_am_of
i_am_of-Ensures nil = fails
i_am_of-Ensures (cons (context_primitive t octets) vs) = fails
i_am_of-Ensures (cons (constructed t items) vs) = fails
i_am_of-Ensures (cons (primitive p) vs) = by_kind-Ensures p vs

-- Decoding an I-Am ends, without a slice out of bounds, on any octets.
pub decode_i_am-Ensures : (buf : List ℕ) → Ensures Anything (decode_i_am buf)
unfolding decode_i_am
decode_i_am-Ensures buf =
    Ensures-bind (decode_application_values-Ensures buf) λ (vs, n) _. i_am_of-Ensures vs
