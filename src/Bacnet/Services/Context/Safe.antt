-- ===== src/Bacnet/Services/Context/Safe.antt =====
-- Context-tagged primitives read from any octets: internal/bacnet/services.go.
use bacnet_ip_rest_proxy.Prelude.{
  Option-cases, inl, inr, ℕ, ◌%◌, ◌^◌, ◌≤◌, List, none, some, ◌==◌, ok, ◌>>=◌, arith, length,
  slice_from, slice_from-Ensures, Ensures, returns, Ensures-if, Ensures-guard, Ensures-bind,
}
use bacnet_ip_rest_proxy.Bacnet.Tag.Safe.{decode_tag_header-Ensures}
use bacnet_ip_rest_proxy.Bacnet.Value.Safe.{ReadIn, tag_data-Ensures, object_id_data-Ensures}
use bacnet_ip_rest_proxy.Bacnet.Services.Context.{
  peek_context_tag, plain_tag, decode_context_data, decode_context_unsigned,
  decode_context_enumerated, decode_context_object_id, optional_unsigned, optional_plain_unsigned,
}

-- Reading stays inside the buffer, on any input.
decode_context_data-Ensures :
    (want : ℕ) (buf : List ℕ) → Ensures (λ r. ReadIn buf r.1) (decode_context_data want buf)
unfolding decode_context_data
decode_context_data-Ensures want buf = Ensures-bind (decode_tag_header-Ensures buf) λ th h.
    Ensures-guard (plain_tag want th) _
      λ _. Ensures-bind (tag_data-Ensures buf th h) λ octets k. returns k.0

pub decode_context_unsigned-Ensures :
    (want : ℕ) (buf : List ℕ) → Ensures (λ r. ReadIn buf r.1) (decode_context_unsigned want buf)
unfolding decode_context_unsigned
decode_context_unsigned-Ensures want buf =
    Ensures-bind (decode_context_data-Ensures want buf) λ (octets, n) h. returns h

pub decode_context_enumerated-Ensures :
    (want : ℕ) (buf : List ℕ) → Ensures (λ r. ReadIn buf r.1) (decode_context_enumerated want buf)
unfolding decode_context_enumerated
decode_context_enumerated-Ensures want buf =
    Ensures-bind (decode_context_unsigned-Ensures want buf) λ (v, n) h. returns h

pub decode_context_object_id-Ensures :
    (want : ℕ) (buf : List ℕ) → Ensures (λ r. ReadIn buf r.1) (decode_context_object_id want buf)
unfolding decode_context_object_id
decode_context_object_id-Ensures want buf =
    Ensures-bind (decode_context_data-Ensures want buf)
      λ (octets, n) h. Ensures-bind (object_id_data-Ensures octets) λ o _. returns h

-- What is left is no longer than the buffer.
abbrev pub Leaves {ℓ} : {A : Type ℓ} → List ℕ → A × List ℕ → Type 0
Leaves buf r = length r.1 ≤ length buf

present-Ensures :
    (width want : ℕ) (buf : List ℕ)
    → Ensures (Leaves buf) (
        decode_context_unsigned want buf >>= λ (v, n).
        slice_from n buf >>= λ rest. ok (some (v % 2 ^ width), rest))
present-Ensures width want buf = Ensures-bind (decode_context_unsigned-Ensures want buf) λ (v, n) h.
    Ensures-bind (slice_from-Ensures n buf h.1)
      λ rest e. returns {a = (some (v % 2 ^ width), rest)} (omega arith)

pub optional_unsigned-Ensures :
    (width want : ℕ) (buf : List ℕ) → Ensures (Leaves buf) (optional_unsigned width want buf)
unfolding optional_unsigned
optional_unsigned-Ensures width want buf = elim (Option-cases (peek_context_tag buf)) [
  | inl e ↦ rw (e, optional_unsigned) (returns {a = (none, buf)} (omega arith))
  | inr (th, e) ↦
      rw (e, optional_unsigned)
        (Ensures-if (th.number == want) (λ _. present-Ensures width want buf)
          (λ _. returns {a = (none, buf)} (omega arith)))
]

pub optional_plain_unsigned-Ensures :
    (width want : ℕ) (buf : List ℕ) → Ensures (Leaves buf) (optional_plain_unsigned width want buf)
unfolding optional_plain_unsigned
optional_plain_unsigned-Ensures width want buf = elim (Option-cases (peek_context_tag buf)) [
  | inl e ↦ rw (e, optional_plain_unsigned) (returns {a = (none, buf)} (omega arith))
  | inr (th, e) ↦
      rw (e, optional_plain_unsigned)
        (Ensures-if (plain_tag want th) (λ _. present-Ensures width want buf)
          (λ _. returns {a = (none, buf)} (omega arith)))
]
