-- ===== src/Api/Server/Laws.antt =====
-- Whom authorizeVariable lets through, internal/api/middleware.go.
use bacnet_ip_rest_proxy.Prelude.{
  ◌≡◌, ◌≢◌, refl, sym, inl, inr, true, ℕ, Option, none, some, Bool-cases, Option-cases,
}
use bacnet_ip_rest_proxy.Prelude.Texts.{String, is_text}
use bacnet_ip_rest_proxy.Bacnet.Primitive.{ObjectIdentifier}
use bacnet_ip_rest_proxy.Authz.{External, Operation, Request, uses_condition, variable_type}
use bacnet_ip_rest_proxy.Cache.{DeviceVars, by_id, device_object}
use bacnet_ip_rest_proxy.Cache.Gives.{Loaded-cases}
use bacnet_ip_rest_proxy.Api.{
  Answer, granted, readwrite_required, authentication_required, access_denied, device_error,
  allowed, denied, check,
}
use bacnet_ip_rest_proxy.Api.Laws.{check-granted}
use bacnet_ip_rest_proxy.Api.Server.{
  Server, Session, passed, turned_away, unanswered, verdict, cached, authorize_in, authorize_object,
}

passed_eq : {a b : String} → passed a ≡ passed b → a ≡ b
passed_eq h = cc

turned_eq : {s : ℕ} {b : String} → turned_away s ≡ passed b → ⊥
turned_eq h = cc

unanswered_eq : {b : String} → unanswered ≡ passed b → ⊥
unanswered_eq h = cc

verdict-passed :
    (a : Answer) (name n : String) → verdict a name ≡ passed n → (a ≡ granted) × (n ≡ name)
unfolding verdict
verdict-passed granted name n h = (refl, sym (passed_eq h))
verdict-passed readwrite_required name n h = absurd (turned_eq h)
verdict-passed authentication_required name n h = absurd (turned_eq h)
verdict-passed access_denied name n h = absurd (turned_eq h)
verdict-passed device_error name n h = absurd (turned_eq h)

denied-ne-granted : (bearer : String) → denied bearer ≢ granted
unfolding denied
denied-ne-granted bearer = elim (Bool-cases (is_text bearer "")) [
  | inl e ↦ rw (e, denied) (cc)
  | inr e ↦ rw (e, denied) (cc)
]

module _ (x : External) {W : Type 0} (h : Server W) (bearer : String) (req : Request x) where
  authorize_in-passed :
      (o : Option ObjectIdentifier) (op : Operation) (dv : DeviceVars) (name : String)
      → authorize_in x h bearer req o op dv ≡ passed name
      → allowed x h.rules req name op ≡ true
  unfolding authorize_in
  authorize_in-passed o op dv name e =
      let id : ObjectIdentifier = elim o [ some i ↦ i | none ↦ device_object dv.instance_number ] in
      elim (Option-cases (by_id dv.vars id)) [
        | inl absent ↦
            let (g, _) = verdict-passed (denied bearer) "" name (rw (absent, authorize_in) at e) in
            absurd (denied-ne-granted bearer g)
        | inr (v, found) ↦
            let named = h.as_text v.object_name in
            let (g, same) =
              verdict-passed (check x h.rules bearer req named op) named name
                (rw (found, authorize_in) at e) in
            rw same ((check-granted x h.rules bearer req named op).0 g)
      ]

  -- A request is let through only where the rules allow its operation on a variable: with the name
  -- that it passes on.
  pub authorize_object-passed :
      (o : Option ObjectIdentifier) (op : Operation) (now : ℕ) (s : Session W) (name : String)
      → (authorize_object x h bearer req o op now s).0 ≡ passed name
      → allowed x h.rules req name op ≡ true
  unfolding authorize_object
  authorize_object-passed o op now s name e =
      elim (Bool-cases (uses_condition h.rules variable_type)) [
        | inr blind ↦
            let (g, same) =
              verdict-passed (check x h.rules bearer req "" op) "" name
                (rw (blind, authorize_object) at e) in
            rw same ((check-granted x h.rules bearer req "" op).0 g)
        | inl looks ↦ elim (Loaded-cases (cached x h req.device now s).0) [
          | inl (dv, l) ↦ authorize_in-passed o op dv name (rw (looks, l, authorize_object) at e)
          | inr (inl (f, l)) ↦ absurd (turned_eq (rw (looks, l, authorize_object) at e))
          | inr (inr l) ↦ absurd (unanswered_eq (rw (looks, l, authorize_object) at e))
        ]
      ]
