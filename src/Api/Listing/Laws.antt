-- ===== src/Api/Listing/Laws.antt =====
-- What the listing of a device's variables shows, internal/api/handlers.go.
use mathlib.Core.List.{cons-ne-nil}
use bacnet_ip_rest_proxy.Prelude.{
  ◌≡◌, ◌≢◌, ◌⊎◌, refl, sym, inl, inr, not, ◌&&◌, ℕ, List, [], ◌∷◌, All, Bool-cases, List-cases,
}
use bacnet_ip_rest_proxy.Prelude.Texts.{String}
use bacnet_ip_rest_proxy.Authz.{External, Request, uses_condition, variable_type}
use bacnet_ip_rest_proxy.Cache.{Variable, DeviceVars}
use bacnet_ip_rest_proxy.Cache.Gives.{Loaded-cases}
use bacnet_ip_rest_proxy.Api.{
  Access, access_none, access_read_only, access_read_write, variable_access, visible_loop,
  visible_variables,
}
use bacnet_ip_rest_proxy.Api.Laws.{visible_variables-each}
use bacnet_ip_rest_proxy.Api.Server.{Server, Session, cached}
use bacnet_ip_rest_proxy.Api.Handlers.{is_none}
use bacnet_ip_rest_proxy.Api.Listing.{
  variables_summary, failed_summary, no_summary, list_variables, list_objects,
}

listed_eq :
    {vs ws : List (Variable × Access)} → variables_summary vs ≡ variables_summary ws → vs ≡ ws
listed_eq h = cc

failed_ne :
    {status : ℕ} {ws : List (Variable × Access)} → failed_summary status ≡ variables_summary ws → ⊥
failed_ne h = cc

nothing_ne : {ws : List (Variable × Access)} → no_summary ≡ variables_summary ws → ⊥
nothing_ne h = cc

Access-cases : (a : Access) → (a ≡ access_none) ⊎ (a ≡ access_read_only) ⊎ (a ≡ access_read_write)
Access-cases access_none = inl refl
Access-cases access_read_only = inr (inl refl)
Access-cases access_read_write = inr (inr refl)

read_only-ne-none : access_read_only ≢ access_none
read_only-ne-none = cc

read_write-ne-none : access_read_write ≢ access_none
read_write-ne-none = cc

module _ (x : External) {W : Type 0} (h : Server W) (bearer : String) (req : Request x) where
  -- A list of variables with the rights that the caller has on them, none of them no right.
  abbrev pub Listed : List (Variable × Access) → Type 0
  Listed =
      All
        λ e. (e.1 ≡ variable_access x h.rules req (h.as_text e.0.object_name)) × (e.1 ≢ access_none)

  visible_loop-Listed :
      (vs : List Variable)
      → Listed (
          visible_loop x h.rules
            (λ v. h.as_text v.object_name)
            (λ v. variable_access x h.rules req (h.as_text v.object_name))
            vs)
  unfolding visible_loop
  visible_loop-Listed [] = tt
  visible_loop-Listed (v ∷ vs) =
      let a = variable_access x h.rules req (h.as_text v.object_name) in
      elim (Access-cases a) [
        | inl e ↦ rw (e, visible_loop) (visible_loop-Listed vs)
        | inr (inl e) ↦ rw (e, visible_loop) ((sym e, read_only-ne-none), visible_loop-Listed vs)
        | inr (inr e) ↦ rw (e, visible_loop) ((sym e, read_write-ne-none), visible_loop-Listed vs)
      ]

  visible_variables-Listed :
      (vs : List Variable)
      → Listed (visible_variables x h.rules (λ v. h.as_text v.object_name) req vs)
  visible_variables-Listed vs =
      rw (visible_variables-each x h.rules (λ v. h.as_text v.object_name) req vs)
        (visible_loop-Listed vs)

  list_variables-Listed :
      (dv : DeviceVars) (vs : List (Variable × Access))
      → list_variables x h bearer req dv ≡ variables_summary vs
      → (vs ≢ []) × Listed vs
  unfolding list_variables
  list_variables-Listed dv vs e =
      let visible = visible_variables x h.rules (λ v. h.as_text v.object_name) req dv.vars in
      elim (List-cases visible) [
        | inl nothing ↦ absurd (failed_ne (rw (nothing, list_variables) at e))
        | inr (w, ws, some_visible) ↦
            let shows = visible_variables-Listed dv.vars in
            let same = listed_eq (rw (some_visible, list_variables) at e) in
            rw⁻¹ same (cons-ne-nil w ws, rw some_visible at shows)
      ]

  -- A list of a device's variables that is served is not empty, and gives for each variable the
  -- access that the rules give the caller under its name, which is not none.
  pub list_objects-Listed :
      (now : ℕ) (s : Session W) (vs : List (Variable × Access))
      → (list_objects x h bearer req now s).0 ≡ variables_summary vs
      → (vs ≢ []) × Listed vs
  unfolding list_objects
  list_objects-Listed now s vs e =
      let early =
        not (uses_condition h.rules variable_type) && is_none (variable_access x h.rules req "") in
      elim (Bool-cases early) [
        | inl away ↦ absurd (failed_ne (rw (away, list_objects) at e))
        | inr goes_on ↦ elim (Loaded-cases (cached x h req.device now s).0) [
          | inl (dv, l) ↦ list_variables-Listed dv vs (rw (goes_on, l, list_objects) at e)
          | inr (inl (f, l)) ↦ absurd (failed_ne (rw (goes_on, l, list_objects) at e))
          | inr (inr l) ↦ absurd (nothing_ne (rw (goes_on, l, list_objects) at e))
        ]
      ]
