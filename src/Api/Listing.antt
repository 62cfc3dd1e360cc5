-- ===== src/Api/Listing.antt =====
-- The handlers of internal/api/handlers.go that list a device's variables and summarize an object or
-- the device. What they reply is rendered by internal/api/dto.go; of a map built from results, the
-- last entry with a name counts.
pub mod Laws
use bacnet_ip_rest_proxy.Prelude.{
  ℕ, Bool, true, false, not, ◌&&◌, ◌||◌, List, [], ◌∷◌, Option, none, some, is_present, ◌==◌,
  if◌then◌else◌,
}
use bacnet_ip_rest_proxy.Prelude.Texts.{String}
use bacnet_ip_rest_proxy.Prelude.Decimal.{Bytes}
use bacnet_ip_rest_proxy.Bacnet.Primitive.{ObjectIdentifier}
use bacnet_ip_rest_proxy.Bacnet.Value.{Values}
use bacnet_ip_rest_proxy.Bacnet.Errors.{BacnetError}
use bacnet_ip_rest_proxy.Bacnet.Services.Multiple.{
  PropertyReference, ReadAccessSpec, ReadAccessResult, PropertyResult, read_values, read_error,
}
use bacnet_ip_rest_proxy.Authz.{
  External, Request, read_property_multiple, uses_condition, variable_type,
}
use bacnet_ip_rest_proxy.Cache.{
  Variable, DeviceVars, Loaded, loaded, load_failed, endless, Fetched, fetched, fault, fetched_of,
  property_failure, device_object,
}
use bacnet_ip_rest_proxy.Api.{Access, denied, enumeration_error, variable_access, visible_variables}
use bacnet_ip_rest_proxy.Api.Server.{
  Server, Session, resolve_device, bacnet_status, answer_status, parse_object_ref, passed,
  turned_away, unanswered, cached, authorize_object,
}
use bacnet_ip_rest_proxy.Api.Handlers.{is_none}

pub data Summary : Type 0 where
  variables_summary : List (Variable × Access) → Summary
  object_summary : ObjectIdentifier → List (ℕ × Values) → Access → Summary
  device_summary : ℕ → List (ℕ × Values) → Access → Summary
  failed_summary : ℕ → Summary
  no_summary : Summary

-- The properties that were read.
unfoldable pub properties_read : List PropertyResult → List (ℕ × Values)
properties_read [] = []
properties_read (pr ∷ prs) = elim pr.outcome [
  | read_values values ↦ (pr.reference.property, values) ∷ properties_read prs
  | read_error e ↦ properties_read prs
]

-- `firstErr`: the last error among those of present-value and object-name.
unfoldable pub object_error : List PropertyResult → Option BacnetError → Option BacnetError
object_error [] found = found
object_error (pr ∷ prs) found = elim pr.outcome [
  | read_values values ↦ object_error prs found
  | read_error e ↦
      object_error prs
        (if (pr.reference.property == 85) || (pr.reference.property == 77) then some e else found)
]

abbrev of_property : ℕ → PropertyReference
of_property prop = record { property = prop; array_index = none }

module _ (x : External) {W : Type 0} (h : Server W) (bearer : String) (req : Request x) where
  unfoldable pub list_variables : DeviceVars → Summary
  unfolding denied answer_status visible_variables
  list_variables dv =
      elim (visible_variables x h.rules (λ v. h.as_text v.object_name) req dv.vars) [
        | [] ↦ failed_summary (answer_status (denied bearer) 0)
        | v ∷ vs ↦ variables_summary (v ∷ vs)
      ]

  -- `handleListObjects`
  unfoldable pub list_objects : ℕ → Session W → Summary × Session W
  unfolding list_variables cached enumeration_error answer_status bacnet_status denied is_none
      variable_access
  list_objects now s =
      let looks = uses_condition h.rules variable_type in
      elim (not looks && is_none (variable_access x h.rules req "")) [
        | true ↦ (failed_summary (answer_status (denied bearer) 0), s)
        | false ↦
            let (r, s') = cached x h req.device now s in
            elim r [
              | loaded dv ↦ (list_variables dv, s')
              | endless ↦ (no_summary, s')
              | load_failed e ↦ (
                failed_summary (
                    if looks
                    then answer_status (enumeration_error x h.rules bearer req) (bacnet_status e)
                    else bacnet_status e),
                s',
              )
            ]
      ]

  -- ReadPropertyMultiple of an object's properties.
  unfoldable pub read_properties :
      ObjectIdentifier
      → List PropertyReference
      → Session W
      → Fetched (List ReadAccessResult) × Session W
  unfolding fetched_of resolve_device
  read_properties o refs s =
      let d = h.client (resolve_device h.devices req.device) in
      let spec : ReadAccessSpec = record { object = o; properties = refs } in
      let (r, w) = d.read_property_multiple (spec ∷ []) s.world in
      (fetched_of r, record s { world = w })

  -- What `handleGetObject` makes of the results.
  unfoldable pub summarize_object : ObjectIdentifier → String → List ReadAccessResult → Summary
  unfolding properties_read object_error bacnet_status
  summarize_object o name (res ∷ []) =
      let found = properties_read res.results in
      let whole = object_summary o found (variable_access x h.rules req name) in
      elim (object_error res.results none) [
        | none ↦ whole
        | some e ↦ elim found [
          | [] ↦ failed_summary (bacnet_status (property_failure e))
          | p ∷ ps ↦ whole
        ]
      ]
  summarize_object o name results = failed_summary 502

  -- `handleGetObject`
  unfoldable pub get_object : Bytes → Bytes → ℕ → Session W → Summary × Session W
  unfolding parse_object_ref authorize_object read_properties summarize_object bacnet_status
  get_object type_text instance_text now s = elim (parse_object_ref type_text instance_text) [
    | none ↦ (failed_summary 400, s)
    | some o ↦
        let (a, s') = authorize_object x h bearer req (some o) read_property_multiple now s in
        elim a [
          | turned_away status ↦ (failed_summary status, s')
          | unanswered ↦ (no_summary, s')
          | passed name ↦
              let refs =
                of_property 77
                ∷ of_property 85
                ∷ of_property 28
                ∷ of_property 117
                ∷ of_property 111
                ∷ [] in
              let (r, t) = read_properties o refs s' in
              (
                elim r [
                  | fetched results ↦ summarize_object o name results
                  | fault e ↦ failed_summary (bacnet_status e)
                ],
                t,
              )
        ]
  ]

  unfoldable pub summarize_device : ℕ → String → List ReadAccessResult → Summary
  unfolding properties_read
  summarize_device number name (res ∷ []) =
      device_summary number (properties_read res.results) (variable_access x h.rules req name)
  summarize_device number name results =
      device_summary number [] (variable_access x h.rules req name)

  -- `handleGetDevice`
  unfoldable pub get_device : ℕ → Session W → Summary × Session W
  unfolding authorize_object cached read_properties summarize_device bacnet_status device_object
  get_device now s =
      let (a, s') = authorize_object x h bearer req none read_property_multiple now s in
      elim a [
        | turned_away status ↦ (failed_summary status, s')
        | unanswered ↦ (no_summary, s')
        | passed name ↦
            let (r, t) = cached x h req.device now s' in
            elim r [
              | load_failed e ↦ (failed_summary (bacnet_status e), t)
              | endless ↦ (no_summary, t)
              | loaded dv ↦
                  let refs = of_property 77 ∷ of_property 121 ∷ of_property 70 ∷ [] in
                  let (results, u) = read_properties (device_object dv.instance_number) refs t in
                  (
                    elim results [
                      | fetched rs ↦ summarize_device dv.instance_number name rs
                      | fault e ↦ failed_summary (bacnet_status e)
                    ],
                    u,
                  )
            ]
      ]
