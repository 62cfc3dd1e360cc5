-- ===== src/Api/Handlers.antt =====
-- The handlers of internal/api/handlers.go that read and write a device. What they reply is
-- rendered by internal/api/dto.go.
pub mod Laws
use bacnet_ip_rest_proxy.Prelude.{
  ℕ, suc, ◌-◌, Bool, true, false, not, ◌&&◌, List, [], ◌∷◌, length, Option, none, some, is_present,
  ltb, leb, ◌==◌, if◌then◌else◌, get_elem?,
}
use bacnet_ip_rest_proxy.Prelude.Texts.{String}
use bacnet_ip_rest_proxy.Prelude.Decimal.{Bytes, parse_uint32}
use bacnet_ip_rest_proxy.Bacnet.Primitive.{ObjectIdentifier}
use bacnet_ip_rest_proxy.Bacnet.Value.{Value, Values, primitive, object_id, unsigned}
use bacnet_ip_rest_proxy.Bacnet.Errors.{BacnetError}
use bacnet_ip_rest_proxy.Bacnet.Objects.{parse_property}
use bacnet_ip_rest_proxy.Bacnet.Services.Multiple.{
  PropertyReference, ReadAccessSpec, ReadAccessResult, PropertyResult, read_values, read_error,
}
use bacnet_ip_rest_proxy.Authz.{
  External, Request, read_property, write_property, read_property_multiple, uses_condition,
  variable_type,
}
use bacnet_ip_rest_proxy.Cache.{
  Variable, DeviceVars, Loader, Loaded, loaded, load_failed, endless, Fetched, fetched, fault,
  fetched_of, property_failure, by_id, list_of, object_device, prop_object_list, device_object,
}
use bacnet_ip_rest_proxy.Cache.ObjectList.{read_object_list}
use bacnet_ip_rest_proxy.Api.{
  Access, access_none, access_read_only, access_read_write, device_error, denied, enumeration_error,
  variable_access, visible_variables,
}
use bacnet_ip_rest_proxy.Api.Json.Write.{Json, value_for_write}
use bacnet_ip_rest_proxy.Api.Server.{
  Server, Session, resolve_device, bacnet_status, answer_status, parse_object_ref, passed,
  turned_away, unanswered, cached, authorize_object,
}

-- The URL parameters of a request, its index query ([] without one), and its body, if it is the
-- JSON of a `writeRequest`.
pub record WriteRequest : Type 0 where
  pub written : Json
  pub priority : Option ℕ

pub record PropertyPath : Type 0 where
  pub type_text : Bytes
  pub instance_text : Bytes
  pub property_text : Bytes
  pub index_text : Bytes

pub data Reply : Type 0 where
  property_reply : List Value → Access → Reply
  objects_reply : List (Variable × Access) → Reply
  written_reply : Reply
  error_reply : ℕ → Reply
  no_reply : Reply

-- The index of a request: nothing for a malformed one.
unfoldable pub parse_index : Bytes → Option (Option ℕ)
unfolding parse_uint32
parse_index [] = some none
parse_index (c ∷ s) = elim (parse_uint32 (c ∷ s)) [ some i ↦ some (some i) | none ↦ none ]

unfoldable pub is_none : Access → Bool
is_none access_none = true
is_none a = false

-- The `switch` of `serveFilteredObjectList`: nothing for an index out of range.
unfoldable pub select_index : Option ℕ → List Value → Option (List Value)
select_index none visible = some visible
select_index (some i) visible =
    if i == 0
    then some (primitive (unsigned (length visible)) ∷ [])
    else elim (get_elem? visible (i - 1)) [ some v ↦ some (v ∷ []) | none ↦ none ]

-- The object of a value that is an object identifier.
unfoldable pub object_of : Value → Option ObjectIdentifier
object_of (primitive (object_id o)) = some o
object_of v = none

module _ (x : External) {W : Type 0} (h : Server W) (bearer : String) (req : Request x) where
  abbrev pub access_to : String → Access
  access_to = variable_access x h.rules req

  -- Whether an element of the object-list is shown.
  unfoldable pub is_shown : DeviceVars → Value → Bool
  unfolding is_none by_id object_of
  is_shown dv v = elim (object_of v) [
    | none ↦ false
    | some o ↦ elim (by_id dv.vars o) [
      | some u ↦ not (is_none (access_to (h.as_text u.object_name)))
      | none ↦ false
    ]
  ]

  unfoldable pub shown : DeviceVars → List Value → List Value
  unfolding is_shown
  shown dv [] = []
  shown dv (v ∷ vs) = let rest = shown dv vs in if is_shown dv v then v ∷ rest else rest

  unfoldable pub filtered_reply : DeviceVars → Option ℕ → Access → List Value → Reply
  unfolding shown select_index
  filtered_reply dv index a values = elim (select_index index (shown dv values)) [
    | some selected ↦ property_reply selected a
    | none ↦ error_reply 404
  ]

  -- `cache.readObjectList`, with a loader of its own.
  unfoldable pub read_list : ℕ → Session W → Loaded (List Value) × Session W
  unfolding read_object_list resolve_device
  read_list number s =
      let start : Loader W = record { no_rpm = false; world = s.world } in
      let (r, l) = read_object_list (h.client (resolve_device h.devices req.device)) number start in
      (r, record s { world = l.world })

  -- `serveFilteredObjectList`
  unfoldable pub serve_filtered : ℕ → Option ℕ → Access → ℕ → Session W → Reply × Session W
  unfolding cached read_list filtered_reply bacnet_status
  serve_filtered number index a now s =
      let (r, s') = cached x h req.device now s in
      elim r [
        | load_failed e ↦ (error_reply (bacnet_status e), s')
        | endless ↦ (no_reply, s')
        | loaded dv ↦
            let (l, t) = read_list number s' in
            elim l [
              | load_failed e ↦ (error_reply (bacnet_status e), t)
              | endless ↦ (no_reply, t)
              | loaded values ↦ (filtered_reply dv index a values, t)
            ]
      ]

  unfoldable pub is_object_list : ObjectIdentifier → ℕ → Bool
  is_object_list o prop = (o.object_type == object_device) && (prop == prop_object_list)

  -- The read of `handleGetProperty`.
  unfoldable pub read_plain :
      ObjectIdentifier → ℕ → Option ℕ → Session W → Loaded (List Value) × Session W
  unfolding read_list is_object_list fetched_of list_of resolve_device
  read_plain o prop index s = elim (is_object_list o prop && not (is_present index)) [
    | true ↦ read_list o.instance_number s
    | false ↦
        let d = h.client (resolve_device h.devices req.device) in
        let (r, w) = d.read_property o prop index s.world in
        (
          elim (fetched_of r) [
            | fetched values ↦ loaded (list_of values)
            | fault e ↦ load_failed e
          ],
          record s { world = w },
        )
  ]

  -- The rest of `handleGetProperty`, for a caller who may read the variable named `name`.
  unfoldable pub get_authorized :
      ObjectIdentifier → ℕ → Option ℕ → String → ℕ → Session W → Reply × Session W
  unfolding serve_filtered read_plain is_object_list bacnet_status
  get_authorized o prop index name now s =
      elim (is_object_list o prop && uses_condition h.rules variable_type) [
        | true ↦ serve_filtered o.instance_number index (access_to name) now s
        | false ↦
            let (r, s') = read_plain o prop index s in
            (
              elim r [
                | loaded values ↦ property_reply values (access_to name)
                | load_failed e ↦ error_reply (bacnet_status e)
                | endless ↦ no_reply
              ],
              s',
            )
      ]

  unfoldable pub get_property : PropertyPath → ℕ → Session W → Reply × Session W
  unfolding parse_object_ref authorize_object parse_property parse_index get_authorized
  get_property path now s = elim (parse_object_ref path.type_text path.instance_text) [
    | none ↦ (error_reply 400, s)
    | some o ↦
        let (a, s') = authorize_object x h bearer req (some o) read_property now s in
        elim a [
          | turned_away status ↦ (error_reply status, s')
          | unanswered ↦ (no_reply, s')
          | passed name ↦ elim (parse_property path.property_text) [
            | none ↦ (error_reply 400, s')
            | some prop ↦ elim (parse_index path.index_text) [
              | none ↦ (error_reply 400, s')
              | some index ↦ get_authorized o prop index name now s'
            ]
          ]
        ]
  ]

  -- The rest of `handleWriteProperty`, for a caller who may write the variable.
  unfoldable pub put_authorized :
      ObjectIdentifier → Bytes → Option WriteRequest → Session W → Reply × Session W
  unfolding parse_property value_for_write fetched_of bacnet_status resolve_device
  put_authorized o property_text body s = elim (parse_property property_text) [
    | none ↦ (error_reply 400, s)
    | some prop ↦ elim body [
      | none ↦ (error_reply 400, s)
      | some b ↦ elim (value_for_write h.large_uint64 o.object_type prop b.written) [
        | none ↦ (error_reply 400, s)
        | some v ↦
            let host = resolve_device h.devices req.device in
            let (r, w) = h.write_property host o prop v b.priority s.world in
            (
              elim (fetched_of r) [
                | fetched done ↦ written_reply
                | fault e ↦ error_reply (bacnet_status e)
              ],
              record s { world = w },
            )
      ]
    ]
  ]

  unfoldable pub put_property :
      PropertyPath → Option WriteRequest → ℕ → Session W → Reply × Session W
  unfolding parse_object_ref authorize_object put_authorized
  put_property path body now s = elim (parse_object_ref path.type_text path.instance_text) [
    | none ↦ (error_reply 400, s)
    | some o ↦
        let (a, s') = authorize_object x h bearer req (some o) write_property now s in
        elim a [
          | turned_away status ↦ (error_reply status, s')
          | unanswered ↦ (no_reply, s')
          | passed name ↦ put_authorized o path.property_text body s'
        ]
  ]
