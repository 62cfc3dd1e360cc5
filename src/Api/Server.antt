-- ===== src/Api/Server.antt =====
-- What the handlers of internal/api share: the server of handlers.go, the statuses of httperr.go and
-- authorizeVariable of middleware.go over the variable cache.
pub mod Laws
use bacnet_ip_rest_proxy.Prelude.{
  ℕ, Bool, true, false, List, [], ◌∷◌, Option, none, some, ◌==◌, ◌||◌, if◌then◌else◌,
}
use bacnet_ip_rest_proxy.Prelude.Texts.{String, is_text}
use bacnet_ip_rest_proxy.Prelude.Decimal.{Bytes, parse_uint32}
use bacnet_ip_rest_proxy.Bacnet.Primitive.{ObjectIdentifier}
use bacnet_ip_rest_proxy.Bacnet.Value.{Value}
use bacnet_ip_rest_proxy.Bacnet.Errors.{BacnetError}
use bacnet_ip_rest_proxy.Bacnet.Objects.{parse_object_type}
use bacnet_ip_rest_proxy.Client.{timeout_error, bacnet_error}
use bacnet_ip_rest_proxy.Client.Calls.{CallResult}
use bacnet_ip_rest_proxy.Authz.{External, Operation, Request, Rule, uses_condition, variable_type}
use bacnet_ip_rest_proxy.Cache.{
  Variable, DeviceVars, Device, Failure, service_failure, request_failure, property_failure, Loaded,
  loaded, load_failed, endless, by_id, device_object,
}
use bacnet_ip_rest_proxy.Cache.Entries.{Entries, get}
use bacnet_ip_rest_proxy.Api.{
  Answer, granted, readwrite_required, authentication_required, access_denied, device_error, denied,
  check, enumeration_error,
}

-- The parts of `Server` that the handlers read. A variable's name is compared with the rules'
-- texts as `as_text` of its bytes; `large_uint64` is Go's conversion to uint64 of a float64 that does
-- not fit it.
pub record Server (W : Type 0) : Type 0 where
  pub rules : List Rule
  pub devices : List (String × String)
  pub client : String → Device W
  pub write_property :
      String → ObjectIdentifier → ℕ → Value → Option ℕ → W → CallResult (Unit {0}) × W
  pub as_text : Bytes → String
  pub large_uint64 : ℕ → ℕ

-- What the handlers change: the cache's entries, and the world of the devices.
pub record Session (W : Type 0) : Type 0 where
  pub entries : Entries
  pub world : W

-- `Server.resolveDevice` and `Config.ResolveDevice`
unfoldable pub resolve_device : List (String × String) → String → String
resolve_device [] id = id
resolve_device ((alias, addr) ∷ devices) id =
    if is_text alias id then addr else resolve_device devices id

-- The status for the error-code of a BACnet error.
unfoldable pub code_status : ℕ → ℕ
code_status c =
    if (c == 31) || (c == 32)
    then 404
    else if c == 39
    then 403
    else if c == 37
    then 422
    else if c == 30
    then 504
    else 502

-- The status that `writeBACnetError` writes.
unfoldable pub bacnet_status : Failure → ℕ
unfolding code_status
bacnet_status (service_failure (bacnet_error e)) = code_status e.error_code
bacnet_status (property_failure e) = code_status e.error_code
bacnet_status (request_failure timeout_error) = 504
bacnet_status e = 502

-- The status of an answer of `check`, `writeDenied` or `writeEnumerationError`, the last with the
-- status of the device's error.
unfoldable pub answer_status : Answer → ℕ → ℕ
answer_status granted device = 200
answer_status readwrite_required device = 403
answer_status authentication_required device = 401
answer_status access_denied device = 403
answer_status device_error device = device

-- `parseObjectRef`
unfoldable pub parse_object_ref : Bytes → Bytes → Option ObjectIdentifier
unfolding parse_object_type parse_uint32
parse_object_ref type_text instance_text = elim (parse_object_type type_text) [
  | none ↦ none
  | some t ↦ elim (parse_uint32 instance_text) [
    | none ↦ none
    | some n ↦ some (record { object_type = t; instance_number = n })
  ]
]

-- The result of `authorizeVariable`: the variable's name, or the status of the refusal. A load that
-- does not end leaves the request without an answer.
pub data Authorized : Type 0 where
  passed : String → Authorized
  turned_away : ℕ → Authorized
  unanswered : Authorized

unfoldable pub verdict : Answer → String → Authorized
unfolding answer_status
verdict granted name = passed name
verdict a name = turned_away (answer_status a 0)

module _ (x : External) {W : Type 0} (h : Server W) where
  -- `s.cache.get(s.resolveDevice(device))`
  unfoldable pub cached : String → ℕ → Session W → Loaded DeviceVars × Session W
  unfolding get resolve_device
  cached device now s =
      let (r, es, w) = get h.client (resolve_device h.devices device) now s.entries s.world in
      (r, record { entries = es; world = w })

  -- The verdict on a variable of a snapshot, or on the device's own object.
  unfoldable pub authorize_in :
      String → Request x → Option ObjectIdentifier → Operation → DeviceVars → Authorized
  unfolding verdict check denied by_id device_object
  authorize_in bearer req o op dv =
      let id : ObjectIdentifier = elim o [ some i ↦ i | none ↦ device_object dv.instance_number ] in
      elim (by_id dv.vars id) [
        | none ↦ verdict (denied bearer) ""
        | some v ↦
            let name = h.as_text v.object_name in verdict (check x h.rules bearer req name op) name
      ]

  unfoldable pub authorize_object :
      String
      → Request x
      → Option ObjectIdentifier
      → Operation
      → ℕ
      → Session W
      → Authorized × Session W
  unfolding cached authorize_in verdict check enumeration_error answer_status bacnet_status
  authorize_object bearer req o op now s = elim (uses_condition h.rules variable_type) [
    | false ↦ (verdict (check x h.rules bearer req "" op) "", s)
    | true ↦
        let (r, s') = cached req.device now s in
        elim r [
          | loaded dv ↦ (authorize_in bearer req o op dv, s')
          | load_failed e ↦ (
            turned_away (answer_status (enumeration_error x h.rules bearer req) (bacnet_status e)),
            s',
          )
          | endless ↦ (unanswered, s')
        ]
  ]
