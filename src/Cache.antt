-- ===== src/Cache.antt =====
-- The variable cache of the REST API, internal/api/varcache.go: the snapshots of the devices'
-- variables, and what a load of one goes through with the device.
pub mod Gives
pub mod Metadata
pub mod ObjectList
pub mod Load
pub mod Entries
use bacnet_ip_rest_proxy.Prelude.{
  ℕ, Bool, true, false, not, ◌&&◌, ◌||◌, List, [], ◌∷◌, Option, none, some, ◌==◌, if◌then◌else◌,
  Error,
}
use bacnet_ip_rest_proxy.Bacnet.Primitive.{ObjectIdentifier}
use bacnet_ip_rest_proxy.Bacnet.Value.{
  Value, Values, nil, cons, primitive, character_string, object_id,
}
use bacnet_ip_rest_proxy.Bacnet.Errors.{BacnetError}
use bacnet_ip_rest_proxy.Bacnet.Services.Multiple.{ReadAccessSpec, ReadAccessResult}
use bacnet_ip_rest_proxy.Client.{
  RequestResult, timeout_error, ServiceError, abort_error, reject_error,
}
use bacnet_ip_rest_proxy.Client.Calls.{CallResult, returned, refused, undecodable, failed}

abbrev pub prop_object_name : ℕ
prop_object_name = 77

abbrev pub prop_description : ℕ
prop_description = 28

abbrev pub prop_units : ℕ
prop_units = 117

abbrev pub prop_object_list : ℕ
prop_object_list = 76

abbrev pub object_device : ℕ
object_device = 8

-- `variable`; texts are their bytes.
pub record Variable : Type 0 where
  pub object : ObjectIdentifier
  pub object_name : List ℕ
  pub description : List ℕ
  pub units : List Value

-- `deviceVars`, whose map `byID` is `by_id` of `vars`.
pub record DeviceVars : Type 0 where
  pub instance_number : ℕ
  pub vars : List Variable

unfoldable pub same_object : ObjectIdentifier → ObjectIdentifier → Bool
same_object a b = (a.object_type == b.object_type) && (a.instance_number == b.instance_number)

-- A map from objects to pointers into a list: of several variables with one object, the last.
unfoldable pub by_id : List Variable → ObjectIdentifier → Option Variable
unfolding same_object
by_id [] o = none
by_id (v ∷ vs) o = elim (by_id vs o) [
  | some w ↦ some w
  | none ↦ if same_object v.object o then some v else none
]

unfoldable pub device_object : ℕ → ObjectIdentifier
device_object number = record { object_type = object_device; instance_number = number }

-- Why a load fails.
pub data Failure : Type 0 where
  service_failure : ServiceError → Failure
  decode_failure : Error → Failure
  request_failure : RequestResult → Failure
  property_failure : BacnetError → Failure
  unexpected_length : Failure

pub data Fetched (A : Type 0) : Type 0 where
  fetched : A → Fetched A
  fault : Failure → Fetched A

unfoldable pub fetched_of : {A : Type 0} → CallResult A → Fetched A
fetched_of (returned a) = fetched a
fetched_of (refused e) = fault (service_failure e)
fetched_of (undecodable e) = fault (decode_failure e)
fetched_of (failed e) = fault (request_failure e)

-- The client's calls on one device, in a state `W` of the world that each call changes;
-- `ended` is the test that the context of the load is done.
pub record Device (W : Type 0) : Type 0 where
  pub device_instance : W → CallResult ℕ × W
  pub read_property : ObjectIdentifier → ℕ → Option ℕ → W → CallResult Values × W
  pub read_property_multiple : List ReadAccessSpec → W → CallResult (List ReadAccessResult) × W
  pub ended : W → Bool

-- `loader`: the flag, and the world its device is in.
pub record Loader (W : Type 0) : Type 0 where
  pub no_rpm : Bool
  pub world : W

-- What a step of a load gives; `endless` is a loop that does not end within its fuel.
pub data Loaded (A : Type 0) : Type 0 where
  loaded : A → Loaded A
  load_failed : Failure → Loaded A
  endless : Loaded A

abbrev pub Loading : Type 0 → Type 0 → Type 0
Loading W A = Loader W → Loaded A × Loader W

-- The next step of a load, where the one before it gave a value.
unfoldable pub and_then :
    {W A B : Type 0} → Loaded A × Loader W → (A → Loading W B) → Loaded B × Loader W
and_then (loaded a, s) f = f a s
and_then (load_failed e, s) f = (load_failed e, s)
and_then (endless, s) f = (endless, s)

unfoldable pub settled : {A : Type 0} → Fetched A → Loaded A
settled (fetched a) = loaded a
settled (fault e) = load_failed e

-- A call of ReadProperty or ReadPropertyMultiple from a loader.
module _ {W : Type 0} (d : Device W) where
  unfoldable pub read_one : ObjectIdentifier → ℕ → Option ℕ → Loader W → Fetched Values × Loader W
  unfolding fetched_of
  read_one o prop index s =
      let (r, w) = d.read_property o prop index s.world in (fetched_of r, record s { world = w })

  unfoldable pub read_many :
      List ReadAccessSpec → Loader W → Fetched (List ReadAccessResult) × Loader W
  unfolding fetched_of
  read_many specs s =
      let (r, w) = d.read_property_multiple specs s.world in (fetched_of r, record s { world = w })

  -- `retryPiecewise`
  unfoldable pub retry_piecewise : Failure → Loader W → Bool
  retry_piecewise e s = not (d.ended s.world) && elim e [
    | service_failure (abort_error reason) ↦ true
    | request_failure timeout_error ↦ true
    | _ ↦ false
  ]

  -- `noteRPMFailure`: whether to retry, and the loader that has noted the failure.
  unfoldable pub note_rpm_failure : Failure → Loader W → Bool × Loader W
  unfolding retry_piecewise
  note_rpm_failure (service_failure (reject_error reason)) s =
      if reason == 9
      then (true, record s { no_rpm = true })
      else (retry_piecewise (service_failure (reject_error reason)) s, s)
  note_rpm_failure e s = (retry_piecewise e s, s)

unfoldable pub list_of : Values → List Value
list_of nil = []
list_of (cons v vs) = v ∷ list_of vs

-- `charString`
unfoldable pub char_string : Values → List ℕ
char_string (cons (primitive (character_string s)) nil) = s
char_string vs = []
