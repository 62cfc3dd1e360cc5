-- ===== src/Authz.antt =====
-- The rule-based authorization engine: the types of internal/authz/types.go and the request and
-- result of internal/authz/engine.go. Go's string types with named constants are data types here,
-- with one more constructor for a text that is none of the constants.
pub mod Match
pub mod Evaluate
use bacnet_ip_rest_proxy.Prelude.{Bool, true, false, List, [], ◌∷◌, Option, ◌||◌}
use bacnet_ip_rest_proxy.Prelude.Texts.{String}

-- `Permission`; the zero value is `other_permission ""`.
pub data Permission : Type 0 where
  readonly : Permission
  readwrite : Permission
  other_permission : String → Permission

pub data MatchMode : Type 0 where
  match_none : MatchMode
  match_not_all : MatchMode
  match_any : MatchMode
  match_all : MatchMode
  other_mode : String → MatchMode

pub data Action : Type 0 where
  allow_now : Action
  deny_now : Action
  allow : Action
  deny : Action
  other_action : String → Action

unfoldable pub is_allow : Action → Bool
is_allow allow = true
is_allow allow_now = true
is_allow _ = false

unfoldable pub is_now : Action → Bool
is_now allow_now = true
is_now deny_now = true
is_now _ = false

pub data ConditionType : Type 0 where
  device_type : ConditionType
  ip_type : ConditionType
  jwt_type : ConditionType
  operation_type : ConditionType
  token_type : ConditionType
  variable_type : ConditionType
  other_type : String → ConditionType

pub record Condition : Type 0 where
  pub condition_type : ConditionType
  pub field : String
  pub value : String

pub record Rule : Type 0 where
  pub name : String
  pub conditions : List Condition
  pub mode : MatchMode
  pub permission : Permission
  pub action : Action

unfoldable pub is_condition_type : ConditionType → ConditionType → Bool
is_condition_type device_type device_type = true
is_condition_type ip_type ip_type = true
is_condition_type jwt_type jwt_type = true
is_condition_type operation_type operation_type = true
is_condition_type token_type token_type = true
is_condition_type variable_type variable_type = true
is_condition_type _ _ = false

unfoldable pub conditions_use : List Condition → ConditionType → Bool
conditions_use [] t = false
conditions_use (c ∷ cs) t = is_condition_type c.condition_type t || conditions_use cs t

-- `UsesCondition`, asked for one of the named types.
unfoldable pub uses_condition : List Rule → ConditionType → Bool
unfolding conditions_use
uses_condition [] t = false
uses_condition (r ∷ rs) t = conditions_use r.conditions t || uses_condition rs t

pub data Operation : Type 0 where
  who_is : Operation
  read_property : Operation
  read_property_multiple : Operation
  write_property : Operation
  list_devices : Operation

unfoldable pub operation_name : Operation → String
operation_name who_is = "who-is"
operation_name read_property = "read-property"
operation_name read_property_multiple = "read-property-multiple"
operation_name write_property = "write-property"
operation_name list_devices = "list-devices"

unfoldable pub required_permission : Operation → Permission
required_permission write_property = readwrite
required_permission _ = readonly

-- A decoded JSON value: a string, an array, or anything else.
mutual
  pub data Claim (S : Type 0) : Type 0 where
    text : String → Claim S
    items : Claims S → Claim S
    scalar : S → Claim S

  pub data Claims (S : Type 0) : Type 0 where
    no_claims : Claims S
    more_claims : Claim S → Claims S → Claims S

-- What the engine calls of the packages `path`, `net`, `fmt` and `encoding/json`, and the types
-- that belong to them: `path.Match` (none is an error), `IP.String`, `net.ParseCIDR`,
-- `IPNet.Contains`, `Sprintf` with `%v`, a claim as JSON or, failing that, with `%v`, and the text
-- for an absent claim.
pub record External : Type 1 where
  pub Ip : Type 0
  pub Net : Type 0
  pub Scalar : Type 0
  pub path_match : String → String → Option Bool
  pub ip_string : Ip → String
  pub parse_cidr : String → Option Net
  pub net_contains : Net → Ip → Bool
  pub print_scalar : Scalar → String
  pub print_claim : Claim Scalar → String
  pub print_absent : String → String

pub record Request (x : External) : Type 0 where
  pub device : String
  pub client_ip : Option x.Ip
  pub operation : Operation
  pub token_name : String
  pub jwt_claims : Option (List (String × Claim x.Scalar))
  pub object_name : String

pub record Result : Type 0 where
  pub allowed : Bool
  pub permission : Permission
  pub rule_name : String
