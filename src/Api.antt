-- ===== src/Api.antt =====
-- Access control of the REST API, internal/api/middleware.go: what a caller may do with a variable,
-- and the answer to a request that it may not make.
pub mod Laws
pub mod Json
pub mod Server
pub mod Handlers
pub mod Listing
pub mod Caller
use bacnet_ip_rest_proxy.Prelude.{
  is_present, Bool, true, false, not, ◌&&◌, ◌||◌, List, [], ◌∷◌, Option, none, some, if◌then◌else◌,
}
use bacnet_ip_rest_proxy.Prelude.Texts.{String, is_text}
use bacnet_ip_rest_proxy.Authz.{
  External, Permission, readonly, readwrite, other_permission, Operation, read_property,
  write_property, Request, Result, Rule, variable_type, uses_condition, required_permission,
}
use bacnet_ip_rest_proxy.Authz.Evaluate.{evaluate}

unfoldable pub is_readwrite : Permission → Bool
is_readwrite readwrite = true
is_readwrite _ = false

-- `access`
pub data Access : Type 0 where
  access_none : Access
  access_read_only : Access
  access_read_write : Access

-- What `check` and `writeDenied` answer.
pub data Answer : Type 0 where
  granted : Answer
  readwrite_required : Answer
  authentication_required : Answer
  access_denied : Answer
  device_error : Answer

-- What the variable cache says of the object that a request is about.
pub data Cached : Type 0 where
  enumeration_failed : Cached
  missing : Cached
  variable : String → Cached

unfoldable pub denied : String → Answer
denied bearer = if is_text bearer "" then authentication_required else access_denied

module _ (x : External) (rules : List Rule) where
  unfoldable pub permits : Result → Operation → Bool
  unfolding is_readwrite required_permission
  permits result op =
      result.allowed
      && (not (is_readwrite (required_permission op)) || is_readwrite result.permission)

  -- The caller's request, of one operation on one variable.
  abbrev pub asking : Request x → String → Operation → Request x
  asking req name op = record req { operation = op; object_name = name }

  unfoldable pub allowed : Request x → String → Operation → Bool
  unfolding permits
  allowed req name op = permits (evaluate x (asking req name op) rules) op

  unfoldable pub variable_access : Request x → String → Access
  unfolding allowed
  variable_access req name =
      if not (allowed req name read_property)
      then access_none
      else if allowed req name write_property
      then access_read_write
      else access_read_only

  unfoldable pub check : String → Request x → String → Operation → Answer
  unfolding allowed denied
  check bearer req name op =
      if allowed req name op
      then granted
      else if is_readwrite (required_permission op) && allowed req name read_property
      then readwrite_required
      else denied bearer

  -- `writeEnumerationError`: a caller with a recognized credential is shown the device's error.
  unfoldable pub enumeration_error : String → Request x → Answer
  unfolding denied
  enumeration_error bearer req =
      if not (is_text req.token_name "") || is_present req.jwt_claims
      then device_error
      else denied bearer

  -- `authorizeVariable`, with `needsObjectName` as `NewServer` sets it.
  unfoldable pub authorize_variable : String → Request x → Operation → Cached → Answer
  unfolding check denied enumeration_error
  authorize_variable bearer req op cached =
      let named : Answer = elim cached [
        | enumeration_failed ↦ enumeration_error bearer req
        | missing ↦ denied bearer
        | variable name ↦ check bearer req name op
      ] in
      if uses_condition rules variable_type then named else check bearer req "" op

  -- `visibleVariables`, over variables of any type that have a name.
  module _ {V : Type 0} (name_of : V → String) where
    unfoldable pub visible_loop : (V → Access) → List V → List (V × Access)
    visible_loop access_of [] = []
    visible_loop access_of (v ∷ vs) =
        let rest = visible_loop access_of vs in
        elim (access_of v) [ access_none ↦ rest | a ↦ (v, a) ∷ rest ]

    unfoldable pub visible_variables : Request x → List V → List (V × Access)
    unfolding visible_loop variable_access
    visible_variables req vs =
        let uniform = variable_access req "" in
        visible_loop
          (λ v.
            if uses_condition rules variable_type then variable_access req (name_of v) else uniform)
          vs
