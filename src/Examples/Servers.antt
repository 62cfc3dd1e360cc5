-- ===== src/Examples/Servers.antt =====
-- The theorems about the handlers at a server with one device and one rule.
use bacnet_ip_rest_proxy.Prelude.{
  ◌^◌, ℕ, ◌+◌, ◌≡◌, ◌≢◌, refl, false, List, [], ◌∷◌, All, Option, none, some, if◌then◌else◌,
}
use bacnet_ip_rest_proxy.Prelude.Texts.{String}
use bacnet_ip_rest_proxy.Prelude.Decimal.{codes, same_bytes}
use bacnet_ip_rest_proxy.Client.Calls.{returned}
use bacnet_ip_rest_proxy.Authz.{
  Rule, Condition, write_property, readwrite, match_all, allow, variable_type, uses_condition,
  is_condition_type, is_now, is_allow,
}
use bacnet_ip_rest_proxy.Authz.Match.{match_condition, mode_applies}
use bacnet_ip_rest_proxy.Authz.Evaluate.{evaluate, result_of, default_result}
use bacnet_ip_rest_proxy.Cache.{DeviceVars, Variable, loaded}
use bacnet_ip_rest_proxy.Cache.ObjectList.{read_object_list}
use bacnet_ip_rest_proxy.Api.{
  Access, access_read_write, allowed, variable_access, check, visible_variables,
}
use bacnet_ip_rest_proxy.Api.Json.Write.{number_json}
use bacnet_ip_rest_proxy.Api.Server.{Server, Session, cached, authorize_object}
use bacnet_ip_rest_proxy.Api.Handlers.{
  PropertyPath, WriteRequest, property_reply, written_reply, put_property, serve_filtered,
}
use bacnet_ip_rest_proxy.Api.Handlers.Laws.{Readable, put_property-denied, serve_filtered-Readable}
use bacnet_ip_rest_proxy.Api.Listing.{list_objects, variables_summary}
use bacnet_ip_rest_proxy.Api.Listing.Laws.{Listed, list_objects-Listed}
use bacnet_ip_rest_proxy.Examples.Access.{plain, request}
use bacnet_ip_rest_proxy.Examples.Caches.{thermostat, kept, element}

abbrev on_temperature : Condition
on_temperature = record { condition_type = variable_type; field = ""; value = "temperature" }

abbrev temperatures : Rule
temperatures = record {
  name = "temperatures";
  conditions = on_temperature ∷ [];
  mode = match_all;
  permission = readwrite;
  action = allow;
}

abbrev server : List Rule → Server ℕ
server rules = record {
  rules = rules;
  devices = [];
  client = λ host. thermostat;
  write_property = λ host o prop v priority w. (returned tt, w + 100);
  as_text = λ s. if same_bytes s (codes "temperature") then "temperature" else "other";
  large_uint64 = λ b. 2 ^ 63;
}

abbrev session : Session ℕ
session = record { entries = kept; world = 0 }

abbrev present_value : PropertyPath
present_value = record {
  type_text = codes "analog-input";
  instance_text = codes "1";
  property_text = codes "present-value";
  index_text = [];
}

abbrev half : Option WriteRequest
half = some (record { written = number_json 0x3fe0000000000000; priority = some 8 })

nobody_writes : (name : String) → allowed plain [] request name write_property ≡ false
unfolding allowed evaluate default_result
nobody_writes name = refl

put_property-denied_example :
    put_property plain
      (record (server []) { write_property = λ host o prop v priority w. (returned tt, 0) })
      ""
      request
      present_value
      half
      3
      session
    ≡ put_property plain (server []) "" request present_value half 3 session
put_property-denied_example =
    put_property-denied plain (server []) "" request present_value half 3 session
      (λ host o prop v priority w. (returned tt, 0)) nobody_writes

half_written :
    (put_property plain (server (temperatures ∷ [])) "" request present_value half 3 session).0
    ≡ written_reply
unfolding put_property authorize_object cached check evaluate mode_applies match_condition allowed
    uses_condition is_condition_type is_now result_of is_allow
half_written = refl

shown_list :
    (serve_filtered plain
      (server (temperatures ∷ []))
      ""
      request
      7
      none
      access_read_write
      3
      session).0
    ≡ property_reply (element 1 ∷ []) access_read_write
unfolding serve_filtered cached check evaluate mode_applies match_condition allowed variable_access
    uses_condition is_condition_type is_now result_of is_allow read_object_list same_bytes
shown_list = refl

serve_filtered-Readable_example :
    (dv : DeviceVars) × ((cached plain (server (temperatures ∷ [])) "ahu1" 3 session).0 ≡ loaded dv)
    × All (Readable plain (server (temperatures ∷ [])) "" request dv) (element 1 ∷ [])
serve_filtered-Readable_example =
    serve_filtered-Readable plain (server (temperatures ∷ [])) "" request 7 3 none access_read_write
      access_read_write (element 1 ∷ []) session (cc) shown_list

abbrev thermometer : Variable
thermometer = record {
  object = record { object_type = 0; instance_number = 1 };
  object_name = codes "temperature";
  description = [];
  units = [];
}

one_listed :
    (list_objects plain (server (temperatures ∷ [])) "" request 3 session).0
    ≡ variables_summary ((thermometer, access_read_write) ∷ [])
unfolding list_objects cached evaluate mode_applies match_condition allowed variable_access
    visible_variables uses_condition is_condition_type is_now result_of is_allow same_bytes
one_listed = refl

list_objects-Listed_example :
    ◌≢◌ {A = List (Variable × Access)} ((thermometer, access_read_write) ∷ []) []
    × Listed plain (server (temperatures ∷ [])) "" request ((thermometer, access_read_write) ∷ [])
list_objects-Listed_example =
    list_objects-Listed plain (server (temperatures ∷ [])) "" request 3 session
      ((thermometer, access_read_write) ∷ []) one_listed
