-- ===== src/Examples/Caches.antt =====
-- The theorems about the variable cache at devices with three objects, whose object-list is too
-- long for one reply: one that rejects ReadPropertyMultiple and one that answers it.
use bacnet_ip_rest_proxy.Prelude.{
  ℕ, ◌+◌, ◌≤◌, ◌<◌, ◌%◌, ◌^◌, ◌≡◌, ◌≢◌, refl, inl, true, false, ◌&&◌, leb, le→leb, List, All, [],
  ◌∷◌, map, Option, none, some, ◌==◌, ne→==_false, if◌then◌else◌, arith,
}
use bacnet_ip_rest_proxy.Prelude.Texts.{String}
use bacnet_ip_rest_proxy.Prelude.Decimal.{codes}
use bacnet_ip_rest_proxy.Bacnet.Primitive.{ObjectIdentifier}
use bacnet_ip_rest_proxy.Bacnet.Value.{
  Value, Values, nil, cons, primitive, unsigned, object_id, character_string,
}
use bacnet_ip_rest_proxy.Client.{abort_error, reject_error}
use bacnet_ip_rest_proxy.Client.Calls.{CallResult, returned, refused}
use bacnet_ip_rest_proxy.Bacnet.Services.Multiple.{
  PropertyReference, ReadAccessSpec, ReadAccessResult, PropertyResult, PropertyOutcome, read_values,
  read_error,
}
use bacnet_ip_rest_proxy.Cache.{
  Variable, DeviceVars, Device, Loader, loaded, device_object, prop_object_list,
}
use bacnet_ip_rest_proxy.Cache.Gives.{Gives}
use bacnet_ip_rest_proxy.Cache.Metadata.{read_metadata}
use bacnet_ip_rest_proxy.Cache.Metadata.Laws.{Same, read_metadata-Gives}
use bacnet_ip_rest_proxy.Cache.ObjectList.{
  element_references, index_chunk, length_in, read_elements, read_object_list,
}
use bacnet_ip_rest_proxy.Cache.ObjectList.Laws.{LengthFits, range}
use bacnet_ip_rest_proxy.Cache.ObjectList.Whole.{
  IsPiecewise, InList, element_results, read_object_list-elements,
}
use bacnet_ip_rest_proxy.Cache.ObjectList.Endless.{last_counter, read_elements-never}
use bacnet_ip_rest_proxy.Cache.Load.{load}
use bacnet_ip_rest_proxy.Cache.Load.Laws.{Loads, load-Gives}
use bacnet_ip_rest_proxy.Cache.Entries.{Entries, find_entry, get, refresh_all}
use bacnet_ip_rest_proxy.Cache.Entries.Laws.{Fresh, refresh_all-get}

abbrev pub element : ℕ → Value
element i = primitive (object_id (record { object_type = 0; instance_number = i }))

abbrev answer : ObjectIdentifier → ℕ → Option ℕ → CallResult Values
answer o prop index =
    if prop == prop_object_list
    then elim index [
      | none ↦ refused (abort_error 4)
      | some i ↦ returned (cons (if i == 0 then primitive (unsigned 3) else element i) nil)
    ]
    else returned (cons (primitive (character_string (codes "temperature"))) nil)

-- The world counts the calls.
abbrev pub thermostat : Device ℕ
thermostat = record {
  device_instance = λ w. (returned 7, w + 1);
  read_property = λ o prop index w. (answer o prop index, w + 1);
  read_property_multiple = λ specs w. (refused (reject_error 9), w + 1);
  ended = λ w. false;
}

abbrev at_rest : Loader ℕ
at_rest = record { no_rpm = false; world = 0 }

element_answer :
    (i : ℕ) → 1 ≤ i → (if i == 0 then primitive (unsigned 3) else element i) ≡ element i
element_answer i h = rw (ne→==_false i 0 (λ e. absurd (omega (arith, h, e)))) refl

-- What a device with three elements answers about an index: the error is invalid-array-index.
abbrev outcome_at : ℕ → PropertyOutcome
outcome_at i =
    if leb 1 i && leb i 3
    then read_values (cons (element i) nil)
    else read_error (record { class = 2; error_code = 42 })

abbrev results_at : List PropertyReference → List PropertyResult
results_at [] = []
results_at (r ∷ rs) =
    record { reference = r; outcome = outcome_at (elim r.array_index [ none ↦ 0 | some i ↦ i ]) }
    ∷ results_at rs

abbrev results_of : List ReadAccessSpec → List ReadAccessResult
results_of [] = []
results_of (s ∷ ss) =
    record { object = s.object; results = results_at s.properties } ∷ results_of ss

-- The thermostat with ReadPropertyMultiple.
abbrev talkative : Device ℕ
talkative = record thermostat {
  read_property_multiple = λ specs w. (returned (results_of specs), w + 1);
}

results-elements :
    (is : List ℕ)
    → All (InList 3) is
    → results_at (element_references is) ≡ element_results element is
unfolding element_references
results-elements [] h = refl
results-elements (i ∷ is) ((low, high), h) =
    let l : leb 1 i ≡ true = le→leb 1 i low in
    let u : leb i 3 ≡ true = le→leb i 3 high in rw (l, u, results-elements is h) refl

talkative-IsPiecewise : IsPiecewise talkative (device_object 7) element 3
talkative-IsPiecewise = record {
  running = λ w. refl;
  too_long = λ w. inl (4, refl);
  size = λ w. refl;
  single = λ i w low high. rw (element_answer i low) refl;
  several = λ is w h. inl (rw (results-elements is h) refl);
}

out_of_range : outcome_at 4 ≡ read_error (record { class = 2; error_code = 42 })
out_of_range = refl

read_object_list-elements_example :
    (read_object_list talkative 7 at_rest).0 ≡ loaded (map element (range 1 3))
read_object_list-elements_example =
    read_object_list-elements talkative 7 3 element at_rest talkative-IsPiecewise (omega arith)

-- Without ReadPropertyMultiple the same list is read one element at a time.
one_by_one :
    (read_object_list thermostat 7 at_rest).0 ≡ loaded (element 1 ∷ element 2 ∷ element 3 ∷ [])
unfolding read_object_list
one_by_one = refl

length_answer :
    (values : Values) (u : ℕ)
    → returned (cons (primitive (unsigned 3)) nil) ≡ returned values
    → length_in values ≡ some u
    → u % 2 ^ 32 + index_chunk < 2 ^ 32
unfolding length_in
length_answer values u e l = ground (arith, e, l)

thermostat-LengthFits : (number : ℕ) → LengthFits thermostat (device_object number)
thermostat-LengthFits number w values u e l = length_answer values u e l

load-Gives_example : Gives (Loads thermostat) (load thermostat 0).0
load-Gives_example = load-Gives thermostat 0 thermostat-LengthFits

abbrev unnamed : Variable
unnamed = record {
  object = record { object_type = 0; instance_number = 1 };
  object_name = [];
  description = [];
  units = [];
}

read_metadata-Gives_example :
    Gives
      (Same (unnamed ∷ unnamed ∷ []))
      (read_metadata thermostat 3 (unnamed ∷ unnamed ∷ []) at_rest).0
read_metadata-Gives_example =
    read_metadata-Gives thermostat 3 (unnamed ∷ unnamed ∷ []) at_rest (omega arith)

read_elements-never_example :
    (read_elements thermostat
      (device_object 7)
      (cons (primitive (unsigned last_counter)) nil)
      at_rest).0
    ≢ loaded (element 1 ∷ [])
read_elements-never_example =
    read_elements-never thermostat (device_object 7) at_rest (element 1 ∷ [])

abbrev pub snapshot : DeviceVars
snapshot = record {
  instance_number = 7;
  vars = record unnamed { object_name = codes "temperature" } ∷ [];
}

abbrev pub kept : Entries
kept = ("ahu1", record { data_of = some snapshot; last_used = 1000 }) ∷ []

abbrev all_thermostats : String → Device ℕ
all_thermostats host = thermostat

kept_entry : find_entry "ahu1" kept ≡ some (record { data_of = some snapshot; last_used = 1000 })
unfolding find_entry
kept_entry = refl

refresh_all-get_example :
    (dv : DeviceVars) × (es : Entries) × (get all_thermostats "ahu1" 2000
        (refresh_all all_thermostats (λ w. false) 60 1500 kept 0).0
        9
      ≡ (loaded dv, es, 9))
    × Fresh all_thermostats (λ w. false) "ahu1" snapshot dv
refresh_all-get_example =
    refresh_all-get all_thermostats (λ w. false) 60 1500 2000 "ahu1"
      (record { data_of = some snapshot; last_used = 1000 }) snapshot kept 0 9 kept_entry refl
      (omega arith)

abbrev used_again : Entries
used_again = ("ahu1", record { data_of = some snapshot; last_used = 1100 }) ∷ []

served : get all_thermostats "ahu1" 1100 kept 5 ≡ (loaded snapshot, used_again, 5)
unfolding get
served = refl
