-- ===== src/Api/Handlers/Laws.antt =====
-- What the handlers of internal/api/handlers.go do for whom.
use mathlib.Core.Path.{subst}
use bacnet_ip_rest_proxy.Prelude.{
  ◌≡◌, ◌≢◌, ◌⊎◌, refl, sym, ap, ◌∙◌, inl, inr, true, false, ℕ, zero, suc, ◌-◌, not, List, [], ◌∷◌,
  All, get_elem?, Option, none, some, ◌==◌, Bool-cases, Option-cases, ==_iff,
}
use bacnet_ip_rest_proxy.Prelude.Texts.{String}
use bacnet_ip_rest_proxy.Bacnet.Primitive.{ObjectIdentifier}
use bacnet_ip_rest_proxy.Bacnet.Value.{
  Value, Primitive, primitive, object_id, unsigned, null, boolean, signed, real, double,
  octet_string, character_string, bit_string, enumerated, date, time, context_primitive,
  constructed,
}
use bacnet_ip_rest_proxy.Client.Calls.{CallResult}
use bacnet_ip_rest_proxy.Authz.{External, Operation, Request, write_property}
use bacnet_ip_rest_proxy.Cache.{Variable, DeviceVars, loaded, by_id}
use bacnet_ip_rest_proxy.Cache.Gives.{Loaded-cases}
use bacnet_ip_rest_proxy.Api.{Access, access_none, access_read_only, access_read_write, allowed}
use bacnet_ip_rest_proxy.Api.Server.{
  Server, Session, Authorized, passed, turned_away, unanswered, parse_object_ref, cached,
  authorize_in, authorize_object,
}
use bacnet_ip_rest_proxy.Api.Server.Laws.{authorize_object-passed}
use bacnet_ip_rest_proxy.Api.Handlers.{
  WriteRequest, PropertyPath, property_reply, written_reply, error_reply, no_reply, is_none,
  select_index, access_to, object_of, is_shown, shown, filtered_reply, read_list, serve_filtered,
  put_property,
}

Authorized-cases :
    (a : Authorized)
    → ((name : String) × (a ≡ passed name))
      ⊎ ((status : ℕ) × (a ≡ turned_away status))
      ⊎ (a ≡ unanswered)
Authorized-cases (passed name) = inl (name, refl)
Authorized-cases (turned_away status) = inr (inl (status, refl))
Authorized-cases unanswered = inr (inr refl)

true-ne-false : true ≢ false
true-ne-false = cc

object_of-eq :
    (v : Value) (o : ObjectIdentifier) → object_of v ≡ some o → v ≡ primitive (object_id o)
unfolding object_of
object_of-eq (primitive p) o h = primitive_case p o h
  where
    primitive_case :
        (p : Primitive) (o : ObjectIdentifier)
        → object_of (primitive p) ≡ some o
        → primitive p ≡ primitive (object_id o)
    primitive_case (object_id i) o h = cc
    primitive_case null o h = cc
    primitive_case (boolean b) o h = cc
    primitive_case (unsigned n) o h = cc
    primitive_case (signed z) o h = cc
    primitive_case (real f) o h = cc
    primitive_case (double f) o h = cc
    primitive_case (octet_string t) o h = cc
    primitive_case (character_string t) o h = cc
    primitive_case (bit_string t) o h = cc
    primitive_case (enumerated n) o h = cc
    primitive_case (date t) o h = cc
    primitive_case (time t) o h = cc
object_of-eq (context_primitive tag octets) o h = cc
object_of-eq (constructed tag vs) o h = cc

is_none-eq : (a : Access) → not (is_none a) ≡ true → a ≢ access_none
unfolding is_none
is_none-eq access_none h = cc
is_none-eq access_read_only h = cc
is_none-eq access_read_write h = cc

not_some : {rs : List Value} → ◌≡◌ {A = Option (List Value)} none (some rs) → ⊥
not_some h = cc

some_eq : {rs vs : List Value} → ◌≡◌ {A = Option (List Value)} (some rs) (some vs) → rs ≡ vs
some_eq h = cc

values_eq :
    {rs vs : List Value} {a b : Access} → property_reply rs a ≡ property_reply vs b → rs ≡ vs
values_eq h = cc

no_values :
    {status : ℕ} {vs : List Value} {b : Access} → error_reply status ≡ property_reply vs b → ⊥
no_values h = cc

nothing_values : {vs : List Value} {b : Access} → no_reply ≡ property_reply vs b → ⊥
nothing_values h = cc

get_elem?-All :
    (P : Value → Type 0) (vs : List Value) (i : ℕ) (v : Value)
    → All P vs
    → get_elem? vs i ≡ some v
    → P v
get_elem?-All P [] i v all e = cc
get_elem?-All P (w ∷ vs) zero v (p, all) e = subst P (cc) p
get_elem?-All P (w ∷ vs) (suc i) v (p, all) e = get_elem?-All P vs i v all e

select_index-All :
    (P : Value → Type 0) (index : Option ℕ) (vs rs : List Value)
    → index ≢ some 0
    → All P vs
    → select_index index vs ≡ some rs
    → All P rs
unfolding select_index
select_index-All P none vs rs h all e = subst (All P) (cc) all
select_index-All P (some i) vs rs h all e = elim (Bool-cases (i == 0)) [
  | inl zeroth ↦ absurd (h (ap some ((==_iff i 0).0 zeroth)))
  | inr other ↦ elim (Option-cases (get_elem? vs (i - 1))) [
    | inl missing ↦ absurd (not_some (rw (other, missing, select_index) at e))
    | inr (v, found) ↦
        rw⁻¹ (some_eq (rw (other, found, select_index) at e))
          (get_elem?-All P vs (i - 1) v all found, tt)
  ]
]

module _ (x : External) {W : Type 0} (h : Server W) (bearer : String) (req : Request x) where
  abbrev Writer : Type 0
  Writer = String → ObjectIdentifier → ℕ → Value → Option ℕ → W → CallResult (Unit {0}) × W

  authorize_object-write_property :
      (f : Writer) (o : Option ObjectIdentifier) (op : Operation) (now : ℕ) (s : Session W)
      → authorize_object x (record h { write_property = f }) bearer req o op now s
        ≡ authorize_object x h bearer req o op now s
  unfolding authorize_object cached authorize_in
  authorize_object-write_property f o op now s = refl

  -- For a caller to whom the rules allow write-property under no variable name, a write request
  -- never calls the device's WriteProperty: the reply and the state are the same whatever that
  -- would do.
  pub put_property-denied :
      (path : PropertyPath) (body : Option WriteRequest) (now : ℕ) (s : Session W) (f : Writer)
      → ((name : String) → allowed x h.rules req name write_property ≡ false)
      → put_property x (record h { write_property = f }) bearer req path body now s
        ≡ put_property x h bearer req path body now s
  unfolding put_property
  put_property-denied path body now s f no_rule =
      elim (Option-cases (parse_object_ref path.type_text path.instance_text)) [
        | inl bad ↦ rw (bad, put_property) refl
        | inr (o, e) ↦
            let a = authorize_object x h bearer req (some o) write_property now s in
            let same = authorize_object-write_property f (some o) write_property now s in
            elim (Authorized-cases a.0) [
              | inl (name, through) ↦
                  let may =
                    authorize_object-passed x h bearer req (some o) write_property now s name
                      through in
                  absurd (true-ne-false (sym may ∙ no_rule name))
              | inr (inl (status, turned)) ↦ rw (e, put_property, same, turned) refl
              | inr (inr open_ended) ↦ rw (e, put_property, same, open_ended) refl
            ]
      ]

  -- For a write to be done, the rules must allow the caller write-property under some variable
  -- name.
  pub put_property-written :
      (path : PropertyPath) (body : Option WriteRequest) (now : ℕ) (s : Session W)
      → (put_property x h bearer req path body now s).0 ≡ written_reply
      → (name : String) × (allowed x h.rules req name write_property ≡ true)
  unfolding put_property
  put_property-written path body now s r =
      elim (Option-cases (parse_object_ref path.type_text path.instance_text)) [
        | inl bad ↦ absurd (no_write (rw (bad, put_property) at r))
        | inr (o, e) ↦
            elim (Authorized-cases
              (authorize_object x h bearer req (some o) write_property now s).0) [
                | inl (name, through) ↦ (
                  name,
                  authorize_object-passed x h bearer req (some o) write_property now s name through,
                )
                | inr (inl (status, turned)) ↦ absurd (no_write (rw (e, turned, put_property) at r))
                | inr (inr open_ended) ↦ absurd (never (rw (e, open_ended, put_property) at r))
              ]
      ]
    where
      no_write : {status : ℕ} → error_reply status ≡ written_reply → ⊥
      no_write q = cc

      never : no_reply ≡ written_reply → ⊥
      never q = cc

  -- An element of an object-list whose variable in the snapshot the caller may read.
  abbrev pub Readable : DeviceVars → Value → Type 0
  Readable dv v =
      (o : ObjectIdentifier) × (u : Variable) × (v ≡ primitive (object_id o))
      × (by_id dv.vars o ≡ some u)
      × (access_to x h bearer req (h.as_text u.object_name) ≢ access_none)

  is_shown-Readable :
      (dv : DeviceVars) (v : Value) → is_shown x h bearer req dv v ≡ true → Readable dv v
  unfolding is_shown
  is_shown-Readable dv v e = elim (Option-cases (object_of v)) [
    | inl other ↦ absurd (true-ne-false (sym (rw (other, is_shown) at e)))
    | inr (o, same) ↦ elim (Option-cases (by_id dv.vars o)) [
      | inl unknown ↦ absurd (true-ne-false (sym (rw (same, unknown, is_shown) at e)))
      | inr (u, found) ↦
          (o, u, object_of-eq v o same, found, is_none-eq _ (rw (same, found, is_shown) at e))
    ]
  ]

  shown-Readable :
      (dv : DeviceVars) (vs : List Value) → All (Readable dv) (shown x h bearer req dv vs)
  unfolding shown
  shown-Readable dv [] = tt
  shown-Readable dv (v ∷ vs) = elim (Bool-cases (is_shown x h bearer req dv v)) [
    | inl e ↦ rw (e, shown) (is_shown-Readable dv v e, shown-Readable dv vs)
    | inr e ↦ rw (e, shown) (shown-Readable dv vs)
  ]

  filtered_reply-Readable :
      (dv : DeviceVars) (index : Option ℕ) (a b : Access) (values rs : List Value)
      → index ≢ some 0
      → filtered_reply x h bearer req dv index a values ≡ property_reply rs b
      → All (Readable dv) rs
  unfolding filtered_reply
  filtered_reply-Readable dv index a b values rs i e =
      let visible = shown x h bearer req dv values in
      elim (Option-cases (select_index index visible)) [
        | inl out_of_range ↦ absurd (no_values (rw (out_of_range, filtered_reply) at e))
        | inr (selected, f) ↦
            rw⁻¹ (values_eq (rw (f, filtered_reply) at e))
              (select_index-All (Readable dv) index visible selected i (shown-Readable dv values) f)
      ]

  -- What is served of a device's object-list, except its length, are elements whose variables in
  -- the device's snapshot the caller may read.
  pub serve_filtered-Readable :
      (number now : ℕ) (index : Option ℕ) (a b : Access) (rs : List Value) (s : Session W)
      → index ≢ some 0
      → (serve_filtered x h bearer req number index a now s).0 ≡ property_reply rs b
      → (dv : DeviceVars) × ((cached x h req.device now s).0 ≡ loaded dv) × All (Readable dv) rs
  unfolding serve_filtered
  serve_filtered-Readable number now index a b rs s i e =
      let first = cached x h req.device now s in
      elim (Loaded-cases first.0) [
        | inl (dv, l) ↦ elim (Loaded-cases (read_list x h bearer req number first.1).0) [
          | inl (values, m) ↦ (
            dv,
            l,
            filtered_reply-Readable dv index a b values rs i (rw (l, m, serve_filtered) at e),
          )
          | inr (inl (f, m)) ↦ absurd (no_values (rw (l, m, serve_filtered) at e))
          | inr (inr m) ↦ absurd (nothing_values (rw (l, m, serve_filtered) at e))
        ]
        | inr (inl (f, l)) ↦ absurd (no_values (rw (l, serve_filtered) at e))
        | inr (inr l) ↦ absurd (nothing_values (rw (l, serve_filtered) at e))
      ]
