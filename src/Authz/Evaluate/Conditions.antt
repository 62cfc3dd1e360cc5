-- ===== src/Authz/Evaluate/Conditions.antt =====
-- What the match modes mean: the engine counts the conditions that match, and the four modes are
-- tests on that count.
use bacnet_ip_rest_proxy.Prelude.{
  ℕ, suc, ◌≤◌, ◌≡◌, refl, Bool, true, false, not, ◌&&◌, ◌||◌, List, [], ◌∷◌, none, ltb, ◌==◌,
  if◌then◌else◌, arith, length,
}
use bacnet_ip_rest_proxy.Authz.{
  External, Condition, Rule, Request, MatchMode, match_none, match_not_all, match_any, match_all,
  other_mode,
}
use bacnet_ip_rest_proxy.Authz.Match.{match_condition, mode_applies}
use bacnet_ip_rest_proxy.Authz.Evaluate.{conditions_loop, evaluate_conditions}

unfoldable pub all_of : List Bool → Bool
all_of [] = true
all_of (b ∷ bs) = b && all_of bs

unfoldable pub any_of : List Bool → Bool
any_of [] = false
any_of (b ∷ bs) = b || any_of bs

-- The README's words for the modes.
unfoldable pub mode_meaning : MatchMode → List Bool → Bool
mode_meaning match_all bs = all_of bs
mode_meaning match_any bs = any_of bs
mode_meaning match_none bs = not (any_of bs)
mode_meaning match_not_all bs = not (all_of bs)
mode_meaning (other_mode s) bs = false

count : List Bool → ℕ
count [] = 0
count (b ∷ bs) = let n = count bs in if b then suc n else n

count-le : (bs : List Bool) → count bs ≤ length bs
unfolding count
count-le [] = omega arith
count-le (true ∷ bs) = let ih = count-le bs in omega arith
count-le (false ∷ bs) = let ih = count-le bs in omega arith

count-all_of : (bs : List Bool) → (count bs == length bs) ≡ all_of bs
unfolding count all_of
count-all_of [] = refl
count-all_of (true ∷ bs) = let ih = count-all_of bs in ground arith
count-all_of (false ∷ bs) = let k = count-le bs in ground arith

count-ltb : (bs : List Bool) → ltb (count bs) (length bs) ≡ not (all_of bs)
unfolding count all_of
count-ltb [] = refl
count-ltb (true ∷ bs) = let ih = count-ltb bs in ground arith
count-ltb (false ∷ bs) = let k = count-le bs in ground arith

count-any_of : (bs : List Bool) → ltb 0 (count bs) ≡ any_of bs
unfolding count any_of
count-any_of [] = refl
count-any_of (true ∷ bs) = ground arith
count-any_of (false ∷ bs) = count-any_of bs

count-zero : (bs : List Bool) → (count bs == 0) ≡ not (any_of bs)
unfolding count any_of
count-zero [] = refl
count-zero (true ∷ bs) = ground arith
count-zero (false ∷ bs) = count-zero bs

mode_applies-count :
    (mode : MatchMode) (bs : List Bool)
    → mode_applies mode (count bs) (length bs) ≡ mode_meaning mode bs
unfolding mode_applies mode_meaning
mode_applies-count match_none bs = count-zero bs
mode_applies-count match_not_all bs = count-ltb bs
mode_applies-count match_any bs = count-any_of bs
mode_applies-count match_all bs = count-all_of bs
mode_applies-count (other_mode s) bs = refl

module _ (x : External) (req : Request x) where
  abbrev pub outcomes : List Condition → List Bool
  outcomes [] = []
  outcomes (c ∷ cs) = match_condition x c req ∷ outcomes cs

  conditions_loop-count : (cs : List Condition) → (conditions_loop x cs req).0 ≡ count (outcomes cs)
  unfolding conditions_loop count
  conditions_loop-count [] = refl
  conditions_loop-count (c ∷ cs) = rw (conditions_loop-count cs)

  length-outcomes : (cs : List Condition) → length cs ≡ length (outcomes cs)
  length-outcomes [] = refl
  length-outcomes (c ∷ cs) = let ih = length-outcomes cs in omega arith

  -- A rule applies exactly where its mode's meaning holds of its conditions: `all` where every one
  -- of them matches the request, `any` where one does, `none` where none does, `not-all` where one
  -- does not, and a rule with another mode never applies.
  pub evaluate_conditions-mode_meaning :
      (r : Rule)
      → (evaluate_conditions x r req none).0 ≡ mode_meaning r.mode (outcomes r.conditions)
  unfolding evaluate_conditions
  evaluate_conditions-mode_meaning r = rw (
    conditions_loop-count r.conditions,
    length-outcomes r.conditions,
    mode_applies-count r.mode (outcomes r.conditions),
  )
