-- ===== src/IssueNoise/Scorer/Bounds.antt =====
-- The bounds of the scores (rule_scorer.go, and clamp01 of scorer.go).
use gitscale.Common.{
  ℕ, suc, ◌≡◌, ◌⊎◌, inl, inr, refl, All, Bool, true, false, Option, none, some, List, [], ◌∷◌,
  arith, if_rule, match_rule,
}
use mathlib.Core.Path.{subst}
use mathlib.Core.Option.{some-injective}
use gitscale.IssueNoise.{Float64, OrderOk, Score, IssueDraft, clamp01}
use gitscale.IssueNoise.Scorer.{
  Rule, RuleResult, ScorerError, rule_scorer_version, run_rules, apply_rule, add_result,
  score_issue, empty_score,
}

module _ {F : Type 0} (fl : Float64 F) where
  -- At least 0 and at most 1, so not NaN.
  abbrev pub InUnit : F → Type 0
  InUnit x = (fl.ge x fl.zero ≡ true) × (fl.ge fl.one x ≡ true)

  abbrev pub IsNan : F → Type 0
  IsNan x = fl.ge x x ≡ false

  abbrev pub InUnitOrNan : F → Type 0
  InUnitOrNan x = InUnit x ⊎ IsNan x

  unclamped :
      (x : F)
      → OrderOk fl
      → (b : Bool) → fl.lt x fl.zero ≡ false
      → fl.lt fl.one x ≡ false
      → fl.ge x x ≡ b
      → InUnitOrNan x
  unclamped x ok true low high number =
      inl (ok.not_lt x fl.zero number ok.zero_zero low, ok.not_lt fl.one x ok.one_one number high)
  unclamped x ok false low high nan = inr nan

  clamp01-InUnitOrNan : (x : F) → OrderOk fl → InUnitOrNan (clamp01 fl x)
  unfolding clamp01
  clamp01-InUnitOrNan x ok =
      if_rule InUnitOrNan (fl.lt x fl.zero) (λ _. inl (ok.zero_zero, ok.one_zero))
        (λ low.
          if_rule InUnitOrNan (fl.lt fl.one x) (λ _. inl (ok.one_zero, ok.one_one))
            (λ high. unclamped x ok (fl.ge x x) low high refl))

  -- Whatever the rules return, and also where they fail or the context is cancelled, each of the three
  -- scores is at least 0 and at most 1, or it is NaN, which the clamp lets through.
  pub score_issue-InUnitOrNan :
      (rules : List (Rule F)) (done : ℕ → Bool) (d : IssueDraft)
      → OrderOk fl
      → let s = (score_issue fl rules done d).0 in
        InUnitOrNan s.spam_score × InUnitOrNan s.low_quality_score × InUnitOrNan s.duplicate_score
  unfolding score_issue empty_score
  score_issue-InUnitOrNan rules done d ok =
      match_rule P (run_rules fl done d 0 rules (empty_score fl rule_scorer_version, none))
        (λ _. (z, z, z))
        (λ r _. (
          clamp01-InUnitOrNan r.0.spam_score ok,
          clamp01-InUnitOrNan r.0.low_quality_score ok,
          clamp01-InUnitOrNan r.0.duplicate_score ok,
        ))
    where
      P : Score F × Option ScorerError → Type 0
      P r =
          InUnitOrNan r.0.spam_score
          × InUnitOrNan r.0.low_quality_score
          × InUnitOrNan r.0.duplicate_score

      z : InUnitOrNan fl.zero
      z = inl (ok.zero_zero, ok.one_zero)

  -- A number that is not negative.
  abbrev pub NonNeg : F → Type 0
  NonNeg x = fl.ge x fl.zero ≡ true

  -- What IEEE 754 says of numbers that are not negative: they are at least themselves, and a sum of
  -- two is not negative either.
  pub record AddOk : Type 0 where
    pub number : (x : F) → NonNeg x → fl.ge x x ≡ true
    pub adds : (x y : F) → NonNeg x → NonNeg y → NonNeg (fl.add x y)

  clamp01-InUnit : (x : F) → OrderOk fl → AddOk → NonNeg x → InUnit (clamp01 fl x)
  unfolding clamp01
  clamp01-InUnit x ok add h =
      if_rule InUnit (fl.lt x fl.zero) (λ _. (ok.zero_zero, ok.one_zero))
        (λ _.
          if_rule InUnit (fl.lt fl.one x) (λ _. (ok.one_zero, ok.one_one))
            (λ high. (h, ok.not_lt fl.one x ok.one_one (add.number x h) high)))

  abbrev AllNonNeg : Score F × Option ScorerError → Type 0
  AllNonNeg (s, err) = NonNeg s.spam_score × NonNeg s.low_quality_score × NonNeg s.duplicate_score

  -- The rule's result, if there is one, has a weight that is not negative.
  abbrev pub WeighsNonNeg : Option (RuleResult F) → Type 0
  WeighsNonNeg none = Unit
  WeighsNonNeg (some r) = NonNeg r.signal.weight

  add_result-AllNonNeg :
      (acc : Score F × Option ScorerError) (r : RuleResult F)
      → AddOk
      → NonNeg r.signal.weight
      → AllNonNeg acc
      → AllNonNeg (add_result fl acc r)
  unfolding add_result
  add_result-AllNonNeg acc r add w h =
      let spam = add.adds acc.0.spam_score r.signal.weight h.0 w in
      let low = add.adds acc.0.low_quality_score r.signal.weight h.1 w in
      let dup = add.adds acc.0.duplicate_score r.signal.weight h.2 w in
      ground (arith, spam, low, dup)

  apply_rule-AllNonNeg :
      (d : IssueDraft) (rule : Rule F) (acc : Score F × Option ScorerError)
      → AddOk
      → WeighsNonNeg (rule d)
      → AllNonNeg acc
      → AllNonNeg (apply_rule fl d rule acc)
  unfolding apply_rule
  apply_rule-AllNonNeg d rule acc add w h =
      match_rule AllNonNeg (rule d) (λ _. h)
        (λ r e.
          if_rule AllNonNeg (fl.is_zero r.signal.weight) (λ _. h)
            (λ _. add_result-AllNonNeg acc r add (subst WeighsNonNeg e w) h))

  run_rules-AllNonNeg :
      (done : ℕ → Bool) (d : IssueDraft) (i : ℕ) (rs : List (Rule F))
      (acc out : Score F × Option ScorerError)
      → AddOk
      → All (λ rule. WeighsNonNeg (rule d)) rs
      → AllNonNeg acc
      → run_rules fl done d i rs acc ≡ some out
      → AllNonNeg out
  unfolding run_rules
  run_rules-AllNonNeg done d i [] acc out add w h e = subst AllNonNeg (some-injective _ _ e) h
  run_rules-AllNonNeg done d i (r ∷ rs) acc out add w h e =
      let here = apply_rule-AllNonNeg d r acc add w.0 h in
      let later = run_rules-AllNonNeg done d (suc i) rs (apply_rule fl d r acc) out add w.1 here in
      ground (arith, later)

  -- Where no rule returns a weight that is negative or NaN, each of the three scores is at least 0 and
  -- at most 1, also where rules fail or the context is cancelled.
  pub score_issue-InUnit :
      (rules : List (Rule F)) (done : ℕ → Bool) (d : IssueDraft)
      → OrderOk fl
      → AddOk
      → All (λ rule. WeighsNonNeg (rule d)) rules
      → let s = (score_issue fl rules done d).0 in
        InUnit s.spam_score × InUnit s.low_quality_score × InUnit s.duplicate_score
  unfolding score_issue empty_score
  score_issue-InUnit rules done d ok add weights =
      match_rule P (run_rules fl done d 0 rules (empty_score fl rule_scorer_version, none))
        (λ _. (z, z, z))
        (λ r e.
          let (spam, low, dup) =
            run_rules-AllNonNeg done d 0 rules (empty_score fl rule_scorer_version, none) r add
              weights (ok.zero_zero, ok.zero_zero, ok.zero_zero) e in
          (
            clamp01-InUnit r.0.spam_score ok add spam,
            clamp01-InUnit r.0.low_quality_score ok add low,
            clamp01-InUnit r.0.duplicate_score ok add dup,
          ))
    where
      P : Score F × Option ScorerError → Type 0
      P r = InUnit r.0.spam_score × InUnit r.0.low_quality_score × InUnit r.0.duplicate_score

      z : InUnit fl.zero
      z = (ok.zero_zero, ok.one_zero)
