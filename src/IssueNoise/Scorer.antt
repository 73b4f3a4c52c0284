-- ===== src/IssueNoise/Scorer.antt =====
-- RuleScorer (rule_scorer.go). A rule's answer is `none` where it returns an error; `done i` is
-- whether the context is cancelled when the loop comes to rule `i`.
pub mod Bounds
use gitscale.Common.{
  ℕ, suc, ◌≡◌, ◌≢◌, ◌⊎◌, inl, inr, refl, All, Bool, true, false, Option, none, some, List, [], ◌∷◌,
  ◌++◌, arith, if◌then◌else◌, if_rule, match_rule,
}
use mathlib.Core.Path.{subst}
use mathlib.Core.Option.{some-injective}
use gitscale.Common.Str.{Str, codes}
use gitscale.IssueNoise.{Float64, OrderOk, Signal, Score, IssueDraft, clamp01}

pub data Category : Type 0 where
  category_spam category_low_quality category_duplicate other_category : Category

pub record RuleResult (F : Type 0) : Type 0 where
  pub signal : Signal F
  pub category : Category
  pub duplicate_of : Option ℕ

-- Input is IssueDraft without its time.
abbrev pub Rule : Type 0 → Type 0
Rule F = IssueDraft → Option (RuleResult F)

pub data ScorerError : Type 0 where
  cancelled rule_failed unknown_category : ScorerError

abbrev pub rule_scorer_version : Str
rule_scorer_version = codes "rule-v1"

-- `if firstErr == nil { firstErr = err }`
abbrev pub first_error : Option ScorerError → ScorerError → Option ScorerError
first_error none e = some e
first_error (some e') e = some e'

abbrev pub or_else : Option ℕ → Option ℕ → Option ℕ
or_else none old = old
or_else (some id) old = some id

module _ {F : Type 0} (fl : Float64 F) where
  -- Score{ScorerVersion: RuleScorerVersion}
  unfoldable pub empty_score : Str → Score F
  empty_score version = record {
    spam_score = fl.zero;
    low_quality_score = fl.zero;
    duplicate_score = fl.zero;
    duplicate_of = none;
    signals = [];
    scorer_version = version;
  }

  abbrev pub add_signal : Score F → Signal F → Score F
  add_signal out s = record out { signals = out.signals ++ s ∷ [] }

  -- The switch on the category.
  unfoldable pub add_result :
      Score F × Option ScorerError → RuleResult F → Score F × Option ScorerError
  add_result (out, err) r = elim r.category [
    | category_spam ↦ (
      add_signal (record out { spam_score = fl.add out.spam_score r.signal.weight }) r.signal,
      err,
    )
    | category_low_quality ↦ (
      add_signal (record out { low_quality_score = fl.add out.low_quality_score r.signal.weight })
          r.signal,
      err,
    )
    | category_duplicate ↦ (
      add_signal
          (record out {
            duplicate_score = fl.add out.duplicate_score r.signal.weight;
            duplicate_of = or_else r.duplicate_of out.duplicate_of;
          })
          r.signal,
      err,
    )
    | other_category ↦ (out, first_error err unknown_category)
  ]

  -- One rule of the loop.
  unfoldable pub apply_rule :
      IssueDraft → Rule F → Score F × Option ScorerError → Score F × Option ScorerError
  unfolding add_result
  apply_rule d rule (out, err) = elim (rule d) [
    | none ↦ (out, first_error err rule_failed)
    | some r ↦ if fl.is_zero r.signal.weight then (out, err) else add_result (out, err) r
  ]

  -- The loop from rule `i` on; `none` is the return on a cancelled context.
  unfoldable pub run_rules :
      (ℕ → Bool)
      → IssueDraft
      → ℕ
      → List (Rule F)
      → Score F × Option ScorerError
      → Option (Score F × Option ScorerError)
  unfolding apply_rule
  run_rules done d i [] acc = some acc
  run_rules done d i (r ∷ rs) acc =
      let rest = run_rules done d (suc i) rs (apply_rule d r acc) in if done i then none else rest

  abbrev pub clamp_score : Score F → Score F
  clamp_score s = record s {
    spam_score = clamp01 fl s.spam_score;
    low_quality_score = clamp01 fl s.low_quality_score;
    duplicate_score = clamp01 fl s.duplicate_score;
  }

  -- RuleScorer.Score: the score and the error are both returned.
  unfoldable pub score_issue :
      List (Rule F) → (ℕ → Bool) → IssueDraft → Score F × Option ScorerError
  unfolding run_rules empty_score
  score_issue rules done d =
      elim (run_rules done d 0 rules (empty_score rule_scorer_version, none)) [
        | none ↦ (empty_score [], some cancelled)
        | some (out, err) ↦ (clamp_score out, err)
      ]

  -- A rule that the scorer can add up.
  abbrev pub Succeeds : Option (RuleResult F) → Type 0
  Succeeds none = ⊥
  Succeeds (some r) = (fl.is_zero r.signal.weight ≡ true) ⊎ (r.category ≢ other_category)

  add_result-none :
      (acc : Score F × Option ScorerError) (r : RuleResult F)
      → (add_result acc r).1 ≡ none
      → (acc.1 ≡ none) × (r.category ≢ other_category)
  unfolding add_result
  add_result-none acc r e = ground arith

  apply_rule-none :
      (d : IssueDraft) (rule : Rule F) (acc : Score F × Option ScorerError)
      → (apply_rule d rule acc).1 ≡ none
      → (acc.1 ≡ none) × Succeeds (rule d)
  unfolding apply_rule
  apply_rule-none d rule acc e = ground (arith, add_result-none acc)

  run_rules-none :
      (done : ℕ → Bool) (d : IssueDraft) (i : ℕ) (rs : List (Rule F))
      (acc out : Score F × Option ScorerError)
      → run_rules done d i rs acc ≡ some out
      → out.1 ≡ none
      → (acc.1 ≡ none) × All (λ rule. Succeeds (rule d)) rs
  unfolding run_rules
  run_rules-none done d i [] acc out e n = (ground arith, tt)
  run_rules-none done d i (r ∷ rs) acc out e n =
      let ih = run_rules-none done d (suc i) rs (apply_rule d r acc) out in
      let here = apply_rule-none d r acc in ground (arith, ih, here)

  -- Score returns no error only if every rule returned a result, of weight 0 or of a known category:
  -- one failing rule is an error of the whole.
  pub score_issue-none :
      (rules : List (Rule F)) (done : ℕ → Bool) (d : IssueDraft)
      → (score_issue rules done d).1 ≡ none
      → All (λ rule. Succeeds (rule d)) rules
  unfolding score_issue
  score_issue-none rules done d =
      match_rule
        (λ (r : Score F × Option ScorerError). r.1 ≡ none → All (λ rule. Succeeds (rule d)) rules)
        (run_rules done d 0 rules (empty_score rule_scorer_version, none)) (λ _ e. absurd (cc))
        (λ out found e. (run_rules-none done d 0 rules _ out found e).1)
