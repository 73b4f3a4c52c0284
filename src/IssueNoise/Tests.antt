-- ===== src/IssueNoise/Tests.antt =====
-- The router at concrete issues, with numbers in thousandths, and its theorems there.
use gitscale.Common.{
  ℕ, ◌+◌, ◌*◌, ◌-◌, ◌/◌, ◌≡◌, ◌≢◌, refl, Bool, true, false, none, some, List, [], ◌∷◌, arith, All,
  ltb, leb, ◌==◌,
}
use gitscale.Common.Str.{codes}
use gitscale.IssueNoise.{
  Float64, OrderOk, IssueDraft, normal, open_issue, default_thresholds, top_candidate, decide,
  state_for_verdict,
}
use gitscale.IssueNoise.Scorer.{
  Rule, rule_failed, score_issue, empty_score, Succeeds, score_issue-none, run_rules, apply_rule,
  add_result, category_duplicate, RuleResult,
}
use gitscale.IssueNoise.Scorer.Bounds.{
  InUnitOrNan, InUnit, AddOk, WeighsNonNeg, score_issue-InUnitOrNan, score_issue-InUnit,
}
use gitscale.IssueNoise.Rules.{
  Backends, length_rule, duplicate_rule, duplicate_rule-ne, top_of, fires,
}
use gitscale.IssueNoise.Router.{RouterConfig, World, RouteResult, route_ok, route, route_verdict}
use gitscale.IssueNoise.Router.Laws.{
  Consistent, NoiseCall, routes, releases, noise_run, noise_run-Consistent,
}
use gitscale.IssueNoise.Router.FailOpen.{StoresOpen, route-dark_launch, route-scorer_error}
use gitscale.IssueNoise.Stub.{
  StubStore, new_stub_store, stub_store, stub_transact, recording, Recorded,
}

abbrev mills : Float64 ℕ
mills = record {
  zero = 0;
  one = 1000;
  add = λ a b. a + b;
  sub = λ a b. a - b;
  lt = ltb;
  ge = λ a b. leb b a;
  is_zero = λ a. a == 0;
  ratio = λ m n. m * 1000 / n;
}

mills-OrderOk : OrderOk mills
mills-OrderOk = record {
  zero_zero = refl;
  one_zero = refl;
  one_one = refl;
  not_lt = λ x y _ _ h. ground (arith, h);
}

abbrev draft : IssueDraft
draft = record {
  id = 7;
  repo_id = 1;
  reporter_id = 2;
  title = [];
  body = codes "short";
  created_at = 3;
}

abbrev length_only : List (Rule ℕ)
length_only = length_rule mills ∷ []

score_issue-InUnitOrNan_example :
    let s = (score_issue mills length_only (λ i. false) draft).0 in
    InUnitOrNan mills s.spam_score
    × InUnitOrNan mills s.low_quality_score
    × InUnitOrNan mills s.duplicate_score
score_issue-InUnitOrNan_example =
    score_issue-InUnitOrNan mills length_only (λ i. false) draft mills-OrderOk

mills-AddOk : AddOk mills
mills-AddOk = record { number = λ x _. ground arith; adds = λ x y _ _. ground arith }

length_weighs : All (λ (rule : Rule ℕ). WeighsNonNeg mills (rule draft)) length_only
unfolding length_rule
length_weighs = (refl, tt)

score_issue-InUnit_example :
    let s = (score_issue mills length_only (λ i. false) draft).0 in
    InUnit mills s.spam_score × InUnit mills s.low_quality_score × InUnit mills s.duplicate_score
score_issue-InUnit_example =
    score_issue-InUnit mills length_only (λ i. false) draft mills-OrderOk mills-AddOk length_weighs

length_scores : (score_issue mills length_only (λ i. false) draft).1 ≡ none
unfolding score_issue run_rules apply_rule add_result length_rule
length_scores = refl

score_issue-none_example : All (λ (rule : Rule ℕ). Succeeds mills (rule draft)) length_only
score_issue-none_example = score_issue-none mills length_only (λ i. false) draft length_scores

abbrev long_draft : IssueDraft
long_draft = record draft { body = codes "the same crash as before, with the same stack" }

abbrev backends : Backends ℕ
backends = record {
  rate_counter = none;
  reputation_lookup = none;
  violation_counter = none;
  duplicate_searcher = some (λ repo body k. some ((7, 999) ∷ (8, 900) ∷ []));
}

abbrev linked_to_eight : RuleResult ℕ
linked_to_eight =
    record (fires mills category_duplicate (codes "duplicate_vespa") 900 (top_candidate 8 900)) {
      duplicate_of = some 8;
    }

finds_eight : duplicate_rule mills backends long_draft ≡ some linked_to_eight
unfolding duplicate_rule top_of
finds_eight = refl

duplicate_rule-ne_example : ◌≢◌ {A = ℕ} 8 7
duplicate_rule-ne_example =
    duplicate_rule-ne mills backends long_draft (λ repo body k. some ((7, 999) ∷ (8, 900) ∷ []))
      ((7, 999) ∷ (8, 900) ∷ []) linked_to_eight 8 refl refl (((λ e. ground arith), tt), (tt, tt))
      finds_eight refl

abbrev failing_config : RouterConfig ℕ (StubStore ℕ) Recorded
failing_config = record {
  store = stub_store;
  scorer = λ d. (empty_score mills [], some rule_failed);
  thresh = λ repo. some (default_thresholds mills);
  workflows = recording;
  enforce = true;
}

abbrev dark_config : RouterConfig ℕ (StubStore ℕ) Recorded
dark_config = record failing_config { enforce = false }

abbrev nothing_started : Recorded
nothing_started = record { holds = []; releases = []; start_fails = false; signal_fails = false }

abbrev world : World (StubStore ℕ) Recorded
world = record { stored = new_stub_store; started = nothing_started; counted = [] }

abbrev calls : List NoiseCall
calls = routes 10 1 draft false ∷ routes 11 2 draft true ∷ releases 12 3 7 1 5 false ∷ []

noise_run-Consistent_example :
    Consistent true (noise_run mills failing_config world calls).stored.tables
noise_run-Consistent_example = noise_run-Consistent mills failing_config nothing_started [] calls

abbrev admitted : Bool → RouteResult
admitted enforced = record {
  verdict = normal;
  state = open_issue;
  duplicate_of = none;
  enforced = enforced;
}

fails_open : (route mills failing_config 10 1 world draft).1 ≡ route_ok (admitted true)
unfolding route route_verdict decide default_thresholds state_for_verdict stub_transact empty_score
    new_stub_store
fails_open = refl

goes_dark : (route mills dark_config 10 1 world draft).1 ≡ route_ok (admitted false)
unfolding route route_verdict decide default_thresholds state_for_verdict stub_transact empty_score
    new_stub_store
goes_dark = refl

route-scorer_error_example :
    (normal ≡ normal)
    × (open_issue ≡ open_issue)
    × ((route mills failing_config 10 1 world draft).0.started ≡ nothing_started)
    × StoresOpen mills failing_config new_stub_store draft normal
        (route mills failing_config 10 1 world draft).0.stored
unfolding default_thresholds
route-scorer_error_example =
    route-scorer_error mills failing_config 10 1 world draft (default_thresholds mills) rule_failed
      (admitted true) refl refl (refl, refl, refl) fails_open

route-dark_launch_example :
    (open_issue ≡ open_issue)
    × ((route mills dark_config 10 1 world draft).0.started ≡ nothing_started)
    × StoresOpen mills dark_config new_stub_store draft normal
        (route mills dark_config 10 1 world draft).0.stored
route-dark_launch_example =
    route-dark_launch mills dark_config 10 1 world draft (admitted false) refl goes_dark
