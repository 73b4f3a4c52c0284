-- ===== src/IssueNoise/Router.antt =====
-- Router (router.go), over the interfaces of store.go and workflow_starter.go. The function that a
-- transaction runs is the list of its writes: it stops at the first that fails. Logging and the
-- duration metric are left out.
pub mod Laws
pub mod FailOpen
use gitscale.Common.{ℕ, Bool, true, false, Option, none, some, List, [], ◌∷◌, ◌++◌, if◌then◌else◌}
use gitscale.Common.Str.{Str, codes}
use gitscale.IssueNoise.{
  Float64, Verdict, normal, verdict_name, Score, IssueDraft, Thresholds, IssueState, open_issue,
  held, NoiseDecision, Payload, routing_decided, released, decide, state_for_verdict,
}
use gitscale.IssueNoise.Scorer.{ScorerError, empty_score, rule_scorer_version}

-- The methods of Tx.
pub data Write (F : Type 0) : Type 0 where
  anchor_issue : IssueDraft → IssueState → Write F
  set_issue_state : ℕ → IssueState → Write F
  insert_decision : NoiseDecision F → Write F
  write_outbox : Str → ℕ → Payload F → Write F

-- Store: the writes of one transaction, and whether it returned nil.
pub record Store (F S : Type 0) : Type 0 where
  pub transact : S → List (Write F) → S × Bool

pub record HoldExpiryParams : Type 0 where
  pub issue_id : ℕ
  pub repo_id : ℕ
  pub hold_ttl : ℕ

-- WorkflowStarter; `false` is an error.
pub record WorkflowStarter (W : Type 0) : Type 0 where
  pub start_hold_expiry : W → HoldExpiryParams → W × Bool
  pub signal_release : W → ℕ → W × Bool

pub data Metric : Type 0 where
  inc_route : Str → Metric
  inc_scorer_error : Metric

pub record RouteResult : Type 0 where
  pub verdict : Verdict
  pub state : IssueState
  pub duplicate_of : Option ℕ
  pub enforced : Bool

pub data RouteOutcome : Type 0 where
  route_ok : RouteResult → RouteOutcome
  no_thresholds tx_failed : RouteOutcome

pub record RouterConfig (F S W : Type 0) : Type 0 where
  pub store : Store F S
  pub scorer : IssueDraft → Score F × Option ScorerError
  pub thresh : ℕ → Option (Thresholds F)
  pub workflows : WorkflowStarter W
  pub enforce : Bool

-- What the router writes to: the store, the workflows, the counters.
pub record World (S W : Type 0) : Type 0 where
  pub stored : S
  pub started : W
  pub counted : List Metric

abbrev pub event_routing_decided : Str
event_routing_decided = codes "issue_noise.routing_decided"

abbrev pub event_released : Str
event_released = codes "issue_noise.released"

module _ {F S W : Type 0} (fl : Float64 F) (cfg : RouterConfig F S W) where
  abbrev pub count : Metric → World S W → World S W
  count m w = record w { counted = w.counted ++ m ∷ [] }

  -- The score that Route goes on with: on an error a neutral one.
  abbrev pub trusted : Score F × Option ScorerError → Score F
  trusted (s, none) = s
  trusted (s, some _) = empty_score fl rule_scorer_version

  abbrev pub count_error : Option ScorerError → World S W → World S W
  count_error none w = w
  count_error (some _) w = count inc_scorer_error w

  unfoldable pub decision_row : ℕ → ℕ → IssueDraft → Score F → Verdict → NoiseDecision F
  decision_row now fresh d s v = record {
    decision_id = fresh;
    issue_id = d.id;
    repo_id = d.repo_id;
    reporter_id = d.reporter_id;
    verdict = v;
    score = s;
    decided_at = now;
    decided_by = none;
  }

  -- The transaction of Route.
  unfoldable pub route_writes : IssueDraft → IssueState → NoiseDecision F → List (Write F)
  route_writes d state dec =
      anchor_issue d state
      ∷ insert_decision dec
      ∷ write_outbox event_routing_decided d.id (routing_decided dec cfg.enforce)
      ∷ []

  -- The side effect after the commit, whose error is only logged.
  unfoldable pub start_hold : IssueDraft → ℕ → IssueState → World S W → World S W
  start_hold d ttl held w = record w {
    started =
        (cfg.workflows.start_hold_expiry w.started
          (record { issue_id = d.id; repo_id = d.repo_id; hold_ttl = ttl })).0;
  }
  start_hold d ttl _ w = w

  -- Route, once the score is settled and the verdict is `v`.
  unfoldable pub route_verdict :
      ℕ → ℕ → World S W → IssueDraft → Thresholds F → Score F → Verdict → World S W × RouteOutcome
  unfolding route_writes decision_row start_hold
  route_verdict now fresh w d t s v =
      let state = state_for_verdict v cfg.enforce in
      let (stored, committed) =
        cfg.store.transact w.stored (route_writes d state (decision_row now fresh d s v)) in
      if committed
      then (
        start_hold d t.hold_ttl state
            (count (inc_route (verdict_name v)) (record w { stored = stored })),
        route_ok (record {
          verdict = v;
          state = state;
          duplicate_of = s.duplicate_of;
          enforced = cfg.enforce;
        }),
      )
      else (record w { stored = stored }, tx_failed)

  -- Route
  unfoldable pub route : ℕ → ℕ → World S W → IssueDraft → World S W × RouteOutcome
  unfolding route_verdict
  route now fresh w d = elim (cfg.thresh d.repo_id) [
    | none ↦ (w, no_thresholds)
    | some t ↦
        let scored = cfg.scorer d in
        let s = trusted scored in
        route_verdict now fresh (count_error scored.1 w) d t s (decide fl s t)
  ]

  -- The decision of a release: the reporter is not known, and the maintainer decides.
  unfoldable pub release_row : ℕ → ℕ → ℕ → ℕ → ℕ → NoiseDecision F
  release_row now fresh issue_id repo_id maintainer_id = record {
    decision_id = fresh;
    issue_id = issue_id;
    repo_id = repo_id;
    reporter_id = 0;
    verdict = normal;
    score = empty_score fl (codes "manual");
    decided_at = now;
    decided_by = some maintainer_id;
  }

  -- Release; `false` is an error.
  unfoldable pub release : ℕ → ℕ → World S W → ℕ → ℕ → ℕ → World S W × Bool
  unfolding release_row
  release now fresh w issue_id repo_id maintainer_id =
      let (stored, committed) = cfg.store.transact w.stored (
        set_issue_state issue_id open_issue
        ∷ insert_decision (release_row now fresh issue_id repo_id maintainer_id)
        ∷ write_outbox event_released issue_id (released issue_id repo_id maintainer_id now)
        ∷ []) in
      if committed
      then (
        record w { stored = stored; started = (cfg.workflows.signal_release w.started issue_id).0 },
        true,
      )
      else (record w { stored = stored }, false)
