-- ===== src/IssueNoise/Router/Laws.antt =====
-- Histories of Route and Release (router.go) over StubStore (store_stub.go).
use gitscale.Common.{
  ℕ, ◌≡◌, refl, sym, ap, ◌∙◌, ite, Bool, true, false, Option, none, some, List, [], ◌∷◌, ◌++◌, map,
  arith, ℕ_discrete, if◌then◌else◌, if_rule, match_rule, Bool-cases, inl, inr, ◌==◌,
}
use mathlib.Core.Option
use mathlib.Core.Path.{subst}
use gitscale.Common.Map.{lookup, insert, lookup-insert}
use gitscale.Common.Str.{Str}
use gitscale.IssueNoise.{
  Float64, Verdict, normal, Score, IssueDraft, Thresholds, IssueState, open_issue, held,
  auto_closed_spam, closed, NoiseDecision, Payload, routing_decided, released, state_for_verdict,
}
use gitscale.IssueNoise.Scorer.{ScorerError}
use gitscale.IssueNoise.Router.{
  RouterConfig, World, Metric, RouteOutcome, event_routing_decided, event_released, route_writes,
  decision_row, start_hold, route_verdict, route, release, release_row, count_error,
}
use gitscale.IssueNoise.Stub.{
  StubOutboxRow, Tables, StubStore, new_stub_store, stub_write, stub_writes, merge_issues,
  stub_transact, stub_store,
}

-- The event that a decision has to have: a maintainer's is a release.
unfoldable pub event_of : {F : Type 0} → Bool → NoiseDecision F → StubOutboxRow F
event_of enforce d = elim d.decided_by [
  | none ↦ record {
    event_type = event_routing_decided;
    aggregate_id = d.issue_id;
    payload = routing_decided d enforce;
  }
  | some maintainer ↦ record {
    event_type = event_released;
    aggregate_id = d.issue_id;
    payload = released d.issue_id d.repo_id maintainer d.decided_at;
  }
]

-- The verdict of the last decision on an issue.
unfoldable pub last_verdict : {F : Type 0} → ℕ → List (NoiseDecision F) → Option Verdict
last_verdict id [] = none
last_verdict id (d ∷ ds) = elim (last_verdict id ds) [
  | some v ↦ some v
  | none ↦ if d.issue_id == id then some d.verdict else none
]

-- Every decision has its event, in order, and every issue stands as its last decision says.
pub record Consistent {F : Type 0} (enforce : Bool) (t : Tables F) : Type 0 where
  pub events : t.outbox ≡ map (event_of enforce) t.decisions
  pub states :
      (id : ℕ)
      → lookup ℕ_discrete id t.issues
        ≡ Option.map (λ v. state_for_verdict v enforce) (last_verdict id t.decisions)

map-append :
    {A B : Type 0} (f : A → B) (xs : List A) (x : A) → map f (xs ++ x ∷ []) ≡ map f xs ++ f x ∷ []
map-append f [] x = refl
map-append f (y ∷ xs) x = rw (map-append f xs x)

last_verdict-append :
    {F : Type 0} (id : ℕ) (ds : List (NoiseDecision F)) (d : NoiseDecision F)
    → last_verdict id (ds ++ d ∷ [])
      ≡ (if d.issue_id == id then some d.verdict else last_verdict id ds)
unfolding last_verdict
last_verdict-append id [] d = ground arith
last_verdict-append id (x ∷ ds) d = ground (arith, last_verdict-append id ds d)

-- The tables after a transaction of the router.
abbrev pub committed :
    {F : Type 0} → Tables F → IssueState → NoiseDecision F → Str → Payload F → Tables F
committed t st dec ev payload = record {
  issues = insert ℕ_discrete dec.issue_id st t.issues;
  decisions = t.decisions ++ dec ∷ [];
  outbox =
      t.outbox ++ record { event_type = ev; aggregate_id = dec.issue_id; payload = payload } ∷ [];
}

committed-Consistent :
    {F : Type 0} (enforce : Bool) (t : Tables F) (dec : NoiseDecision F) (ev : Str)
    (payload : Payload F)
    → record { event_type = ev; aggregate_id = dec.issue_id; payload = payload }
      ≡ event_of enforce dec
    → Consistent enforce t
    → Consistent enforce (committed t (state_for_verdict dec.verdict enforce) dec ev payload)
committed-Consistent enforce t dec ev payload e h = record {
  events =
      ap
        (λ xs.
          xs ++ record { event_type = ev; aggregate_id = dec.issue_id; payload = payload } ∷ [])
        h.events
      ∙ ap (λ x. map (event_of enforce) t.decisions ++ x ∷ []) e
      ∙ sym (map-append (event_of enforce) t.decisions dec);
  states = λ id. states_after id;
}
  where
    by_test :
        (v : Verdict) (id : ℕ) (was : Option IssueState) (old : Option Verdict)
        → was ≡ Option.map (λ v. state_for_verdict v enforce) old
        → ite (ℕ_discrete dec.issue_id id) (some (state_for_verdict v enforce)) was
          ≡ Option.map
              (λ v. state_for_verdict v enforce)
              (if dec.issue_id == id then some v else old)
    by_test v id was old q = ground arith

    states_after :
        (id : ℕ)
        → lookup ℕ_discrete id
            (insert ℕ_discrete dec.issue_id (state_for_verdict dec.verdict enforce) t.issues)
          ≡ Option.map
              (λ v. state_for_verdict v enforce)
              (last_verdict id (t.decisions ++ dec ∷ []))
    states_after id =
        lookup-insert ℕ_discrete dec.issue_id id (state_for_verdict dec.verdict enforce) t.issues
        ∙ by_test dec.verdict id _ _ (h.states id)
        ∙ ap (Option.map (λ v. state_for_verdict v enforce))
            (sym (last_verdict-append id t.decisions dec))

pub data NoiseCall : Type 0 where
  routes : ℕ → ℕ → IssueDraft → Bool → NoiseCall
  releases : ℕ → ℕ → ℕ → ℕ → ℕ → Bool → NoiseCall

abbrev failing : {F W : Type 0} → Bool → World (StubStore F) W → World (StubStore F) W
failing fails w = record w { stored = record { tables = w.stored.tables; fail_on_tx = fails } }

module _ {F W : Type 0} (fl : Float64 F) (cfg : RouterConfig F (StubStore F) W) where
  -- The router on the stub store.
  abbrev pub on_stub : RouterConfig F (StubStore F) W
  on_stub = record cfg { store = stub_store }

  abbrev Good : World (StubStore F) W → Type 0
  Good w = Consistent cfg.enforce w.stored.tables

  transact_route :
      (s : StubStore F) (now fresh : ℕ) (d : IssueDraft) (sc : Score F) (v : Verdict)
      → Consistent cfg.enforce s.tables
      → Consistent cfg.enforce
          (stub_transact s (
            route_writes fl on_stub d
              (state_for_verdict v cfg.enforce)
              (decision_row fl on_stub now fresh d sc v))).0.tables
  unfolding stub_transact route_writes stub_writes stub_write merge_issues insert decision_row
      event_of
  transact_route s now fresh d sc v h =
      if_rule (λ (r : StubStore F × Bool). Consistent cfg.enforce r.0.tables) s.fail_on_tx (λ _. h)
        (λ _.
          committed-Consistent cfg.enforce s.tables (decision_row fl on_stub now fresh d sc v)
            event_routing_decided
            (routing_decided (decision_row fl on_stub now fresh d sc v) cfg.enforce) refl h)

  start_hold-stored :
      (d : IssueDraft) (ttl : ℕ) (st : IssueState) (w : World (StubStore F) W)
      → (start_hold fl on_stub d ttl st w).stored ≡ w.stored
  unfolding start_hold
  start_hold-stored d ttl held w = refl
  start_hold-stored d ttl open_issue w = refl
  start_hold-stored d ttl auto_closed_spam w = refl
  start_hold-stored d ttl closed w = refl

  route_verdict-Good :
      (now fresh : ℕ) (w : World (StubStore F) W) (d : IssueDraft) (t : Thresholds F) (s : Score F)
      (v : Verdict)
      → Good w
      → Good (route_verdict fl on_stub now fresh w d t s v).0
  unfolding route_verdict
  route_verdict-Good now fresh w d t s v h =
      if_rule (λ (r : World (StubStore F) W × RouteOutcome). Good r.0)
        (stub_transact w.stored (
          route_writes fl on_stub d (state_for_verdict v cfg.enforce)
            (decision_row fl on_stub now fresh d s v))).1
        (λ _.
          rw (start_hold-stored d t.hold_ttl (state_for_verdict v cfg.enforce) _)
            (transact_route w.stored now fresh d s v h))
        (λ _. transact_route w.stored now fresh d s v h)

  count_error-Good :
      (e : Option ScorerError) (w : World (StubStore F) W)
      → Good w
      → Good (count_error fl on_stub e w)
  count_error-Good none w h = h
  count_error-Good (some e) w h = h

  route-Good :
      (now fresh : ℕ) (w : World (StubStore F) W) (d : IssueDraft)
      → Good w
      → Good (route fl on_stub now fresh w d).0
  unfolding route
  route-Good now fresh w d h =
      match_rule (λ (r : World (StubStore F) W × RouteOutcome). Good r.0) (cfg.thresh d.repo_id)
        (λ _. h)
        (λ t _. route_verdict-Good now fresh _ d t _ _ (count_error-Good (cfg.scorer d).1 w h))

  normal_opens : (b : Bool) → state_for_verdict normal b ≡ open_issue
  unfolding state_for_verdict
  normal_opens true = refl
  normal_opens false = refl

  released_tables :
      (now fresh issue repo maintainer : ℕ) (t : Tables F)
      → Consistent cfg.enforce t
      → Consistent cfg.enforce (
          committed t open_issue
            (release_row fl on_stub now fresh issue repo maintainer)
            event_released
            (released issue repo maintainer now))
  unfolding release_row event_of
  released_tables now fresh issue repo maintainer t h =
      subst
        (λ st. Consistent cfg.enforce (
          committed t st (release_row fl on_stub now fresh issue repo maintainer) event_released
            (released issue repo maintainer now)))
        (normal_opens cfg.enforce)
        (committed-Consistent cfg.enforce t (release_row fl on_stub now fresh issue repo maintainer)
          event_released (released issue repo maintainer now) refl h)

  release-Good :
      (now fresh : ℕ) (w : World (StubStore F) W) (issue repo maintainer : ℕ)
      → Good w
      → Good (release fl on_stub now fresh w issue repo maintainer).0
  unfolding release release_row stub_transact stub_writes stub_write merge_issues insert
  release-Good now fresh w issue repo maintainer h = elim (Bool-cases w.stored.fail_on_tx) [
    | inl e ↦ rw (e, release) h
    | inr e ↦ rw (e, release) (released_tables now fresh issue repo maintainer w.stored.tables h)
  ]

  -- A call, and whether the store fails its transaction.
  step : World (StubStore F) W → NoiseCall → World (StubStore F) W
  step w (routes now fresh d fails) = (route fl on_stub now fresh (failing fails w) d).0
  step w (releases now fresh issue repo maintainer fails) =
      (release fl on_stub now fresh (failing fails w) issue repo maintainer).0

  unfoldable pub noise_run : World (StubStore F) W → List NoiseCall → World (StubStore F) W
  unfolding step
  noise_run w [] = w
  noise_run w (c ∷ cs) = noise_run (step w c) cs

  step-Good : (w : World (StubStore F) W) (c : NoiseCall) → Good w → Good (step w c)
  unfolding step
  step-Good w (routes now fresh d fails) h = route-Good now fresh (failing fails w) d h
  step-Good w (releases now fresh issue repo maintainer fails) h =
      release-Good now fresh (failing fails w) issue repo maintainer h

  run-Good : (w : World (StubStore F) W) (cs : List NoiseCall) → Good w → Good (noise_run w cs)
  unfolding noise_run
  run-Good w [] h = h
  run-Good w (c ∷ cs) h = run-Good (step w c) cs (step-Good w c h)

  -- After any calls of Route and Release on a new stub store, some of whose transactions fail: the
  -- outbox is the events of the decisions, one for each, in order, and every issue is in the state
  -- that its last decision calls for.
  pub noise_run-Consistent :
      (started : W) (counted : List Metric) (cs : List NoiseCall)
      → Consistent cfg.enforce
          (noise_run
            (record { stored = new_stub_store; started = started; counted = counted })
            cs).stored.tables
  unfolding new_stub_store lookup last_verdict
  noise_run-Consistent started counted cs =
      run-Good (record { stored = new_stub_store; started = started; counted = counted }) cs
        (record { events = refl; states = λ id. refl })
