-- ===== src/IssueNoise/Router/FailOpen.antt =====
-- Scorer errors and the dark launch (router.go), over any store and any workflow service.
use gitscale.Common.{
  ℕ, ◌≡◌, refl, sym, ap, ◌∙◌, Bool, arith, [], ◌∷◌, true, false, Option, none, some, if_rule,
  match_rule,
}
use mathlib.Core.Path.{subst}
use gitscale.Common.Str.{Str}
use gitscale.IssueNoise.{
  Float64, Verdict, normal, Score, IssueDraft, Thresholds, IssueState, open_issue, decide,
  state_for_verdict, NoiseDecision, routing_decided,
}
use gitscale.IssueNoise.Scorer.{ScorerError, empty_score, rule_scorer_version}
use gitscale.IssueNoise.Router.{
  RouterConfig, World, RouteOutcome, RouteResult, route_ok, route_writes, decision_row, start_hold,
  route_verdict, route, trusted, count_error, anchor_issue, insert_decision, write_outbox,
  event_routing_decided,
}

module _ {F S W : Type 0} (fl : Float64 F) (cfg : RouterConfig F S W) where
  -- The store is what one transaction leaves that anchors the issue as open, with the decision `v` and
  -- its event.
  abbrev pub StoresOpen : S → IssueDraft → Verdict → S → Type 0
  StoresOpen stored d v stored' =
      (dec : NoiseDecision F) × (dec.issue_id ≡ d.id)
      × (dec.verdict ≡ v)
      × (stored'
          ≡ (cfg.store.transact stored (
              anchor_issue d open_issue
              ∷ insert_decision dec
              ∷ write_outbox event_routing_decided d.id (routing_decided dec cfg.enforce)
              ∷ [])).0)

  -- The issue is admitted with verdict `v`, in the store too, and no workflow is started.
  abbrev Admits : World S W → IssueDraft → Verdict → World S W × RouteOutcome → Type 0
  Admits w d v (w', out) =
      (r : RouteResult)
      → out ≡ route_ok r
      → (r.verdict ≡ v)
        × (r.state ≡ open_issue)
        × (w'.started ≡ w.started)
        × StoresOpen w.stored d r.verdict w'.stored

  start_hold-stored :
      (d : IssueDraft) (ttl : ℕ) (st : IssueState) (w : World S W)
      → (start_hold fl cfg d ttl st w).stored ≡ w.stored
  unfolding start_hold
  start_hold-stored d ttl st w = ground arith

  start_hold-open :
      (d : IssueDraft) (ttl : ℕ) (st : IssueState) (w : World S W)
      → st ≡ open_issue
      → (start_hold fl cfg d ttl st w).started ≡ w.started
  unfolding start_hold
  start_hold-open d ttl st w e =
      subst (λ x. (start_hold fl cfg d ttl x w).started ≡ w.started) (sym e) refl

  route_verdict-Admits :
      (now fresh : ℕ) (w : World S W) (d : IssueDraft) (t : Thresholds F) (s : Score F)
      (v : Verdict)
      → state_for_verdict v cfg.enforce ≡ open_issue
      → Admits w d v (route_verdict fl cfg now fresh w d t s v)
  unfolding route_verdict route_writes decision_row
  route_verdict-Admits now fresh w d t s v e =
      if_rule (Admits w d v)
        (cfg.store.transact w.stored (
          route_writes fl cfg d (state_for_verdict v cfg.enforce)
            (decision_row fl cfg now fresh d s v))).1
        (λ _ r q. (
          cc,
          verdict_state r q,
          start_hold-open d t.hold_ttl _ _ e,
          (
            row,
            refl,
            cc,
            start_hold-stored d t.hold_ttl _ _
                ∙ ap (λ st. (cfg.store.transact w.stored (route_writes fl cfg d st row)).0) e,
          ),
        ))
        (λ _ r q. absurd (cc))
    where
      row : NoiseDecision F
      row = decision_row fl cfg now fresh d s v

      verdict_state :
          (r : RouteResult)
          → route_ok (record {
            verdict = v;
            state = state_for_verdict v cfg.enforce;
            duplicate_of = s.duplicate_of;
            enforced = cfg.enforce;
          })
            ≡ route_ok r
          → r.state ≡ open_issue
      verdict_state r q = cc

  count_error-started :
      (e : Option ScorerError) (w : World S W) → (count_error fl cfg e w).started ≡ w.started
  count_error-started none w = refl
  count_error-started (some e) w = refl

  count_error-stored :
      (e : Option ScorerError) (w : World S W) → (count_error fl cfg e w).stored ≡ w.stored
  count_error-stored none w = refl
  count_error-stored (some e) w = refl

  -- Counting the scorer's error changes nothing of what is admitted.
  count_error-Admits :
      (e : Option ScorerError) (w : World S W) (d : IssueDraft) (v : Verdict)
      (x : World S W × RouteOutcome)
      → Admits (count_error fl cfg e w) d v x
      → Admits w d v x
  count_error-Admits e w d v x h r q =
      let (verdict, state, started, stored) = h r q in
      (
        verdict,
        state,
        started ∙ count_error-started e w,
        subst (λ z. StoresOpen z d r.verdict x.0.stored) (count_error-stored e w) stored,
      )

  normal_opens : (b : Bool) → state_for_verdict normal b ≡ open_issue
  unfolding state_for_verdict
  normal_opens true = refl
  normal_opens false = refl

  dark_opens : (v : Verdict) → state_for_verdict v false ≡ open_issue
  unfolding state_for_verdict
  dark_opens v = refl

  -- While the verdicts are not enforced, every issue that is routed is open: the answer says so, the
  -- one transaction anchors it as open, with the verdict in the decision alone, and no hold is
  -- started.
  pub route-dark_launch :
      (now fresh : ℕ) (w : World S W) (d : IssueDraft) (r : RouteResult)
      → cfg.enforce ≡ false
      → (route fl cfg now fresh w d).1 ≡ route_ok r
      → (r.state ≡ open_issue)
        × ((route fl cfg now fresh w d).0.started ≡ w.started)
        × StoresOpen w.stored d r.verdict (route fl cfg now fresh w d).0.stored
  unfolding route
  route-dark_launch now fresh w d r dark =
      match_rule P (cfg.thresh d.repo_id) (λ _ q. absurd (cc))
        (λ t _ q.
          let s = trusted fl cfg (cfg.scorer d) in
          let (v, st, same, stored) =
            count_error-Admits (cfg.scorer d).1 w d (decide fl s t)
              (route_verdict fl cfg now fresh (count_error fl cfg (cfg.scorer d).1 w) d t s
                (decide fl s t))
              (route_verdict-Admits now fresh (count_error fl cfg (cfg.scorer d).1 w) d t s
                (decide fl s t)
                (subst (λ b. state_for_verdict (decide fl s t) b ≡ open_issue) (sym dark)
                  (dark_opens (decide fl s t))))
              r q in
          (st, same, stored))
    where
      P : World S W × RouteOutcome → Type 0
      P x =
          x.1 ≡ route_ok r
          → (r.state ≡ open_issue)
            × (x.0.started ≡ w.started)
            × StoresOpen w.stored d r.verdict x.0.stored

  -- The three floors are above the neutral score.
  abbrev pub PositiveFloors : Thresholds F → Type 0
  PositiveFloors t =
      (fl.ge fl.zero t.spam_floor ≡ false)
      × (fl.ge fl.zero t.duplicate_floor ≡ false)
      × (fl.ge fl.zero t.low_quality_floor ≡ false)

  neutral-normal :
      (v : Str) (t : Thresholds F) → PositiveFloors t → decide fl (empty_score fl v) t ≡ normal
  unfolding decide empty_score
  neutral-normal v t (a, b, c) = rw (a, b, c, decide)

  trusted-error :
      (x : Score F × Option ScorerError) (e : ScorerError)
      → x.1 ≡ some e
      → trusted fl cfg x ≡ empty_score fl rule_scorer_version
  trusted-error (s, none) e q = absurd (cc)
  trusted-error (s, some e') e q = refl

  -- Where the scorer fails, an issue that is routed is routed as normal and stays open, in the answer
  -- and in the store, and no hold is started, whatever is enforced, provided that the repository's
  -- three floors are positive.
  pub route-scorer_error :
      (now fresh : ℕ) (w : World S W) (d : IssueDraft) (t : Thresholds F) (e : ScorerError)
      (r : RouteResult)
      → (cfg.scorer d).1 ≡ some e
      → cfg.thresh d.repo_id ≡ some t
      → PositiveFloors t
      → (route fl cfg now fresh w d).1 ≡ route_ok r
      → (r.verdict ≡ normal)
        × (r.state ≡ open_issue)
        × ((route fl cfg now fresh w d).0.started ≡ w.started)
        × StoresOpen w.stored d r.verdict (route fl cfg now fresh w d).0.stored
  unfolding route
  route-scorer_error now fresh w d t e r bad known floors =
      rw
        (
          known,
          trusted-error (cfg.scorer d) e bad,
          neutral-normal rule_scorer_version t floors,
          route,
        )
        (λ q.
          count_error-Admits (cfg.scorer d).1 w d normal
            (route_verdict fl cfg now fresh (count_error fl cfg (cfg.scorer d).1 w) d t
              (empty_score fl rule_scorer_version) normal)
            (route_verdict-Admits now fresh (count_error fl cfg (cfg.scorer d).1 w) d t
              (empty_score fl rule_scorer_version) normal (normal_opens cfg.enforce))
            r q)
