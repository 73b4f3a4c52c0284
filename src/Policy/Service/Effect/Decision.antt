-- ===== src/Policy/Service/Effect/Decision.antt =====
-- The effect of RecordDecision (memservice.go), on each of its branches.
use gitscale.Common.{
  ℕ, ◌≡◌, refl, Bool, true, false, not, ◌||◌, some, arith, length, ltb, if_rule, match_rule,
}
use gitscale.Common.Int.{ℤ, pos, get_at, ◌≤ℤ◌, leb_ℤ, eq_ℤ}
use gitscale.Common.Map.{lookup}
use gitscale.Common.Str.{Str-discrete}
use gitscale.Policy.Types.{PlanStatus, pending, approved, rejected, expired, ApproverGroup}
use gitscale.Policy.Env.{Env}
use gitscale.Policy.Service.{MemService, MemPlan, Outcome, is_pending, contains}
use gitscale.Policy.Service.Decide.{
  DecisionInput, DecisionOutcome, votes_at, add_vote, tally, vote, decide_rung, record_decision,
  has_reason, has_expired,
}
use gitscale.Policy.Service.Quorum.{MeetsQuorum, group_at, group_at-some, add_vote-pos}
use gitscale.Policy.Service.History.{find_plan}
use gitscale.Policy.Service.Effect.{
  Change, Effect, same, wrote, closed, rejected_by, approved_by, is_pending→,
}

tally-Effect :
    (env : Env) (now : ℕ) (s : MemService) (i : DecisionInput) (mp mp' : MemPlan)
    (g : ApproverGroup)
    → find_plan i.plan_id s ≡ some mp
    → Change mp (record mp' { status = rejected })
    → (length (votes_at i.rung_index mp'.rejections) ≡ 0
        → g.required_count ≤ℤ pos (length (votes_at i.rung_index mp'.approvals))
        → Change mp (record mp' { status = approved }))
    → (length (votes_at i.rung_index mp'.rejections) ≡ 0 → Change mp mp')
    → Effect env s (tally env now s i mp' g).0
unfolding tally
tally-Effect env now s i mp mp' g e nay yeah more =
    if_rule P (ltb 0 nays) (λ _. wrote i.plan_id mp _ _ _ _ _ now e nay refl)
      (λ z.
        if_rule P (leb_ℤ g.required_count (pos yeas))
          (λ q. wrote i.plan_id mp _ _ _ _ _ now e (yeah (ground arith) (ground arith)) refl)
          (λ _. wrote i.plan_id mp _ _ _ _ _ now e (more (ground arith)) refl))
  where
    yeas : ℕ
    yeas = length (votes_at i.rung_index mp'.approvals)

    nays : ℕ
    nays = length (votes_at i.rung_index mp'.rejections)

    P : MemService × Outcome DecisionOutcome → Type 0
    P r = Effect env s r.0

vote-Effect :
    (env : Env) (now : ℕ) (s : MemService) (i : DecisionInput) (mp : MemPlan) (g : ApproverGroup)
    → find_plan i.plan_id s ≡ some mp
    → mp.status ≡ pending
    → i.rung_index ≡ mp.current_rung
    → group_at mp.policy mp.ladder i.rung_index ≡ some g
    → contains g.human_user_ids i.actor_id ≡ true
    → Effect env s (vote env now s i mp g).0
unfolding vote
vote-Effect env now s i mp g e h z at member =
    if_rule P i.approve
      (λ _.
        tally-Effect env now s i mp
          (record mp { approvals = add_vote i.rung_index i.actor_id mp.approvals }) g e
          (approves rejected (λ e. absurd (cc))) (λ _ q. approves approved (λ _. rw at q))
          (λ _. approves mp.status (λ e. absurd (cc))))
      (λ _.
        if_rule P (not (has_reason i.reason)) (λ _. same refl)
          (λ _.
            let some_nay = add_vote-pos i.rung_index i.actor_id mp.rejections in
            tally-Effect env now s i mp
              (record mp { rejections = add_vote i.rung_index i.actor_id mp.rejections }) g e
              (rejected_by mp _ h) (λ none. absurd (omega arith)) (λ none. absurd (omega arith))))
  where
    P : MemService × Outcome DecisionOutcome → Type 0
    P r = Effect env s r.0

    approves :
        (st : PlanStatus)
        → (st ≡ approved
            → MeetsQuorum
                (group_at mp.policy mp.ladder i.rung_index)
                (length (votes_at i.rung_index (add_vote i.rung_index i.actor_id mp.approvals))))
        → Change mp
            (record mp { approvals = add_vote i.rung_index i.actor_id mp.approvals; status = st })
    approves st = approved_by mp i.rung_index i.actor_id st h z (rw at member)

not-false : (b : Bool) → not b ≡ false → b ≡ true
not-false b h = ground arith

eq_ℤ→ : (a b : ℤ) → not (eq_ℤ a b) ≡ false → a ≡ b
eq_ℤ→ a b h = ground arith

decide_rung-Effect :
    (env : Env) (now : ℕ) (s : MemService) (i : DecisionInput) (mp : MemPlan)
    → find_plan i.plan_id s ≡ some mp
    → mp.status ≡ pending
    → Effect env s (decide_rung env now s i mp).0
unfolding decide_rung
decide_rung-Effect env now s i mp e h =
    if_rule P (not (leb_ℤ (pos 0) i.rung_index) || leb_ℤ (pos (length mp.ladder)) i.rung_index)
      (λ _. same refl)
      (λ _.
        if_rule P (not (eq_ℤ i.rung_index mp.current_rung)) (λ _. same refl)
          (λ z.
            match_rule P (get_at mp.ladder mp.current_rung) (λ _. same refl)
              (λ rung at.
                match_rule P (lookup Str-discrete rung.group_name mp.policy.approver_groups)
                  (λ _. same refl)
                  (λ g known.
                    if_rule P (not (contains g.human_user_ids i.actor_id)) (λ _. same refl)
                      (λ m.
                        vote-Effect env now s i mp g e h (eq_ℤ→ i.rung_index mp.current_rung z)
                          (group_at-some mp.policy mp.ladder i.rung_index mp.current_rung rung g
                            (eq_ℤ→ i.rung_index mp.current_rung z) at known)
                          (not-false _ m))))))
  where
    P : MemService × Outcome DecisionOutcome → Type 0
    P r = Effect env s r.0

-- A decision leaves the service as it was, or rewrites one pending plan and logs that.
pub record_decision-Effect :
    (env : Env) (now : ℕ) (s : MemService) (i : DecisionInput)
    → Effect env s (record_decision env now s i).0
unfolding record_decision
record_decision-Effect env now s i =
    match_rule P (find_plan i.plan_id s) (λ _. same refl)
      (λ mp e.
        if_rule P (not (is_pending mp.status)) (λ _. same refl)
          (λ h.
            let was = is_pending→ mp.status h in
            if_rule P (has_expired mp now)
              (λ _.
                wrote i.plan_id mp _ _ _ _ _ now e (closed mp expired was (λ q. cc) (λ q. cc)) refl)
              (λ _. decide_rung-Effect env now s i mp e was)))
  where
    P : MemService × Outcome DecisionOutcome → Type 0
    P r = Effect env s r.0
