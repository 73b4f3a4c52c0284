-- ===== src/Policy/Service/Safety.antt =====
-- Histories of calls on a new service (memservice.go): quorums, and indices of ladders.
use gitscale.Common.{
  ℕ, ◌≡◌, ◌≢◌, not, ◌||◌, none, some, List, [], ◌∷◌, arith, length, All, if_rule, match_rule,
  get_elem?_lt, inr,
}
use gitscale.Common.Int.{ℤ, pos, negsuc, get_at, eq_ℤ, leb_ℤ}
use gitscale.Common.Str.{Str-discrete}
use gitscale.Policy.Types.{OnTimeout}
use gitscale.Policy.Service.{is_pending, contains}
use gitscale.Policy.Service.Decide.{has_reason, has_expired, votes_at}
use gitscale.Policy.Service.Quorum.{InRange, MeetsQuorum, IsApprover, Distinct, group_at}
use gitscale.Policy.Service.Effect.{is_pending→}
use gitscale.Common.Map.{lookup}
use gitscale.Policy.Types.{Policy, approved, ApproverGroup}
use gitscale.Policy.Env.{Env}
use gitscale.Policy.Service.{MemService, MemPlan, Outcome, panic, new_mem_service, register_policy}
use gitscale.Policy.Service.Decide.{
  DecisionInput, DecisionOutcome, tally, vote, decide_rung, record_decision,
}
use gitscale.Policy.Service.Escalate.{
  EscalateInput, EscalateOutcome, auto_deny_plan, move_rung, escalate_rung, escalate,
}
use gitscale.Policy.Service.History.{
  Call, registers, submits, decides, escalates, step, run, find_plan,
}
use gitscale.Policy.Service.Effect.Decision.{record_decision-Effect}
use gitscale.Policy.Service.Effect.Escalation.{escalate-Effect}
use gitscale.Policy.Service.Invariant.{PlansOk, Effect-PlansOk}
use gitscale.Policy.Service.Submitted.{submit_plan-PlansOk}

pub register_policy-plans : (s : MemService) (p : Policy) → (register_policy s p).0.plans ≡ s.plans
unfolding register_policy
register_policy-plans s p = ground arith

pub step-PlansOk : (env : Env) (s : MemService) (c : Call) → PlansOk s → PlansOk (step env s c)
unfolding step
step-PlansOk env s (registers p) h = rw (register_policy-plans s p) h
step-PlansOk env s (submits now fresh plan) h = submit_plan-PlansOk env now fresh s plan h
step-PlansOk env s (decides now i) h = Effect-PlansOk (record_decision-Effect env now s i) h
step-PlansOk env s (escalates now i) h = Effect-PlansOk (escalate-Effect env now s i) h

pub run-PlansOk : (env : Env) (s : MemService) (cs : List Call) → PlansOk s → PlansOk (run env s cs)
unfolding run
run-PlansOk env s [] h = h
run-PlansOk env s (c ∷ cs) h = run-PlansOk env (step env s c) cs (step-PlansOk env s c h)

new_mem_service-PlansOk : PlansOk new_mem_service
unfolding new_mem_service lookup
new_mem_service-PlansOk id mp e = absurd (cc)

get_at-InRange : {A : Type 0} (xs : List A) (z : ℤ) → InRange z (length xs) → get_at xs z ≢ none
get_at-InRange xs (negsuc n) h e = h
get_at-InRange xs (pos n) h e = let (x, q) = get_elem?_lt xs n h in absurd (cc)

tally-ne-panic :
    (env : Env) (now : ℕ) (s : MemService) (i : DecisionInput) (mp : MemPlan) (g : ApproverGroup)
    → (tally env now s i mp g).1 ≢ panic
unfolding tally
tally-ne-panic env now s i mp g = ground arith

decide_rung-ne-panic :
    (env : Env) (now : ℕ) (s : MemService) (i : DecisionInput) (mp : MemPlan)
    → InRange mp.current_rung (length mp.ladder)
    → (decide_rung env now s i mp).1 ≢ panic
unfolding decide_rung vote
decide_rung-ne-panic env now s i mp r =
    if_rule P (not (leb_ℤ (pos 0) i.rung_index) || leb_ℤ (pos (length mp.ladder)) i.rung_index)
      (λ _ q. cc)
      (λ _.
        if_rule P (not (eq_ℤ i.rung_index mp.current_rung)) (λ _ q. cc)
          (λ _.
            match_rule P (get_at mp.ladder mp.current_rung)
              (λ e. absurd (get_at-InRange mp.ladder mp.current_rung r e))
              (λ rung _.
                match_rule P (lookup Str-discrete rung.group_name mp.policy.approver_groups)
                  (λ _ q. cc)
                  (λ g _.
                    if_rule P (not (contains g.human_user_ids i.actor_id)) (λ _ q. cc)
                      (λ _.
                        if_rule P i.approve (λ _. tally-ne-panic env now s i _ g)
                          (λ _.
                            if_rule P (not (has_reason i.reason)) (λ _ q. cc)
                              (λ _. tally-ne-panic env now s i _ g)))))))
  where
    P : MemService × Outcome DecisionOutcome → Type 0
    P r = r.1 ≢ panic

record_decision-ne-panic :
    (env : Env) (now : ℕ) (s : MemService) (i : DecisionInput)
    → PlansOk s
    → (record_decision env now s i).1 ≢ panic
unfolding record_decision
record_decision-ne-panic env now s i h =
    match_rule P (find_plan i.plan_id s) (λ _ q. cc)
      (λ mp e.
        if_rule P (not (is_pending mp.status)) (λ _ q. cc)
          (λ was.
            if_rule P (has_expired mp now) (λ _ q. cc)
              (λ _.
                decide_rung-ne-panic env now s i mp
                  ((h i.plan_id mp e).in_range (is_pending→ mp.status was)))))
  where
    P : MemService × Outcome DecisionOutcome → Type 0
    P r = r.1 ≢ panic

escalate_rung-ne-panic :
    (env : Env) (now : ℕ) (s : MemService) (i : EscalateInput) (mp : MemPlan) (o : OnTimeout)
    → (escalate_rung env now s i mp o).1 ≢ panic
unfolding escalate_rung auto_deny_plan move_rung
escalate_rung-ne-panic env now s i mp o = ground arith

escalate-ne-panic :
    (env : Env) (now : ℕ) (s : MemService) (i : EscalateInput)
    → PlansOk s
    → (escalate env now s i).1 ≢ panic
unfolding escalate
escalate-ne-panic env now s i h =
    match_rule P (find_plan i.plan_id s) (λ _ q. cc)
      (λ mp e.
        if_rule P (not (is_pending mp.status)) (λ _ q. cc)
          (λ was.
            if_rule P (not (eq_ℤ i.from_rung mp.current_rung)) (λ _ q. cc)
              (λ _.
                match_rule P (get_at mp.ladder mp.current_rung)
                  (λ none. absurd (
                    get_at-InRange mp.ladder mp.current_rung
                      ((h i.plan_id mp e).in_range (is_pending→ mp.status was)) none))
                  (λ rung _. escalate_rung-ne-panic env now s i mp rung.on_timeout))))
  where
    P : MemService × Outcome EscalateOutcome → Type 0
    P r = r.1 ≢ panic

-- After any sequence of calls on a new service, neither a decision nor an escalation indexes a
-- ladder out of range, whatever its input.
pub run-ne-panic :
    (env : Env) (cs : List Call) (now : ℕ) (i : DecisionInput) (j : EscalateInput)
    → let s = run env new_mem_service cs in
      ((record_decision env now s i).1 ≢ panic) × ((escalate env now s j).1 ≢ panic)
run-ne-panic env cs now i j =
    let h = run-PlansOk env new_mem_service cs new_mem_service-PlansOk in
    (
      record_decision-ne-panic env now (run env new_mem_service cs) i h,
      escalate-ne-panic env now (run env new_mem_service cs) j h,
    )

-- In every state that calls on a new service reach, an approved plan has a quorum: at the rung where
-- it stands, the approvals number at least the group's required count, they are of distinct actors,
-- each of them in the group, and no rung has a rejection.
pub run-quorum :
    (env : Env) (cs : List Call) (id : ℕ) (mp : MemPlan)
    → find_plan id (run env new_mem_service cs) ≡ some mp
    → mp.status ≡ approved
    → let group = group_at mp.policy mp.ladder mp.current_rung in
      let yeas = votes_at mp.current_rung mp.approvals in
      MeetsQuorum group (length yeas)
      × Distinct yeas
      × All (λ v. IsApprover group v.0) yeas
      × ((z : ℤ) → votes_at z mp.rejections ≡ [])
run-quorum env cs id mp found e =
    let h = run-PlansOk env new_mem_service cs new_mem_service-PlansOk id mp found in
    (h.quorum e, h.distinct mp.current_rung, h.members mp.current_rung, h.clean (inr e))
