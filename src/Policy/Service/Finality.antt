-- ===== src/Policy/Service/Finality.antt =====
-- Decided plans under later calls (memservice.go, ADR-015).
use gitscale.Common.{
  ℕ, ◌≡◌, ◌≢◌, refl, sym, ◌∙◌, not, Option, none, some, List, [], ◌∷◌, arith, ℕ_discrete, ◌==◌,
  if_rule, match_rule, if◌then◌else◌, All,
}
use mathlib.Core.Logic.{if_neg}
use mathlib.Core.Path.{subst}
use gitscale.Common.Map.{lookup}
use gitscale.Policy.Types.{Policy, Plan, Decision, pending, is_valid_proposer}
use gitscale.Policy.Env.{Env}
use gitscale.Policy.Validate.{validate}
use gitscale.Policy.Service.{MemService, MemPlan, Outcome, put_plan}
use gitscale.Policy.Service.Submit.{
  first_match, decision_of, new_mem_plan, submission_audit, submission_result, record_submission,
  stamp_plan, submit_stamped, submit_plan,
}
use gitscale.Policy.Service.History.{
  Call, registers, submits, decides, escalates, step, run, find_plan, find_plan-put_plan,
  plans-log_audit,
}
use gitscale.Policy.Service.Effect.{Effect, same, wrote}
use gitscale.Policy.Service.Effect.Decision.{record_decision-Effect}
use gitscale.Policy.Service.Effect.Escalation.{escalate-Effect}
use gitscale.Policy.Service.Submitted.{submission_audit-plans, after_record-fst}
use gitscale.Policy.Service.Safety.{register_policy-plans}

find_plan-put_ne :
    (id j : ℕ) (mp : MemPlan) (s : MemService)
    → id ≢ j
    → find_plan j (put_plan id mp s) ≡ find_plan j s
find_plan-put_ne id j mp s h = find_plan-put_plan id j mp s ∙ if_neg (ℕ_discrete id j) h _ _

pub Effect-finds :
    {env : Env} {s s' : MemService} (j : ℕ) (mp : MemPlan)
    → Effect env s s'
    → find_plan j s ≡ some mp
    → mp.status ≢ pending
    → find_plan j s' ≡ some mp
Effect-finds j mp (same e) f d = subst (λ t. find_plan j t ≡ some mp) (sym e) f
Effect-finds {env} {s} j mp (wrote id old new k a ak payload now e c q) f d =
    subst (λ t. find_plan j t ≡ some mp) (sym q)
      (rw (plans-log_audit env (put_plan id new s) new k a ak payload now)
        (find_plan-put_ne id j new s other ∙ f))
  where
    other : id ≢ j
    other p = d (ground (arith, c.was_pending))

-- The id under which SubmitPlan stores a plan.
abbrev pub stored_id : ℕ → Plan → ℕ
stored_id fresh p = if p.id == 0 then fresh else p.id

-- The call does not submit a plan under `id`.
abbrev pub Spares : ℕ → Call → Type 0
Spares id (submits now fresh (some p)) = stored_id fresh p ≢ id
Spares id _ = Unit

stamp_plan-id :
    (env : Env) (fresh : ℕ) (pol : Policy) (plan stamped : Plan)
    → stamp_plan env fresh pol plan ≡ some stamped
    → stamped.id ≡ stored_id fresh plan
unfolding stamp_plan
stamp_plan-id env fresh pol plan stamped h = ground arith

submission_result-finds :
    (j : ℕ) (s : MemService) (o : Option MemService)
    → ((s' : MemService) → o ≡ some s' → s'.plans ≡ s.plans)
    → find_plan j (submission_result s o).0 ≡ find_plan j s
submission_result-finds j s none e = refl
submission_result-finds j s (some s') e = rw (e s' refl)

record_submission-finds :
    (env : Env) (now : ℕ) (s : MemService) (plan : Plan) (d : Decision) (j : ℕ)
    → plan.id ≢ j
    → find_plan j (record_submission env now s plan d).0 ≡ find_plan j s
unfolding record_submission
record_submission-finds env now s plan d j h =
    match_rule (λ (r : MemService × Outcome (Unit {0})). find_plan j r.0 ≡ find_plan j s)
      (lookup ℕ_discrete plan.org_id s.policies) (λ _. refl)
      (λ pol e.
        let s1 = put_plan plan.id (new_mem_plan now plan d pol) s in
        submission_result-finds j s1 (submission_audit env now s1 plan d pol)
          (λ s' q. submission_audit-plans env now s1 s' plan d pol q)
        ∙ find_plan-put_ne plan.id j (new_mem_plan now plan d pol) s h)

submit_plan-finds :
    (env : Env) (now fresh : ℕ) (s : MemService) (plan : Plan) (j : ℕ)
    → stored_id fresh plan ≢ j
    → find_plan j (submit_plan env now fresh s (some plan)).0 ≡ find_plan j s
unfolding submit_plan submit_stamped
submit_plan-finds env now fresh s plan j h =
    if_rule P (not (is_valid_proposer plan.proposer_kind)) (λ _. refl)
      (λ _.
        match_rule P (lookup ℕ_discrete plan.org_id s.policies) (λ _. refl)
          (λ pol found.
            match_rule P (validate (some pol))
              (λ valid.
                match_rule P (stamp_plan env fresh pol plan) (λ _. refl)
                  (λ stamped q.
                    let d =
                      decision_of stamped
                        (first_match env stamped.actions stamped.proposer_kind 0 pol.rules) in
                    rw (after_record-fst d (record_submission env now s stamped d)) (
                      record_submission-finds env now s stamped d j
                        (λ e. h (sym (stamp_plan-id env fresh pol plan stamped q) ∙ e)))))
              (λ _ _. refl)))
  where
    P : MemService × Outcome Decision → Type 0
    P r = find_plan j r.0 ≡ find_plan j s

step-finds :
    (env : Env) (s : MemService) (c : Call) (id : ℕ) (mp : MemPlan)
    → Spares id c
    → find_plan id s ≡ some mp
    → mp.status ≢ pending
    → find_plan id (step env s c) ≡ some mp
unfolding step submit_plan
step-finds env s (registers p) id mp h f d = rw (register_policy-plans s p) f
step-finds env s (submits now fresh none) id mp h f d = f
step-finds env s (submits now fresh (some p)) id mp h f d =
    submit_plan-finds env now fresh s p id h ∙ f
step-finds env s (decides now i) id mp h f d =
    Effect-finds id mp (record_decision-Effect env now s i) f d
step-finds env s (escalates now i) id mp h f d =
    Effect-finds id mp (escalate-Effect env now s i) f d

-- A plan that is no longer pending stays exactly as it is through every sequence of calls in which
-- no plan is submitted under its id.
pub run-finds_decided :
    (env : Env) (s : MemService) (cs : List Call) (id : ℕ) (mp : MemPlan)
    → All (Spares id) cs
    → find_plan id s ≡ some mp
    → mp.status ≢ pending
    → find_plan id (run env s cs) ≡ some mp
unfolding run
run-finds_decided env s [] id mp h f d = f
run-finds_decided env s (c ∷ cs) id mp h f d =
    run-finds_decided env (step env s c) cs id mp h.1 (step-finds env s c id mp h.0 f d) d
