-- ===== src/Policy/Service/Submitted.antt =====
-- Submission and the invariants of Policy/Service/Invariant (memservice.go, SubmitPlan).
use gitscale.Common.{
  ℕ, suc, ◌<◌, ◌≡◌, refl, sym, ap, ◌∙◌, not, Option, none, some, List, [], ◌∷◌, arith, length, All,
  ℕ_discrete, if_rule, match_rule,
}
use mathlib.Core.Option.{some-injective}
use mathlib.Core.Path.{subst}
use gitscale.Common.Map.{lookup}
use gitscale.Policy.Types.{
  Policy, Plan, Rule, EscalationRung, Decision, ProposerKind, Action, is_valid_proposer,
}
use gitscale.Policy.Env.{Env}
use gitscale.Policy.Validate.{validate}
use gitscale.Policy.Validate.Laws.{LadderOk, RuleOk, PolicyOk, validate_iff}
use gitscale.Policy.Service.{MemService, Outcome, ok, err, panic, put_plan}
use gitscale.Policy.Service.Submit.{
  first_match, decision_of, new_mem_plan, record_submission, after_record, stamp_plan,
  submit_stamped, submit_plan, compute_plan_hash, submission_audit, submission_result,
}
use gitscale.Policy.Service.Decide.{votes_at}
use gitscale.Policy.Service.History.{
  plans-append_audit, AuditOk, append_audit-AuditOk, put_plan-AuditOk,
}
use gitscale.Policy.Service.Quorum.{PlanOk}
use gitscale.Policy.Service.Invariant.{PlansOk, put_plan-PlansOk}

-- The rule that fires is one of the policy's.
first_match-RuleOk :
    (env : Env) (p : Policy) (acts : List Action) (who : ProposerKind) (i : ℕ) (rs : List Rule)
    (k : ℕ) (r : Rule)
    → All (RuleOk p) rs
    → first_match env acts who i rs ≡ some (k, r)
    → RuleOk p r
unfolding first_match
first_match-RuleOk env p acts who i [] k r h e = absurd (cc)
first_match-RuleOk env p acts who i (x ∷ rs) k r h e =
    ground (arith, first_match-RuleOk env p acts who (suc i) rs k r)

stamp_plan-org_id :
    (env : Env) (fresh : ℕ) (pol : Policy) (plan stamped : Plan)
    → stamp_plan env fresh pol plan ≡ some stamped
    → stamped.org_id ≡ plan.org_id
unfolding stamp_plan
stamp_plan-org_id env fresh pol plan stamped h = ground arith

stamp_plan-proposer :
    (env : Env) (fresh : ℕ) (pol : Policy) (plan stamped : Plan) (proposers : ℕ → ℕ)
    → stamp_plan env fresh pol plan ≡ some stamped
    → proposers plan.object ≡ plan.proposer_id
    → proposers stamped.object ≡ stamped.proposer_id
unfolding stamp_plan compute_plan_hash
stamp_plan-proposer env fresh pol plan stamped proposers h st = ground arith

LadderOk-pos : (p : Policy) (rs : List EscalationRung) → LadderOk p rs → 0 < length rs
LadderOk-pos p [] h = absurd h
LadderOk-pos p (r ∷ rs) h = omega arith

new_mem_plan-PlanOk :
    (env : Env) (now : ℕ) (plan : Plan) (pol : Policy) (m : Option (ℕ × Rule))
    → ((k : ℕ) (r : Rule) → m ≡ some (k, r) → RuleOk pol r)
    → PlanOk (new_mem_plan now plan (decision_of plan m) pol)
unfolding new_mem_plan decision_of votes_at lookup
new_mem_plan-PlanOk env now plan pol none h = record {
  ladder_ok = λ e. absurd (cc);
  in_range = λ e. absurd (cc);
  distinct = λ _. tt;
  members = λ _. tt;
  quorum = λ e. absurd (cc);
  clean = λ _ _. refl;
}
new_mem_plan-PlanOk env now plan pol (some (k, r)) h = record {
  ladder_ok = λ _. (h k r refl).ladder_ok;
  in_range = λ _. LadderOk-pos pol r.ladder (h k r refl).ladder_ok;
  distinct = λ _. tt;
  members = λ _. tt;
  quorum = λ e. absurd (cc);
  clean = λ _ _. refl;
}

submission_result-PlansOk :
    (s : MemService) (o : Option MemService)
    → ((s' : MemService) → o ≡ some s' → s'.plans ≡ s.plans)
    → PlansOk s
    → PlansOk (submission_result s o).0
submission_result-PlansOk s none e h = h
submission_result-PlansOk s (some s') e h = rw (e s' refl) h

submission_result-AuditOk :
    (proposers : ℕ → ℕ) (env : Env) (s : MemService) (o : Option MemService)
    → ((s' : MemService) → o ≡ some s' → AuditOk proposers env s')
    → AuditOk proposers env s
    → AuditOk proposers env (submission_result s o).0
submission_result-AuditOk proposers env s none e h = h
submission_result-AuditOk proposers env s (some s') e h = e s' refl

pub submission_audit-plans :
    (env : Env) (now : ℕ) (s s' : MemService) (plan : Plan) (d : Decision) (pol : Policy)
    → submission_audit env now s plan d pol ≡ some s'
    → s'.plans ≡ s.plans
unfolding submission_audit
submission_audit-plans env now s s' plan d pol q = plans-append_audit env s s' _ _ _ _ _ _ now q

submission_audit-AuditOk :
    (proposers : ℕ → ℕ) (env : Env) (now : ℕ) (s s' : MemService) (plan : Plan) (d : Decision)
    (pol : Policy)
    → submission_audit env now s plan d pol ≡ some s'
    → proposers plan.object ≡ plan.proposer_id
    → AuditOk proposers env s
    → AuditOk proposers env s'
unfolding submission_audit
submission_audit-AuditOk proposers env now s s' plan d pol q st =
    append_audit-AuditOk proposers env s s' _ _ _ _ _ _ now q st

-- Submission, whatever becomes of its audit row.
module _ (env : Env) (now : ℕ) (s : MemService) (plan : Plan) (d : Decision) where
  record_submission-PlansOk :
      ((pol : Policy)
        → lookup ℕ_discrete plan.org_id s.policies ≡ some pol
        → PlanOk (new_mem_plan now plan d pol))
      → PlansOk s
      → PlansOk (record_submission env now s plan d).0
  unfolding record_submission
  record_submission-PlansOk new h =
      match_rule (λ (r : MemService × Outcome (Unit {0})). PlansOk r.0)
        (lookup ℕ_discrete plan.org_id s.policies) (λ _. h)
        (λ pol e.
          let s1 = put_plan plan.id (new_mem_plan now plan d pol) s in
          submission_result-PlansOk s1 (submission_audit env now s1 plan d pol)
            (λ s' q. submission_audit-plans env now s1 s' plan d pol q)
            (put_plan-PlansOk plan.id (new_mem_plan now plan d pol) s (new pol e) h))

  record_submission-AuditOk :
      (proposers : ℕ → ℕ)
      → proposers plan.object ≡ plan.proposer_id
      → AuditOk proposers env s
      → AuditOk proposers env (record_submission env now s plan d).0
  unfolding record_submission
  record_submission-AuditOk proposers st h =
      match_rule (λ (r : MemService × Outcome (Unit {0})). AuditOk proposers env r.0)
        (lookup ℕ_discrete plan.org_id s.policies) (λ _. h)
        (λ pol e.
          let s1 = put_plan plan.id (new_mem_plan now plan d pol) s in
          let stored = put_plan-AuditOk proposers env plan.id (new_mem_plan now plan d pol) s h in
          submission_result-AuditOk proposers env s1 (submission_audit env now s1 plan d pol)
            (λ s' q. submission_audit-AuditOk proposers env now s1 s' plan d pol q st stored)
            stored)

pub after_record-fst :
    (d : Decision) (r : MemService × Outcome (Unit {0})) → (after_record d r).0 ≡ r.0
after_record-fst d (s, ok x) = refl
after_record-fst d (s, err e) = refl
after_record-fst d (s, panic) = refl

-- Submission against a policy that validation passes.
module _ (env : Env) (now fresh : ℕ) (s : MemService) (pol : Policy) (plan stamped : Plan) where
  submit_stamped-PlansOk :
      lookup ℕ_discrete plan.org_id s.policies ≡ some pol
      → PolicyOk pol
      → stamp_plan env fresh pol plan ≡ some stamped
      → PlansOk s
      → PlansOk (submit_stamped env now s pol stamped).0
  unfolding submit_stamped
  submit_stamped-PlansOk found valid q h =
      let d =
        decision_of stamped (first_match env stamped.actions stamped.proposer_kind 0 pol.rules) in
      subst PlansOk (sym (after_record-fst _ _)) (
        record_submission-PlansOk env now s stamped d
          (λ pol' e.
            subst (λ p. PlanOk (new_mem_plan now stamped d p))
              (some-injective _ _ (
                sym found
                ∙ ap (λ o. lookup ℕ_discrete o s.policies)
                    (sym (stamp_plan-org_id env fresh pol plan stamped q))
                ∙ e))
              (new_mem_plan-PlanOk env now stamped pol _ (λ k r m.
                first_match-RuleOk env pol stamped.actions stamped.proposer_kind 0 pol.rules k r
                  valid.rules_ok m)))
          h)

pub submit_plan-PlansOk :
    (env : Env) (now fresh : ℕ) (s : MemService) (plan : Option Plan)
    → PlansOk s
    → PlansOk (submit_plan env now fresh s plan).0
unfolding submit_plan
submit_plan-PlansOk env now fresh s none h = h
submit_plan-PlansOk env now fresh s (some plan) h =
    if_rule P (not (is_valid_proposer plan.proposer_kind)) (λ _. h)
      (λ _.
        match_rule P (lookup ℕ_discrete plan.org_id s.policies) (λ _. h)
          (λ pol found.
            match_rule P (validate (some pol))
              (λ valid.
                match_rule P (stamp_plan env fresh pol plan) (λ _. h)
                  (λ stamped q.
                    submit_stamped-PlansOk env now fresh s pol plan stamped found
                      ((validate_iff pol).0 valid) q h))
              (λ _ _. h)))
  where
    P : MemService × Outcome Decision → Type 0
    P r = PlansOk r.0

-- The plan, if there is one, still has the proposer that it is submitted with.
abbrev pub KeepsProposer : (proposers : ℕ → ℕ) → Option Plan → Type 0
KeepsProposer proposers none = Unit
KeepsProposer proposers (some plan) = proposers plan.object ≡ plan.proposer_id

pub submit_plan-AuditOk :
    (proposers : ℕ → ℕ) (env : Env) (now fresh : ℕ) (s : MemService) (plan : Option Plan)
    → KeepsProposer proposers plan
    → AuditOk proposers env s
    → AuditOk proposers env (submit_plan env now fresh s plan).0
unfolding submit_plan submit_stamped
submit_plan-AuditOk proposers env now fresh s none st h = h
submit_plan-AuditOk proposers env now fresh s (some plan) st h =
    if_rule P (not (is_valid_proposer plan.proposer_kind)) (λ _. h)
      (λ _.
        match_rule P (lookup ℕ_discrete plan.org_id s.policies) (λ _. h)
          (λ pol found.
            match_rule P (validate (some pol))
              (λ valid.
                match_rule P (stamp_plan env fresh pol plan) (λ _. h)
                  (λ stamped q. subst (AuditOk proposers env) (sym (after_record-fst _ _)) (
                    record_submission-AuditOk env now s stamped _ proposers
                      (stamp_plan-proposer env fresh pol plan stamped proposers q st) h)))
              (λ _ _. h)))
  where
    P : MemService × Outcome Decision → Type 0
    P r = AuditOk proposers env r.0
