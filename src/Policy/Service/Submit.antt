-- ===== src/Policy/Service/Submit.antt =====
-- SubmitPlan and RecordSubmission.
use mathlib.Core.Option
use gitscale.Common.{
  ℕ, suc, ◌+◌, ◌*◌, true, false, not, Option, none, some, List, [], ◌∷◌, ◌==◌, if◌then◌else◌,
  ℕ_discrete,
}
use gitscale.Common.Int.{ℤ, pos, negsuc}
use gitscale.Common.Map.{lookup}
use gitscale.Policy.Types.{
  Policy, Rule, Plan, Action, ProposerKind, Decision, pending, auto_approved_no_rule,
  is_valid_proposer,
}
use gitscale.Policy.Validate.{validate}
use gitscale.Policy.Predicates.{match_rule}
use gitscale.Policy.Canonical.{canonical_actions_json}
use gitscale.Policy.Env.{Env, submission}
use gitscale.Policy.Audit.{proposer_of, event_submitted, event_auto_approved_no_rule}
use gitscale.Policy.Service.{
  MemService, MemPlan, Outcome, ok, err, policy_not_found, nil_plan, invalid_proposer_kind,
  invalid_policy, hash_failed, append_audit, put_plan, actor_kind_from_proposer,
}

-- ComputePlanHash
unfoldable pub compute_plan_hash : Env → Plan → Option Plan
compute_plan_hash env p =
    Option.map (λ b. record p { plan_hash = env.sha256 b })
      (canonical_actions_json env.codec p.actions)

-- The loop over the rules, from index `i`: the first rule that fires.
unfoldable pub first_match : Env → List Action → ProposerKind → ℕ → List Rule → Option (ℕ × Rule)
first_match env acts who i [] = none
first_match env acts who i (r ∷ rs) =
    let rest = first_match env acts who (suc i) rs in
    if match_rule env.path_match r acts who then some (i, r) else rest

-- The Decision that the match gives.
unfoldable pub decision_of : Plan → Option (ℕ × Rule) → Decision
decision_of plan (some (i, r)) = record {
  plan_id = plan.id;
  status = pending;
  auto_approved = false;
  matched_rule_index = pos i;
  ladder = r.ladder;
  expiry_seconds = r.expiry_seconds;
}
decision_of plan none = record {
  plan_id = plan.id;
  status = auto_approved_no_rule;
  auto_approved = true;
  matched_rule_index = negsuc 0;
  ladder = [];
  expiry_seconds = pos 0;
}

-- `now.Add(d.ExpirySeconds seconds)` where that is positive. Go's Duration wraps from 292 years on, and
-- this does not.
unfoldable pub expiry_time : ℕ → ℤ → ℕ
expiry_time now (pos n) = if n == 0 then 0 else now + n * 1_000_000_000
expiry_time now (negsuc n) = 0

unfoldable pub new_mem_plan : ℕ → Plan → Decision → Policy → MemPlan
unfolding expiry_time
new_mem_plan now plan d pol = record {
  plan = plan;
  status = d.status;
  current_rung = pos 0;
  approvals = [];
  rejections = [];
  ladder = d.ladder;
  policy = pol;
  expires_at = expiry_time now d.expiry_seconds;
}

-- The audit row of a submission, in a state `s` that holds the plan. Its actor is `&plan.ProposerID`.
unfoldable pub submission_audit :
    Env → ℕ → MemService → Plan → Decision → Policy → Option MemService
submission_audit env now s plan d pol =
    append_audit env s pol.id (some plan.id)
      (if d.auto_approved then event_auto_approved_no_rule else event_submitted)
      (proposer_of plan.object plan.proposer_id) (actor_kind_from_proposer plan.proposer_kind)
      (env.marshal_payload
        (submission plan.id d.matched_rule_index plan.plan_hash plan.proposer_kind))
      now

-- The state `s` where the audit row fails, the one with the row where it does not.
abbrev pub submission_result : MemService → Option MemService → MemService × Outcome (Unit {0})
submission_result s none = (s, err hash_failed)
submission_result s (some s') = (s', ok tt)

-- RecordSubmission. The plan is stored before its audit row is written, and stays if that fails.
unfoldable pub record_submission :
    Env → ℕ → MemService → Plan → Decision → MemService × Outcome (Unit {0})
record_submission env now s plan d = elim (lookup ℕ_discrete plan.org_id s.policies) [
  | none ↦ (s, err policy_not_found)
  | some pol ↦
      let s' = put_plan plan.id (new_mem_plan now plan d pol) s in
      submission_result s' (submission_audit env now s' plan d pol)
]

-- The plan as SubmitPlan stamps it: policy, hash, and a fresh id where it has none.
unfoldable pub stamp_plan : Env → ℕ → Policy → Plan → Option Plan
unfolding compute_plan_hash
stamp_plan env fresh pol plan =
    Option.map (λ (p : Plan). record p { id = if p.id == 0 then fresh else p.id })
      (compute_plan_hash env (record plan { policy_id = pol.id }))

-- The result of SubmitPlan once RecordSubmission has run.
abbrev pub after_record : Decision → MemService × Outcome (Unit {0}) → MemService × Outcome Decision
after_record d (s, ok _) = (s, ok d)
after_record d (s, err e) = (s, err e)
after_record d (s, Outcome.panic) = (s, Outcome.panic)

-- SubmitPlan on a plan whose policy has been found valid.
unfoldable pub submit_stamped : Env → ℕ → MemService → Policy → Plan → MemService × Outcome Decision
submit_stamped env now s pol plan =
    let d = decision_of plan (first_match env plan.actions plan.proposer_kind 0 pol.rules) in
    after_record d (record_submission env now s plan d)

-- SubmitPlan, at a pointer that may be nil.
unfoldable pub submit_plan : Env → ℕ → ℕ → MemService → Option Plan → MemService × Outcome Decision
submit_plan env now fresh s none = (s, err nil_plan)
submit_plan env now fresh s (some plan) =
    if not (is_valid_proposer plan.proposer_kind)
    then (s, err invalid_proposer_kind)
    else elim (lookup ℕ_discrete plan.org_id s.policies) [
      | none ↦ (s, err policy_not_found)
      | some pol ↦ elim (validate (some pol)) [
        | some code ↦ (s, err (invalid_policy code))
        | none ↦ elim (stamp_plan env fresh pol plan) [
          | none ↦ (s, err hash_failed)
          | some stamped ↦ submit_stamped env now s pol stamped
        ]
      ]
    ]
