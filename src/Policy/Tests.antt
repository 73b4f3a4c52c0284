-- ===== src/Policy/Tests.antt =====
-- The policy engine at one policy, and its theorems there.
use gitscale.Common.{
  ℕ, ◌≡◌, ◌≢◌, ◌↔◌, ◌+◌, ◌<◌, refl, Bool, true, false, none, some, List, [], ◌∷◌, arith, length,
  inl, inr, ℕ_discrete, All, take, map,
}
use gitscale.Common.Int.{ℤ, pos, ℤ-discrete}
use gitscale.Common.Map.{lookup, insert}
use gitscale.Common.Str.{codes, Str-discrete}
use gitscale.Policy.Types.{
  Policy, Plan, Rule, ApproverGroup, EscalationRung, Decision, pending, approved, auto_denied,
  agent_default, agent, notify_next, auto_deny, fall_back,
}
use gitscale.Policy.Canonical.{
  Codec, scalar, canonical_payload, canonical_actions_json, canonicalize,
}
use gitscale.Policy.Env.{Env}
use gitscale.Policy.Validate.{validate}
use gitscale.Policy.Validate.Laws.{PolicyOk, validate_iff}
use gitscale.Policy.Predicates.{match_rule}
use gitscale.Policy.Audit.{
  AuditRow, no_actor, reread, reread_actor, verify_chain, intact, broken, row_hash_mismatch,
  prev_hash_mismatch, event_approved, system, compute_row_hash, append_row, last_hash, genesis_hash,
}
use gitscale.Policy.Audit.Chain.{IsLinked, verify_chain-broken, verify_chain_iff}
use gitscale.Policy.Service.{
  MemService, MemPlan, ok, panic, new_mem_service, register_policy, audit_rows, audit_chain,
  append_audit, audit_row, log_audit, copied, put_plan, contains, actor_kind_from_proposer,
}
use gitscale.Policy.Service.Submit.{
  submit_plan, submit_stamped, stamp_plan, compute_plan_hash, first_match, decision_of,
  new_mem_plan, expiry_time, record_submission, submission_audit,
}
use gitscale.Policy.Service.Decide.{
  DecisionInput, record_decision, decide_rung, vote, tally, add_vote, votes_at,
}
use gitscale.Policy.Service.Escalate.{EscalateInput, escalate}
use gitscale.Policy.Service.History.{
  Call, registers, submits, decides, escalates, step, run, find_plan,
}
use gitscale.Policy.Service.Quorum.{MeetsQuorum, Distinct, IsApprover}
use gitscale.Policy.Service.Safety.{run-ne-panic, run-quorum}
use gitscale.Policy.Service.Intact.{KeepsProposers, verify_chain-run}
use gitscale.Policy.Service.Finality.{Spares, run-finds_decided}
use gitscale.Policy.Service.Selection.{Verdict, submit_plan-Verdict}
use gitscale.Policy.Service.Walk.{time_outs, time_outs-auto_denied, time_outs_cycle}
use gitscale.Policy.Engine.{mem_backend, engine_submit_plan, engine_submit_plan-mem}

abbrev codec : Codec
codec = record {
  unmarshal = λ _. some (scalar 0);
  marshal_scalar = λ _. some (codes "0");
  marshal_key = λ k. some k;
  marshal_actions = λ acts. some (length acts ∷ []);
}

abbrev env : Env
env = record {
  codec = codec;
  sha256 = λ s. length s ∷ [];
  path_match = λ p s. some false;
  marshal_payload = λ _. codes "{}";
  wall_clock = 1;
}

abbrev owners : ApproverGroup
owners = record { name = codes "o"; human_user_ids = 1 ∷ 2 ∷ []; required_count = pos 1 }

abbrev first_rung : EscalationRung
first_rung = record { group_name = codes "o"; sla_seconds = pos 60; on_timeout = notify_next }

abbrev second_rung : EscalationRung
second_rung = record { group_name = codes "o"; sla_seconds = pos 60; on_timeout = fall_back }

abbrev last_rung : EscalationRung
last_rung = record { group_name = codes "o"; sla_seconds = pos 60; on_timeout = auto_deny }

abbrev rule_with : List EscalationRung → Rule
rule_with ladder = record {
  kind = agent_default;
  match = [];
  threshold = none;
  ladder = ladder;
  expiry_seconds = pos 600;
}

abbrev policy_with : List EscalationRung → Policy
policy_with ladder = record {
  id = 3;
  org_id = 4;
  repo_id = none;
  name = codes "p";
  version = pos 1;
  rules = rule_with ladder ∷ [];
  approver_groups = (codes "o", owners) ∷ [];
}

abbrev forward : Policy
forward = policy_with (first_rung ∷ last_rung ∷ [])

abbrev cyclic : Policy
cyclic = policy_with (first_rung ∷ second_rung ∷ [])

abbrev plan_for : Policy → Plan
plan_for p = record {
  object = 0;
  id = 7;
  org_id = 4;
  repo_id = none;
  policy_id = p.id;
  proposer_id = 9;
  proposer_kind = agent;
  actions = [];
  plan_hash = 1 ∷ [];
  created_at = 1;
}

abbrev pending_plan : Policy → List EscalationRung → MemPlan
pending_plan p ladder = record {
  plan = plan_for p;
  status = pending;
  current_rung = pos 0;
  approvals = [];
  rejections = [];
  ladder = ladder;
  policy = p;
  expires_at = 0;
}

abbrev holding : MemPlan → MemService
holding mp = record { policies = (4, mp.policy) ∷ []; plans = (7, mp) ∷ []; audit = [] }

abbrev forward_plan : MemPlan
forward_plan = pending_plan forward (first_rung ∷ last_rung ∷ [])

abbrev cyclic_plan : MemPlan
cyclic_plan = pending_plan cyclic (first_rung ∷ second_rung ∷ [])

abbrev yes_from_one : DecisionInput
yes_from_one = record { plan_id = 7; actor_id = 1; approve = true; reason = []; rung_index = pos 0 }

abbrev no_from_two : DecisionInput
no_from_two = record {
  plan_id = 7;
  actor_id = 2;
  approve = false;
  reason = 1 ∷ [];
  rung_index = pos 0;
}

-- Registered, submitted, approved by user 1, and a rejection that comes too late.
abbrev history : List Call
history =
    registers forward
    ∷ submits 10 7 (some (plan_for forward))
    ∷ decides 20 yes_from_one
    ∷ decides 30 no_from_two
    ∷ []

abbrev approved_plan : MemPlan
approved_plan = record {
  plan = plan_for forward;
  status = approved;
  current_rung = pos 0;
  approvals = (pos 0, (1, true) ∷ []) ∷ [];
  rejections = [];
  ladder = first_rung ∷ last_rung ∷ [];
  policy = forward;
  expires_at = 600_000_000_010;
}

abbrev overdue : EscalateInput
overdue = record { plan_id = 7; from_rung = pos 0; reason = [] }

-- Calls on other plans and late votes on plan 7.
abbrev late_calls : List Call
late_calls =
    decides 30 no_from_two
    ∷ escalates 40 overdue
    ∷ submits 50 8 (some (record (plan_for forward) { id = 0 }))
    ∷ []

late_calls-Spares : All (Spares 7) late_calls
late_calls-Spares = (tt, (tt, (λ e. absurd (cc), tt)))

-- A first row that does not start from the genesis hash.
abbrev forged : AuditRow
forged = record {
  id = 1;
  policy_id = 3;
  plan_id = none;
  event_kind = event_approved;
  actor_id = no_actor;
  actor_kind = system;
  payload = [];
  prev_hash = [];
  row_hash = [];
  created_at = 1;
}

history_approves : find_plan 7 (run env new_mem_service history) ≡ some approved_plan
unfolding run step new_mem_service register_policy submit_plan record_decision lookup insert
    validate stamp_plan compute_plan_hash canonical_actions_json submit_stamped first_match
    match_rule decision_of record_submission new_mem_plan expiry_time submission_audit append_audit
    audit_rows append_row compute_row_hash audit_row put_plan decide_rung votes_at add_vote vote
    tally log_audit contains actor_kind_from_proposer last_hash genesis_hash canonical_payload
    canonicalize Str-discrete ℤ-discrete
history_approves = refl

run-quorum_example :
    MeetsQuorum (some owners) 1
    × Distinct ((1, true) ∷ [])
    × All {A = ℕ × Bool} (λ v. IsApprover (some owners) v.0) ((1, true) ∷ [])
    × ((z : ℤ) → votes_at z [] ≡ [])
unfolding lookup Str-discrete ℤ-discrete votes_at ℕ_discrete
run-quorum_example = run-quorum env history 7 approved_plan history_approves refl

history-KeepsProposers : All (KeepsProposers (λ object. 9)) history
history-KeepsProposers = (tt, (refl, (tt, (tt, tt))))

verify_chain-run_example :
    verify_chain env (map (reread (λ object. 9)) (audit_chain (run env new_mem_service history) 3))
    ≡ intact
verify_chain-run_example = verify_chain-run env history (λ object. 9) 3 history-KeepsProposers

-- A caller that puts another proposer into the plan it submitted breaks the chain.
changed_proposer :
    verify_chain
      (record env { sha256 = λ s. s })
      (map
        (reread (λ object. 10))
        (audit_chain (run (record env { sha256 = λ s. s }) new_mem_service history) 3))
    ≡ broken 0 row_hash_mismatch
unfolding run step new_mem_service register_policy submit_plan record_decision lookup insert
    validate stamp_plan compute_plan_hash canonical_actions_json submit_stamped first_match
    match_rule decision_of record_submission new_mem_plan expiry_time submission_audit append_audit
    audit_rows append_row compute_row_hash audit_row put_plan decide_rung votes_at add_vote vote
    tally log_audit contains actor_kind_from_proposer last_hash genesis_hash canonical_payload
    canonicalize Str-discrete ℤ-discrete audit_chain verify_chain reread reread_actor copied
changed_proposer = refl

run-ne-panic_example :
    ((record_decision env 40 (run env new_mem_service history) no_from_two).1 ≢ panic)
    × ((escalate env 40 (run env new_mem_service history) overdue).1 ≢ panic)
run-ne-panic_example = run-ne-panic env history 40 no_from_two overdue

abbrev pending_decision : Decision
pending_decision = record {
  plan_id = 7;
  status = pending;
  auto_approved = false;
  matched_rule_index = pos 0;
  ladder = first_rung ∷ last_rung ∷ [];
  expiry_seconds = pos 600;
}

registered_policy : lookup ℕ_discrete 4 (holding forward_plan).policies ≡ some forward
unfolding lookup ℕ_discrete
registered_policy = refl

submit_decides :
    (submit_plan env 10 7 (holding forward_plan) (some (plan_for forward))).1 ≡ ok pending_decision
unfolding submit_plan record_decision lookup insert validate stamp_plan compute_plan_hash
    canonical_actions_json submit_stamped first_match match_rule decision_of record_submission
    new_mem_plan expiry_time submission_audit append_audit audit_rows append_row compute_row_hash
    audit_row put_plan Str-discrete last_hash genesis_hash actor_kind_from_proposer
    canonical_payload canonicalize
submit_decides = refl

submit_plan-Verdict_example : Verdict env forward (plan_for forward) pending_decision
submit_plan-Verdict_example =
    submit_plan-Verdict env 10 7 (holding forward_plan) (plan_for forward) forward pending_decision
      registered_policy submit_decides

run-finds_decided_example :
    find_plan 7 (run env (holding approved_plan) late_calls) ≡ some approved_plan
unfolding lookup ℕ_discrete
run-finds_decided_example =
    run-finds_decided env (holding approved_plan) late_calls 7 approved_plan late_calls-Spares refl
      (λ e. absurd (cc))

engine_submit_plan-mem_example :
    engine_submit_plan (mem_backend env 10) env 7 (holding forward_plan) (some (plan_for forward))
    ≡ submit_plan env 10 7 (holding forward_plan) (some (plan_for forward))
engine_submit_plan-mem_example =
    engine_submit_plan-mem env 10 7 (holding forward_plan) (some (plan_for forward))

validate_iff_example : (validate (some cyclic) ≡ none) ↔ PolicyOk cyclic
validate_iff_example = validate_iff cyclic

verify_chain_iff_example :
    (verify_chain env (audit_chain (run env new_mem_service history) 3) ≡ intact)
    ↔ IsLinked env genesis_hash (audit_chain (run env new_mem_service history) 3)
verify_chain_iff_example = verify_chain_iff env (audit_chain (run env new_mem_service history) 3)

time_outs-auto_denied_example :
    (mp : MemPlan) × (find_plan 7 (time_outs env 99 7 [] 2 (holding forward_plan)) ≡ some mp)
    × (mp.status ≡ auto_denied)
unfolding lookup ℕ_discrete
time_outs-auto_denied_example =
    time_outs-auto_denied env 99 7 [] (holding forward_plan) forward_plan 0 2 refl refl refl
      (omega arith) (omega arith) (inl refl, (inr refl, tt))

time_outs_cycle_example :
    find_plan 7 (time_outs env 99 7 [] (3 + 3) (holding cyclic_plan)) ≡ some cyclic_plan
unfolding lookup ℕ_discrete
time_outs_cycle_example =
    time_outs_cycle env 99 7 [] (holding cyclic_plan) cyclic_plan 3 refl refl refl (refl, refl)

verify_chain-broken_example :
    (0 < length (forged ∷ []))
    × (verify_chain env (take 0 (forged ∷ [])) ≡ intact)
    × (verify_chain env (take 1 (forged ∷ [])) ≢ intact)
unfolding verify_chain Str-discrete genesis_hash
verify_chain-broken_example = verify_chain-broken env 0 prev_hash_mismatch (forged ∷ []) refl
