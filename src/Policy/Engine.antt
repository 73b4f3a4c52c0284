-- ===== src/Policy/Engine.antt =====
-- Engine (engine.go), over the interfaces that it is given, and MemService as their implementation.
use gitscale.Common.{
  ℕ, ◌≡◌, refl, not, Option, none, some, ℕ_discrete, if◌then◌else◌, inl, inr, Bool-cases,
  Option-cases,
}
use gitscale.Common.Map.{lookup}
use gitscale.Policy.Types.{Policy, Plan, Decision, is_valid_proposer}
use gitscale.Policy.Env.{Env}
use gitscale.Policy.Validate.{validate}
use gitscale.Policy.Service.{
  MemService, Outcome, ok, err, panic, policy_not_found, nil_plan, invalid_proposer_kind,
  invalid_policy, hash_failed, load_policy,
}
use gitscale.Policy.Service.Submit.{
  first_match, decision_of, after_record, record_submission, stamp_plan, submit_stamped,
  submit_plan,
}

-- PolicyLoader and PlanRecorder, over the state `S` of whoever implements them.
pub record Backend (S : Type 0) : Type 0 where
  pub load : S → ℕ → Option ℕ → Outcome (Option Policy)
  pub submission : S → Plan → Decision → S × Outcome (Unit {0})

module _ {S : Type 0} (b : Backend S) where
  -- The result of SubmitPlan once the recorder has run.
  abbrev after_submission : Decision → S × Outcome (Unit {0}) → S × Outcome Decision
  after_submission d (s, ok _) = (s, ok d)
  after_submission d (s, err e) = (s, err e)
  after_submission d (s, panic) = (s, panic)

  -- Engine.SubmitPlan.
  pub engine_submit_plan : Env → ℕ → S → Option Plan → S × Outcome Decision
  engine_submit_plan env fresh s none = (s, err nil_plan)
  engine_submit_plan env fresh s (some plan) =
      if not (is_valid_proposer plan.proposer_kind)
      then (s, err invalid_proposer_kind)
      else elim (b.load s plan.org_id plan.repo_id) [
        | err e ↦ (s, err e)
        | panic ↦ (s, panic)
        | ok none ↦ (s, err policy_not_found)
        | ok (some pol) ↦ elim (validate (some pol)) [
          | some code ↦ (s, err (invalid_policy code))
          | none ↦ elim (stamp_plan env fresh pol plan) [
            | none ↦ (s, err hash_failed)
            | some p ↦
                let d = decision_of p (first_match env p.actions p.proposer_kind 0 pol.rules) in
                after_submission d (b.submission s p d)
          ]
        ]
      ]

-- MemService behind the two interfaces.
abbrev pub mem_backend : Env → ℕ → Backend MemService
mem_backend env now = record {
  load = λ s org repo. ok (load_policy s org repo);
  submission = record_submission env now;
}

after-same :
    (env : Env) (now : ℕ) (d : Decision) (r : MemService × Outcome (Unit {0}))
    → after_submission (mem_backend env now) d r ≡ after_record d r
after-same env now d (s, ok x) = refl
after-same env now d (s, err e) = refl
after-same env now d (s, panic) = refl

-- MemService.SubmitPlan does what Engine.SubmitPlan does over MemService: the same state and the same
-- outcome, for every plan, nil included.
pub engine_submit_plan-mem :
    (env : Env) (now fresh : ℕ) (s : MemService) (plan : Option Plan)
    → engine_submit_plan (mem_backend env now) env fresh s plan ≡ submit_plan env now fresh s plan
unfolding engine_submit_plan submit_plan load_policy submit_stamped
engine_submit_plan-mem env now fresh s none = refl
engine_submit_plan-mem env now fresh s (some plan) =
    elim (Bool-cases (not (is_valid_proposer plan.proposer_kind))) [
      | inl bad ↦ rw bad
      | inr good ↦ rw good (elim (Option-cases (lookup ℕ_discrete plan.org_id s.policies)) [
        | inl e ↦ rw e
        | inr (pol, e) ↦ rw e (elim (Option-cases (validate (some pol))) [
          | inr (code, v) ↦ rw v
          | inl v ↦ rw v (elim (Option-cases (stamp_plan env fresh pol plan)) [
            | inl q ↦ rw q
            | inr (p, q) ↦
                let d = decision_of p (first_match env p.actions p.proposer_kind 0 pol.rules) in
                rw q (after-same env now d (record_submission env now s p d))
          ])
        ])
      ])
    ]
