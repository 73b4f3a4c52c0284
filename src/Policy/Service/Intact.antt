-- ===== src/Policy/Service/Intact.antt =====
-- The audit chain after a history of calls on a new service (memservice.go, audit.go).
use gitscale.Common.{ℕ, ◌≡◌, some, List, [], ◌∷◌, All, map, refl, ap, ◌∙◌, match_rule}
use gitscale.Common.Map.{lookup}
use gitscale.Policy.Types.{Policy}
use gitscale.Policy.Env.{Env}
use gitscale.Policy.Validate.{validate}
use gitscale.Policy.Service.{
  MemService, Outcome, new_mem_service, register_policy, audit_rows, audit_chain,
}
use gitscale.Policy.Service.History.{
  Call, registers, submits, decides, escalates, step, run, Steady, AuditOk,
}
use gitscale.Policy.Service.Effect.Decision.{record_decision-Effect}
use gitscale.Policy.Service.Effect.Escalation.{escalate-Effect}
use gitscale.Policy.Service.Invariant.{Effect-AuditOk}
use gitscale.Policy.Service.Submitted.{KeepsProposer, submit_plan-AuditOk}
use gitscale.Policy.Audit.{
  AuditRow, Actor, no_actor, own_copy, proposer_of, reread_actor, reread, verify_chain, intact,
}
use gitscale.Policy.Audit.Chain.{verify_chain_iff}

register_policy-AuditOk :
    (proposers : ℕ → ℕ) (env : Env) (s : MemService) (p : Policy)
    → AuditOk proposers env s
    → AuditOk proposers env (register_policy s p).0
unfolding register_policy audit_rows
register_policy-AuditOk proposers env s p h =
    match_rule (λ (r : MemService × Outcome (Unit {0})). AuditOk proposers env r.0)
      (validate (some p)) (λ _. h) (λ _ _. h)

-- The call is not a submission, or its plan still has the proposer that it was submitted with.
abbrev pub KeepsProposers : (proposers : ℕ → ℕ) → Call → Type 0
KeepsProposers proposers (submits now fresh plan) = KeepsProposer proposers plan
KeepsProposers proposers c = Unit

pub step-AuditOk :
    (proposers : ℕ → ℕ) (env : Env) (s : MemService) (c : Call)
    → KeepsProposers proposers c
    → AuditOk proposers env s
    → AuditOk proposers env (step env s c)
unfolding step
step-AuditOk proposers env s (registers p) k h = register_policy-AuditOk proposers env s p h
step-AuditOk proposers env s (submits now fresh plan) k h =
    submit_plan-AuditOk proposers env now fresh s plan k h
step-AuditOk proposers env s (decides now i) k h =
    Effect-AuditOk proposers (record_decision-Effect env now s i) h
step-AuditOk proposers env s (escalates now i) k h =
    Effect-AuditOk proposers (escalate-Effect env now s i) h

pub run-AuditOk :
    (proposers : ℕ → ℕ) (env : Env) (s : MemService) (cs : List Call)
    → All (KeepsProposers proposers) cs
    → AuditOk proposers env s
    → AuditOk proposers env (run env s cs)
unfolding run
run-AuditOk proposers env s [] k h = h
run-AuditOk proposers env s (c ∷ cs) k h =
    run-AuditOk proposers env (step env s c) cs k.1 (step-AuditOk proposers env s c k.0 h)

new_mem_service-AuditOk : (proposers : ℕ → ℕ) (env : Env) → AuditOk proposers env new_mem_service
unfolding new_mem_service audit_rows lookup
new_mem_service-AuditOk proposers env pid = (tt, tt)

reread-Steady : (proposers : ℕ → ℕ) (a : Actor) → Steady proposers a → reread_actor proposers a ≡ a
unfolding reread_actor
reread-Steady proposers no_actor h = refl
reread-Steady proposers (own_copy id) h = refl
reread-Steady proposers (proposer_of object id) h = ap (proposer_of object) h

map-reread :
    (proposers : ℕ → ℕ) (rows : List AuditRow)
    → All (λ r. Steady proposers r.actor_id) rows
    → map (reread proposers) rows ≡ rows
unfolding reread
map-reread proposers [] h = refl
map-reread proposers (r ∷ rows) h =
    ap (λ a. record r { actor_id = a } ∷ map (reread proposers) rows)
      (reread-Steady proposers r.actor_id h.0)
    ∙ ap (λ rs. r ∷ rs) (map-reread proposers rows h.1)

-- After any sequence of calls on a new service, the audit chain of every policy passes VerifyChain,
-- read through the pointers that submissions put into it, provided that every plan that was submitted
-- has, when the chain is read, the proposer that it was submitted with.
pub verify_chain-run :
    (env : Env) (cs : List Call) (proposers : ℕ → ℕ) (pid : ℕ)
    → All (KeepsProposers proposers) cs
    → verify_chain env (map (reread proposers) (audit_chain (run env new_mem_service cs) pid))
      ≡ intact
unfolding audit_chain
verify_chain-run env cs proposers pid keeps =
    let (linked, steady) =
      run-AuditOk proposers env new_mem_service cs keeps (new_mem_service-AuditOk proposers env)
        pid in
    rw (map-reread proposers _ steady) ((verify_chain_iff env _).1 linked)
