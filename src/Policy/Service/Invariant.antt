-- ===== src/Policy/Service/Invariant.antt =====
-- The invariants of the service's state, over the effects of Policy/Service/Effect.
use gitscale.Common.{ℕ, ◌≡◌, sym, ◌∙◌, ite, Option, some, ℕ_discrete}
use mathlib.Core.Option.{some-injective}
use mathlib.Core.Path.{subst}
use gitscale.Policy.Env.{Env, Payload}
use gitscale.Policy.Audit.{AuditEventKind, ActorKind}
use gitscale.Policy.Service.{MemService, MemPlan, put_plan, log_audit}
use gitscale.Policy.Service.History.{
  find_plan, find_plan-put_plan, plans-log_audit, AuditOk, log_audit-AuditOk, put_plan-AuditOk,
}
use gitscale.Policy.Service.Quorum.{PlanOk}
use gitscale.Policy.Service.Effect.{Effect, same, wrote}

abbrev pub PlansOk : MemService → Type 0
PlansOk s = (id : ℕ) (mp : MemPlan) → find_plan id s ≡ some mp → PlanOk mp

pub put_plan-PlansOk :
    (id : ℕ) (mp : MemPlan) (s : MemService) → PlanOk mp → PlansOk s → PlansOk (put_plan id mp s)
put_plan-PlansOk id mp s new h j mp' e =
    go (ℕ_discrete id j) (sym (find_plan-put_plan id j mp s) ∙ e)
  where
    go : (d : Dec (id ≡ j)) → ite d (some mp) (find_plan j s) ≡ some mp' → PlanOk mp'
    go (yes _) q = subst PlanOk (some-injective _ _ q) new
    go (no _) q = h j mp' q

log_audit-PlansOk :
    (env : Env) (s : MemService) (mp : MemPlan) (k : AuditEventKind) (a : Option ℕ) (ak : ActorKind)
    (payload : Payload) (now : ℕ)
    → PlansOk s
    → PlansOk (log_audit env s mp k a ak payload now)
log_audit-PlansOk env s mp k a ak payload now h = rw (plans-log_audit env s mp k a ak payload now) h

pub Effect-PlansOk : {env : Env} {s s' : MemService} → Effect env s s' → PlansOk s → PlansOk s'
Effect-PlansOk (same e) h = subst PlansOk (sym e) h
Effect-PlansOk {env} {s} (wrote id mp mp' k a ak payload now e c q) h = subst PlansOk (sym q) (
    log_audit-PlansOk env (put_plan id mp' s) mp' k a ak payload now
      (put_plan-PlansOk id mp' s (c.keeps (h id mp e)) h))

pub Effect-AuditOk :
    (proposers : ℕ → ℕ) {env : Env} {s s' : MemService}
    → Effect env s s'
    → AuditOk proposers env s
    → AuditOk proposers env s'
Effect-AuditOk proposers {env} (same e) h = subst (AuditOk proposers env) (sym e) h
Effect-AuditOk proposers {env} {s} (wrote id mp mp' k a ak payload now e c q) h =
    subst (AuditOk proposers env) (sym q) (
      log_audit-AuditOk proposers env (put_plan id mp' s) mp' k a ak payload now
        (put_plan-AuditOk proposers env id mp' s h))
