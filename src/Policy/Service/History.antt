-- ===== src/Policy/Service/History.antt =====
-- Sequences of calls, and what each call does to the plans and to the audit rows.
use gitscale.Common.{
  ℕ, ◌≡◌, ite, Option, none, some, List, [], ◌∷◌, ◌++◌, arith, ℕ_discrete, Option-cases, All,
  All-append, sym, inl, inr,
}
use mathlib.Core.Path.{subst}
use gitscale.Common.Map.{lookup, insert, lookup-insert}
use gitscale.Common.Str.{Str}
use gitscale.Policy.Types.{Policy, Plan}
use gitscale.Policy.Env.{Env, Payload}
use gitscale.Policy.Audit.{
  Actor, proposer_of, AuditRow, AuditEventKind, ActorKind, genesis_hash, last_hash, append_row,
}
use gitscale.Policy.Audit.Chain.{IsLinked, verify_chain-append_row}
use gitscale.Policy.Service.{
  MemService, MemPlan, register_policy, audit_rows, audit_row, append_audit, log_audit, put_plan,
  copied,
}
use gitscale.Policy.Service.Submit.{submit_plan}
use gitscale.Policy.Service.Decide.{DecisionInput, record_decision}
use gitscale.Policy.Service.Escalate.{EscalateInput, escalate}

-- A call with the clock's reading and the fresh id that it would use.
pub data Call : Type 0 where
  registers : Policy → Call
  submits : ℕ → ℕ → Option Plan → Call
  decides : ℕ → DecisionInput → Call
  escalates : ℕ → EscalateInput → Call

unfoldable pub step : Env → MemService → Call → MemService
step env s (registers p) = (register_policy s p).0
step env s (submits now fresh plan) = (submit_plan env now fresh s plan).0
step env s (decides now i) = (record_decision env now s i).0
step env s (escalates now i) = (escalate env now s i).0

unfoldable pub run : Env → MemService → List Call → MemService
run env s [] = s
run env s (c ∷ cs) = run env (step env s c) cs

abbrev pub find_plan : ℕ → MemService → Option MemPlan
find_plan id s = lookup ℕ_discrete id s.plans

pub find_plan-put_plan :
    (id j : ℕ) (mp : MemPlan) (s : MemService)
    → find_plan j (put_plan id mp s) ≡ ite (ℕ_discrete id j) (some mp) (find_plan j s)
unfolding put_plan
find_plan-put_plan id j mp s = lookup-insert ℕ_discrete id j mp s.plans

pub plans-append_audit :
    (env : Env) (s s' : MemService) (pid : ℕ) (plan : Option ℕ) (k : AuditEventKind) (a : Actor)
    (ak : ActorKind) (payload : Str) (now : ℕ)
    → append_audit env s pid plan k a ak payload now ≡ some s'
    → s'.plans ≡ s.plans
unfolding append_audit
plans-append_audit env s s' pid plan k a ak payload now h = ground arith

pub plans-log_audit :
    (env : Env) (s : MemService) (mp : MemPlan) (k : AuditEventKind) (a : Option ℕ) (ak : ActorKind)
    (payload : Payload) (now : ℕ)
    → (log_audit env s mp k a ak payload now).plans ≡ s.plans
unfolding log_audit append_audit copied
plans-log_audit env s mp k a ak payload now = ground arith

-- The plan that a row's actor points into, if any, still has its proposer.
abbrev pub Steady : (proposers : ℕ → ℕ) → Actor → Type 0
Steady proposers (proposer_of object id) = proposers object ≡ id
Steady proposers a = Unit

-- What is kept of one policy's rows: they form a chain, and their actors are what they were.
abbrev pub RowsOk : (proposers : ℕ → ℕ) → Env → List AuditRow → Type 0
RowsOk proposers env rows =
    IsLinked env genesis_hash rows × All (λ r. Steady proposers r.actor_id) rows

abbrev pub AuditOk : (proposers : ℕ → ℕ) → Env → MemService → Type 0
AuditOk proposers env s = (pid : ℕ) → RowsOk proposers env (audit_rows pid s)

append_row-actor :
    (env : Env) (prev : Str) (r r' : AuditRow)
    → append_row env prev r ≡ some r'
    → r'.actor_id ≡ r.actor_id
unfolding append_row
append_row-actor env prev r r' h = ground arith

audit_rows-insert :
    (pid j : ℕ) (rows : List AuditRow) (s : MemService)
    → audit_rows j (record s { audit = insert ℕ_discrete pid rows s.audit })
      ≡ ite (ℕ_discrete pid j) rows (audit_rows j s)
unfolding audit_rows
audit_rows-insert pid j rows s = ground (arith, lookup-insert ℕ_discrete pid j rows s.audit)

-- A successful append adds one stamped row to the rows of its policy.
append_audit-some :
    (env : Env) (s s' : MemService) (pid : ℕ) (plan : Option ℕ) (k : AuditEventKind) (a : Actor)
    (ak : ActorKind) (payload : Str) (now : ℕ)
    → append_audit env s pid plan k a ak payload now ≡ some s'
    → (row : AuditRow) × (append_row env
          (last_hash genesis_hash (audit_rows pid s))
          (audit_row s pid plan k a ak payload now)
        ≡ some row)
      × (record s { audit = insert ℕ_discrete pid (audit_rows pid s ++ row ∷ []) s.audit } ≡ s')
unfolding append_audit
append_audit-some env s s' pid plan k a ak payload now h = ground arith

pub append_audit-AuditOk :
    (proposers : ℕ → ℕ) (env : Env) (s s' : MemService) (pid : ℕ) (plan : Option ℕ)
    (k : AuditEventKind) (a : Actor) (ak : ActorKind) (payload : Str) (now : ℕ)
    → append_audit env s pid plan k a ak payload now ≡ some s'
    → Steady proposers a
    → AuditOk proposers env s
    → AuditOk proposers env s'
unfolding audit_row
append_audit-AuditOk proposers env s s' pid plan k a ak payload now h st ok j =
    let (row, stamped, e) = append_audit-some env s s' pid plan k a ak payload now h in
    rw (← e, audit_rows-insert pid j (audit_rows pid s ++ row ∷ []) s)
      (elim (ℕ_discrete pid j)
        as (λ d. RowsOk proposers env (ite d (audit_rows pid s ++ row ∷ []) (audit_rows j s))) [
          | yes _ ↦ (
            verify_chain-append_row env (audit_rows pid s) _ row (ok pid).0 stamped,
            All-append (λ r. Steady proposers r.actor_id) (audit_rows pid s) (row ∷ []) (ok pid).1
                (steady row (append_row-actor env _ _ row stamped), tt),
          )
          | no _ ↦ ok j
        ])
  where
    steady : (row : AuditRow) → row.actor_id ≡ a → Steady proposers row.actor_id
    steady row e = subst (Steady proposers) (sym e) st

copied-Steady : (proposers : ℕ → ℕ) (a : Option ℕ) → Steady proposers (copied a)
unfolding copied
copied-Steady proposers none = tt
copied-Steady proposers (some id) = tt

pub log_audit-AuditOk :
    (proposers : ℕ → ℕ) (env : Env) (s : MemService) (mp : MemPlan) (k : AuditEventKind)
    (a : Option ℕ) (ak : ActorKind) (payload : Payload) (now : ℕ)
    → AuditOk proposers env s
    → AuditOk proposers env (log_audit env s mp k a ak payload now)
unfolding log_audit
log_audit-AuditOk proposers env s mp k a ak payload now ok =
    elim (Option-cases (
      append_audit env s mp.policy.id (some mp.plan.id) k (copied a) ak
        (env.marshal_payload payload) now)) [
          | inl e ↦ rw (e, log_audit) ok
          | inr (s', e) ↦
              rw (e, log_audit)
                (append_audit-AuditOk proposers env s s' mp.policy.id (some mp.plan.id) k (copied a)
                  ak _ now e (copied-Steady proposers a) ok)
        ]

pub put_plan-AuditOk :
    (proposers : ℕ → ℕ) (env : Env) (id : ℕ) (mp : MemPlan) (s : MemService)
    → AuditOk proposers env s
    → AuditOk proposers env (put_plan id mp s)
unfolding put_plan audit_rows
put_plan-AuditOk proposers env id mp s ok = ok
