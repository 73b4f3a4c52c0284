-- ===== src/Policy/Service.antt =====
-- MemService (memservice.go), the reference implementation of ApprovalService, with the request and
-- outcome types of service.go. Each method takes the state and returns the new one with its result;
-- the mutex holds for the whole method, so a history is a sequence of calls. The clock's reading
-- `now` and the fresh ids are arguments. `panic` is an index out of range.
pub mod Submit
pub mod Decide
pub mod Escalate
pub mod History
pub mod Quorum
pub mod Effect
pub mod Invariant
pub mod Submitted
pub mod Safety
pub mod Intact
pub mod Finality
pub mod Ladder
pub mod Walk
pub mod Selection
use gitscale.Common.{
  ℕ, suc, ◌+◌, Bool, true, false, Option, none, some, List, [], ◌∷◌, ◌++◌, ◌==◌, length, ltb,
  if◌then◌else◌, ℕ_discrete,
}
use gitscale.Common.Int.{ℤ, pos}
use gitscale.Common.Map.{lookup, insert}
use gitscale.Common.Str.{Str}
use gitscale.Policy.Types.{
  Policy, Plan, PlanStatus, pending, EscalationRung, ProposerKind, agent, service, other_proposer,
}
use gitscale.Policy.Validate.{ValidationCode, validate}
use gitscale.Policy.Env.{Env, Payload}
use gitscale.Policy.Audit.{
  AuditRow, AuditEventKind, Actor, no_actor, own_copy, ActorKind, actor_agent, actor_service,
  system, genesis_hash, last_hash, append_row,
}

-- The codes of APIError, and the other errors that the methods return.
pub data Error : Type 0 where
  plan_not_found plan_already_decided plan_expired rung_out_of_range : Error
  decision_unauthorized policy_not_found nil_plan invalid_proposer_kind : Error
  hash_failed : Error
  invalid_policy : ValidationCode → Error

pub data Outcome (A : Type 0) : Type 0 where
  ok : A → Outcome A
  err : Error → Outcome A
  panic : Outcome A

-- Votes by rung, and under a rung by approver; the inner values are always true.
abbrev pub Votes : Type 0
Votes = List (ℤ × List (ℕ × Bool))

-- `expires_at` is Go's zero time, 0, where the decision carried no expiry.
pub record MemPlan : Type 0 where
  pub plan : Plan
  pub status : PlanStatus
  pub current_rung : ℤ
  pub approvals : Votes
  pub rejections : Votes
  pub ladder : List EscalationRung
  pub policy : Policy
  pub expires_at : ℕ

pub record MemService : Type 0 where
  pub policies : List (ℕ × Policy)
  pub plans : List (ℕ × MemPlan)
  pub audit : List (ℕ × List AuditRow)

unfoldable pub new_mem_service : MemService
new_mem_service = record { policies = []; plans = []; audit = [] }

-- A Go map of slices reads as the empty slice at a key that is absent.
unfoldable pub audit_rows : ℕ → MemService → List AuditRow
audit_rows policy_id s = elim (lookup ℕ_discrete policy_id s.audit) [ none ↦ [] | some rows ↦ rows ]

-- AuditChain, as it is when it returns: `reread` of Policy/Audit is what a later reader sees.
unfoldable pub audit_chain : MemService → ℕ → List AuditRow
unfolding audit_rows
audit_chain s policy_id = audit_rows policy_id s

-- The row that appendAuditLocked builds, before AppendRow stamps it.
unfoldable pub audit_row :
    MemService → ℕ → Option ℕ → AuditEventKind → Actor → ActorKind → Str → ℕ → AuditRow
audit_row s policy_id plan_id kind actor_id actor_kind payload now = record {
  id = length (audit_rows policy_id s) + 1;
  policy_id = policy_id;
  plan_id = plan_id;
  event_kind = kind;
  actor_id = actor_id;
  actor_kind = actor_kind;
  payload = payload;
  prev_hash = genesis_hash;
  row_hash = genesis_hash;
  created_at = now;
}

-- appendAuditLocked; `none` where the row cannot be hashed.
unfoldable pub append_audit :
    Env
    → MemService
    → ℕ
    → Option ℕ
    → AuditEventKind
    → Actor
    → ActorKind
    → Str
    → ℕ
    → Option MemService
append_audit env s policy_id plan_id kind actor_id actor_kind payload now =
    elim (append_row env (last_hash genesis_hash (audit_rows policy_id s))
      (audit_row s policy_id plan_id kind actor_id actor_kind payload now)) [
        | none ↦ none
        | some row ↦ some (record s {
          audit = insert ℕ_discrete policy_id (audit_rows policy_id s ++ row ∷ []) s.audit;
        })
      ]

-- The actor that is nobody or that the method copies, `actor := in.ActorID`.
unfoldable pub copied : Option ℕ → Actor
copied none = no_actor
copied (some id) = own_copy id

-- `_ = s.appendAuditLocked(…)` for the row of plan `mp`: an error is dropped.
unfoldable pub log_audit :
    Env → MemService → MemPlan → AuditEventKind → Option ℕ → ActorKind → Payload → ℕ → MemService
log_audit env s mp kind actor_id actor_kind payload now =
    elim (append_audit env s mp.policy.id (some mp.plan.id) kind (copied actor_id) actor_kind
      (env.marshal_payload payload) now) [ none ↦ s | some s' ↦ s' ]

-- The plan is a pointer in the map: writing its fields is putting it back.
unfoldable pub put_plan : ℕ → MemPlan → MemService → MemService
put_plan id mp s = record s { plans = insert ℕ_discrete id mp s.plans }

-- RegisterPolicy
unfoldable pub register_policy : MemService → Policy → MemService × Outcome (Unit {0})
register_policy s p = elim (validate (some p)) [
  | some code ↦ (s, err (invalid_policy code))
  | none ↦ (record s { policies = insert ℕ_discrete p.org_id p s.policies }, ok tt)
]

-- LoadPolicy
unfoldable pub load_policy : MemService → ℕ → Option ℕ → Option Policy
load_policy s org_id repo_id = lookup ℕ_discrete org_id s.policies

-- GetPlanStatus
unfoldable pub get_plan_status : MemService → ℕ → Outcome PlanStatus
get_plan_status s plan_id = elim (lookup ℕ_discrete plan_id s.plans) [
  | none ↦ err plan_not_found
  | some mp ↦ ok mp.status
]

abbrev pub is_pending : PlanStatus → Bool
is_pending pending = true
is_pending _ = false

-- contains
unfoldable pub contains : List ℕ → ℕ → Bool
contains [] needle = false
contains (id ∷ ids) needle = let rest = contains ids needle in if id == needle then true else rest

-- actorKindFromProposer
unfoldable pub actor_kind_from_proposer : ProposerKind → ActorKind
actor_kind_from_proposer agent = actor_agent
actor_kind_from_proposer service = actor_service
actor_kind_from_proposer (other_proposer _) = system
