-- ===== src/Policy/Service/Decide.antt =====
-- RecordDecision.
use gitscale.Common.{
  ℕ, Bool, true, false, not, ◌&&◌, ◌||◌, none, some, List, [], ◌∷◌, length, ltb, if◌then◌else◌,
  ℕ_discrete,
}
use gitscale.Common.Int.{ℤ, pos, leb_ℤ, eq_ℤ, get_at, ℤ-discrete}
use gitscale.Common.Map.{lookup, insert}
use gitscale.Common.Str.{Str, Str-discrete}
use gitscale.Policy.Types.{PlanStatus, pending, approved, rejected, expired, ApproverGroup}
use gitscale.Policy.Env.{Env, Payload, expiry_window_elapsed, rejection, approval, approve_partial}
use gitscale.Policy.Audit.{
  AuditEventKind, human, system, event_submitted, event_approved, event_rejected, event_expired,
}
use gitscale.Policy.Service.{
  MemService, MemPlan, Votes, Outcome, ok, err, panic, plan_not_found, plan_already_decided,
  plan_expired, rung_out_of_range, decision_unauthorized, log_audit, put_plan, is_pending, contains,
}

pub record DecisionInput : Type 0 where
  pub plan_id : ℕ
  pub actor_id : ℕ
  pub approve : Bool
  pub reason : Str
  pub rung_index : ℤ

pub record DecisionOutcome : Type 0 where
  pub status : PlanStatus
  pub quorum_met : Bool
  pub approvals : ℕ
  pub rejections : ℕ

-- The votes at a rung: the inner map, empty where there is none yet.
unfoldable pub votes_at : ℤ → Votes → List (ℕ × Bool)
votes_at rung v = elim (lookup ℤ-discrete rung v) [ none ↦ [] | some m ↦ m ]

-- `votes[rung][actor] = true`, which makes the inner map first where it is nil.
unfoldable pub add_vote : ℤ → ℕ → Votes → Votes
add_vote rung actor v = insert ℤ-discrete rung (insert ℕ_discrete actor true (votes_at rung v)) v

-- The plan with a new status, and its audit row.
abbrev pub settle :
    Env
    → ℕ
    → MemService
    → DecisionInput
    → MemPlan
    → PlanStatus
    → AuditEventKind
    → Payload
    → MemService
settle env now s i mp status kind payload =
    let mp' = record mp { status = status } in
    log_audit env (put_plan i.plan_id mp' s) mp' kind (some i.actor_id) human payload now

-- After the vote is recorded in `mp`: rejected on any rejection, approved on a quorum, else pending.
unfoldable pub tally :
    Env
    → ℕ
    → MemService
    → DecisionInput
    → MemPlan
    → ApproverGroup
    → MemService × Outcome DecisionOutcome
tally env now s i mp group =
    let yeas = length (votes_at i.rung_index mp.approvals) in
    let nays = length (votes_at i.rung_index mp.rejections) in
    if ltb 0 nays
    then (
      settle env now s i mp rejected event_rejected (rejection i.rung_index i.reason),
      ok (record { status = rejected; quorum_met = false; approvals = yeas; rejections = nays }),
    )
    else if leb_ℤ group.required_count (pos yeas)
    then (
      settle env now s i mp approved event_approved (approval i.rung_index yeas),
      ok (record { status = approved; quorum_met = true; approvals = yeas; rejections = nays }),
    )
    else (
      settle env now s i mp mp.status event_submitted (approve_partial i.rung_index yeas),
      ok (record { status = pending; quorum_met = false; approvals = yeas; rejections = nays }),
    )

abbrev pub has_reason : Str → Bool
has_reason [] = false
has_reason (_ ∷ _) = true

-- The vote of an actor who belongs to the rung's group.
unfoldable pub vote :
    Env
    → ℕ
    → MemService
    → DecisionInput
    → MemPlan
    → ApproverGroup
    → MemService × Outcome DecisionOutcome
vote env now s i mp group =
    if i.approve
    then tally env now s i (record mp { approvals = add_vote i.rung_index i.actor_id mp.approvals })
        group
    else if not (has_reason i.reason)
    then (s, err decision_unauthorized)
    else tally env now s i
        (record mp { rejections = add_vote i.rung_index i.actor_id mp.rejections }) group

-- The checks on the rung and the actor.
unfoldable pub decide_rung :
    Env → ℕ → MemService → DecisionInput → MemPlan → MemService × Outcome DecisionOutcome
decide_rung env now s i mp =
    if not (leb_ℤ (pos 0) i.rung_index) || leb_ℤ (pos (length mp.ladder)) i.rung_index
    then (s, err rung_out_of_range)
    else if not (eq_ℤ i.rung_index mp.current_rung)
    then (s, err rung_out_of_range)
    else elim (get_at mp.ladder mp.current_rung) [
      | none ↦ (s, panic)
      | some rung ↦ elim (lookup Str-discrete rung.group_name mp.policy.approver_groups) [
        | none ↦ (s, err decision_unauthorized)
        | some group ↦
            if not (contains group.human_user_ids i.actor_id)
            then (s, err decision_unauthorized)
            else vote env now s i mp group
      ]
    ]

abbrev pub has_expired : MemPlan → ℕ → Bool
has_expired mp now = ltb 0 mp.expires_at && ltb mp.expires_at now

-- `mp.status = expired` and its audit row.
abbrev pub expire : Env → ℕ → MemService → ℕ → MemPlan → MemService
expire env now s id mp =
    let mp' = record mp { status = expired } in
    log_audit env (put_plan id mp' s) mp' event_expired none system expiry_window_elapsed now

-- RecordDecision
unfoldable pub record_decision :
    Env → ℕ → MemService → DecisionInput → MemService × Outcome DecisionOutcome
record_decision env now s i = elim (lookup ℕ_discrete i.plan_id s.plans) [
  | none ↦ (s, err plan_not_found)
  | some mp ↦
      if not (is_pending mp.status)
      then (s, err plan_already_decided)
      else if has_expired mp now
      then (expire env now s i.plan_id mp, err plan_expired)
      else decide_rung env now s i mp
]
