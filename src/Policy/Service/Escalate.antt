-- ===== src/Policy/Service/Escalate.antt =====
-- Escalate.
use gitscale.Common.{ℕ, Bool, true, false, not, none, some, length, if◌then◌else◌, ℕ_discrete}
use gitscale.Common.Int.{ℤ, pos, leb_ℤ, eq_ℤ, get_at, pred_ℤ, suc_ℤ}
use gitscale.Common.Map.{lookup}
use gitscale.Common.Str.{Str}
use gitscale.Policy.Types.{
  pending, auto_denied, OnTimeout, notify_next, auto_deny, fall_back, other_on_timeout,
}
use gitscale.Policy.Env.{Env, Payload, denied, ladder_exhausted, fell_back, notified_next}
use gitscale.Policy.Audit.{system, event_auto_denied, event_escalated}
use gitscale.Policy.Service.{
  MemService, MemPlan, Outcome, ok, err, panic, plan_not_found, plan_already_decided,
  rung_out_of_range, log_audit, put_plan, is_pending,
}

pub record EscalateInput : Type 0 where
  pub plan_id : ℕ
  pub from_rung : ℤ
  pub reason : Str

pub record EscalateOutcome : Type 0 where
  pub new_rung : ℤ
  pub on_timeout : OnTimeout
  pub final_rung : Bool

-- `mp.status = auto_denied` and its audit row, for either reason.
unfoldable pub auto_deny_plan :
    Env
    → ℕ
    → MemService
    → EscalateInput
    → MemPlan
    → OnTimeout
    → Payload
    → MemService × Outcome EscalateOutcome
auto_deny_plan env now s i mp o payload =
    let mp' = record mp { status = auto_denied } in
    (
      log_audit env (put_plan i.plan_id mp' s) mp' event_auto_denied none system payload now,
      ok (record { new_rung = mp.current_rung; on_timeout = o; final_rung = true }),
    )

-- The plan, still pending, moves to the rung `next`.
unfoldable pub move_rung :
    Env
    → ℕ
    → MemService
    → EscalateInput
    → MemPlan
    → OnTimeout
    → Payload
    → ℤ
    → MemService × Outcome EscalateOutcome
move_rung env now s i mp o payload next =
    let mp' = record mp { current_rung = next; status = pending } in
    (
      log_audit env (put_plan i.plan_id mp' s) mp' event_escalated none system payload now,
      ok (record { new_rung = next; on_timeout = o; final_rung = false }),
    )

-- The switch on the rung's OnTimeout.
unfoldable pub escalate_rung :
    Env
    → ℕ
    → MemService
    → EscalateInput
    → MemPlan
    → OnTimeout
    → MemService × Outcome EscalateOutcome
escalate_rung env now s i mp auto_deny =
    auto_deny_plan env now s i mp auto_deny (denied mp.current_rung i.reason)
escalate_rung env now s i mp fall_back =
    let next = pred_ℤ mp.current_rung in
    move_rung env now s i mp fall_back (fell_back i.from_rung next) next
escalate_rung env now s i mp notify_next =
    let next = suc_ℤ mp.current_rung in
    if leb_ℤ (pos (length mp.ladder)) next
    then auto_deny_plan env now s i mp notify_next (ladder_exhausted mp.current_rung)
    else move_rung env now s i mp notify_next (notified_next i.from_rung next) next
escalate_rung env now s i mp (other_on_timeout o) =
    (s, ok (record { new_rung = pos 0; on_timeout = other_on_timeout o; final_rung = false }))

-- Escalate
unfoldable pub escalate :
    Env → ℕ → MemService → EscalateInput → MemService × Outcome EscalateOutcome
escalate env now s i = elim (lookup ℕ_discrete i.plan_id s.plans) [
  | none ↦ (s, err plan_not_found)
  | some mp ↦
      if not (is_pending mp.status)
      then (s, err plan_already_decided)
      else if not (eq_ℤ i.from_rung mp.current_rung)
      then (s, err rung_out_of_range)
      else elim (get_at mp.ladder mp.current_rung) [
        | none ↦ (s, panic)
        | some rung ↦ escalate_rung env now s i mp rung.on_timeout
      ]
]
