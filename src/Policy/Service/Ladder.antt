-- ===== src/Policy/Service/Ladder.antt =====
-- Escalate on the plan alone: `escalated` is a plan after one escalation (memservice.go, Escalate).
use gitscale.Common.{
  ℕ, ◌≡◌, refl, ◌∙◌, true, not, Option, none, some, arith, length, ℕ_discrete, if_rule, Bool-cases,
  Option-cases, inl, inr, if◌then◌else◌,
}
use mathlib.Core.Logic.{if_pos}
use gitscale.Common.Int.{ℤ, pos, get_at, suc_ℤ, pred_ℤ, leb_ℤ, eq_ℤ}
use gitscale.Policy.Types.{
  pending, auto_denied, OnTimeout, notify_next, auto_deny, fall_back, other_on_timeout,
}
use gitscale.Policy.Env.{Env, Payload}
use gitscale.Policy.Service.{MemService, MemPlan, Outcome, put_plan, log_audit, is_pending}
use gitscale.Policy.Service.Escalate.{
  EscalateInput, EscalateOutcome, auto_deny_plan, move_rung, escalate_rung, escalate,
}
use gitscale.Policy.Service.History.{find_plan, find_plan-put_plan, plans-log_audit}

-- The plan after its rung has timed out with the given disposition.
unfoldable pub escalated_by : OnTimeout → MemPlan → MemPlan
escalated_by auto_deny mp = record mp { status = auto_denied }
escalated_by fall_back mp = record mp { current_rung = pred_ℤ mp.current_rung; status = pending }
escalated_by notify_next mp =
    if leb_ℤ (pos (length mp.ladder)) (suc_ℤ mp.current_rung)
    then record mp { status = auto_denied }
    else record mp { current_rung = suc_ℤ mp.current_rung; status = pending }
escalated_by (other_on_timeout _) mp = mp

-- A pending plan after one escalation.
unfoldable pub escalated : MemPlan → MemPlan
escalated mp = elim (get_at mp.ladder mp.current_rung) [
  | none ↦ mp
  | some rung ↦ escalated_by rung.on_timeout mp
]

find_written :
    (env : Env) (s : MemService) (id : ℕ) (mp' : MemPlan) (k : _) (a : Option ℕ) (ak : _)
    (payload : Payload) (now : ℕ)
    → find_plan id (log_audit env (put_plan id mp' s) mp' k a ak payload now) ≡ some mp'
find_written env s id mp' k a ak payload now =
    rw (plans-log_audit env (put_plan id mp' s) mp' k a ak payload now)
      (find_plan-put_plan id id mp' s ∙ if_pos (ℕ_discrete id id) refl _ _)

escalate_rung-finds :
    (env : Env) (now : ℕ) (s : MemService) (i : EscalateInput) (mp : MemPlan) (o : OnTimeout)
    → find_plan i.plan_id s ≡ some mp
    → find_plan i.plan_id (escalate_rung env now s i mp o).0 ≡ some (escalated_by o mp)
unfolding escalate_rung auto_deny_plan move_rung escalated_by
escalate_rung-finds env now s i mp auto_deny f = find_written env s i.plan_id _ _ _ _ _ now
escalate_rung-finds env now s i mp fall_back f = find_written env s i.plan_id _ _ _ _ _ now
escalate_rung-finds env now s i mp notify_next f =
    elim (Bool-cases (leb_ℤ (pos (length mp.ladder)) (suc_ℤ mp.current_rung))) [
      | inl e ↦ rw e (find_written env s i.plan_id _ _ _ _ _ now)
      | inr e ↦ rw e (find_written env s i.plan_id _ _ _ _ _ now)
    ]
escalate_rung-finds env now s i mp (other_on_timeout o) f = f

-- Escalate, called for the rung where a pending plan stands, leaves that plan as `escalated` says.
pub escalate-escalated :
    (env : Env) (now : ℕ) (s : MemService) (i : EscalateInput) (mp : MemPlan)
    → find_plan i.plan_id s ≡ some mp
    → mp.status ≡ pending
    → i.from_rung ≡ mp.current_rung
    → find_plan i.plan_id (escalate env now s i).0 ≡ some (escalated mp)
unfolding escalate escalated
escalate-escalated env now s i mp f p r =
    rw (f, escalate)
      (if_rule P (not (is_pending mp.status)) (λ e. absurd (not_pending mp p e))
        (λ _.
          if_rule P (not (eq_ℤ i.from_rung mp.current_rung)) (λ e. absurd (not_equal r e))
            (λ _. elim (Option-cases (get_at mp.ladder mp.current_rung)) [
              | inl e ↦ rw (e, escalated) f
              | inr (rung, e) ↦
                  rw (e, escalated) (escalate_rung-finds env now s i mp rung.on_timeout f)
            ])))
  where
    P : MemService × Outcome EscalateOutcome → Type 0
    P x = find_plan i.plan_id x.0 ≡ some (escalated mp)

    not_pending : (mp : MemPlan) → mp.status ≡ pending → not (is_pending mp.status) ≡ true → ⊥
    not_pending mp p e = ground arith

    not_equal : {a b : ℤ} → a ≡ b → not (eq_ℤ a b) ≡ true → ⊥
    not_equal {a} {b} p e = ground arith
