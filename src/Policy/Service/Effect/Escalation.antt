-- ===== src/Policy/Service/Effect/Escalation.antt =====
-- The effect of Escalate (memservice.go), on each of its branches.
use gitscale.Common.{
  ℕ, zero, suc, ◌≡◌, refl, false, not, some, List, [], ◌∷◌, arith, length, if_rule, match_rule,
}
use gitscale.Common.Int.{ℤ, pos, negsuc, get_at, suc_ℤ, pred_ℤ, leb_ℤ, eq_ℤ}
use gitscale.Policy.Types.{
  pending, auto_denied, EscalationRung, OnTimeout, notify_next, auto_deny, fall_back,
  other_on_timeout,
}
use gitscale.Policy.Env.{Env, Payload}
use gitscale.Policy.Validate.Laws.{LadderOk}
use gitscale.Policy.Service.{MemService, MemPlan, Outcome, is_pending}
use gitscale.Policy.Service.Escalate.{
  EscalateInput, EscalateOutcome, auto_deny_plan, move_rung, escalate_rung, escalate,
}
use gitscale.Policy.Service.Quorum.{PlanOk, InRange}
use gitscale.Policy.Service.History.{find_plan}
use gitscale.Policy.Service.Effect.{Effect, same, wrote, closed, moved, is_pending→}

-- A rung that falls back is not the first.
pred-InRange :
    (mp : MemPlan) (z : ℤ) (rs : List EscalationRung) (rung : EscalationRung)
    → LadderOk mp.policy rs
    → InRange z (length rs)
    → get_at rs z ≡ some rung
    → rung.on_timeout ≡ fall_back
    → InRange (pred_ℤ z) (length rs)
pred-InRange mp z [] rung l h e o = absurd l
pred-InRange mp (negsuc n) (r ∷ rs) rung l h e o = absurd h
pred-InRange mp (pos zero) (r ∷ rs) rung l h e o = ground arith
pred-InRange mp (pos (suc n)) (r ∷ rs) rung l h e o = omega arith

suc-InRange :
    (z : ℤ) (len : ℕ) → InRange z len → leb_ℤ (pos len) (suc_ℤ z) ≡ false → InRange (suc_ℤ z) len
suc-InRange (pos n) len h e = ground arith
suc-InRange (negsuc n) len h e = absurd h

auto_deny_plan-Effect :
    (env : Env) (now : ℕ) (s : MemService) (i : EscalateInput) (mp : MemPlan) (o : OnTimeout)
    (payload : Payload)
    → find_plan i.plan_id s ≡ some mp
    → mp.status ≡ pending
    → Effect env s (auto_deny_plan env now s i mp o payload).0
unfolding auto_deny_plan
auto_deny_plan-Effect env now s i mp o payload e h =
    wrote i.plan_id mp _ _ _ _ _ now e (closed mp auto_denied h (λ q. cc) (λ q. cc)) refl

move_rung-Effect :
    (env : Env) (now : ℕ) (s : MemService) (i : EscalateInput) (mp : MemPlan) (o : OnTimeout)
    (payload : Payload) (next : ℤ)
    → find_plan i.plan_id s ≡ some mp
    → mp.status ≡ pending
    → (PlanOk mp → InRange next (length mp.ladder))
    → Effect env s (move_rung env now s i mp o payload next).0
unfolding move_rung
move_rung-Effect env now s i mp o payload next e h r =
    wrote i.plan_id mp _ _ _ _ _ now e (moved mp next h r) refl

escalate_rung-Effect :
    (env : Env) (now : ℕ) (s : MemService) (i : EscalateInput) (mp : MemPlan)
    (rung : EscalationRung) (o : OnTimeout)
    → find_plan i.plan_id s ≡ some mp
    → mp.status ≡ pending
    → get_at mp.ladder mp.current_rung ≡ some rung
    → rung.on_timeout ≡ o
    → Effect env s (escalate_rung env now s i mp o).0
unfolding escalate_rung
escalate_rung-Effect env now s i mp rung auto_deny e h g q =
    auto_deny_plan-Effect env now s i mp auto_deny _ e h
escalate_rung-Effect env now s i mp rung fall_back e h g q =
    move_rung-Effect env now s i mp fall_back _ _ e h
      (λ ok. pred-InRange mp mp.current_rung mp.ladder rung (ok.ladder_ok h) (ok.in_range h) g q)
escalate_rung-Effect env now s i mp rung notify_next e h g q =
    if_rule (λ (r : MemService × Outcome EscalateOutcome). Effect env s r.0)
      (leb_ℤ (pos (length mp.ladder)) (suc_ℤ mp.current_rung))
      (λ _. auto_deny_plan-Effect env now s i mp notify_next _ e h)
      (λ t.
        move_rung-Effect env now s i mp notify_next _ _ e h
          (λ ok. suc-InRange mp.current_rung (length mp.ladder) (ok.in_range h) t))
escalate_rung-Effect env now s i mp rung (other_on_timeout x) e h g q = same refl

-- An escalation does so too.
pub escalate-Effect :
    (env : Env) (now : ℕ) (s : MemService) (i : EscalateInput)
    → Effect env s (escalate env now s i).0
unfolding escalate
escalate-Effect env now s i =
    match_rule P (find_plan i.plan_id s) (λ _. same refl)
      (λ mp e.
        if_rule P (not (is_pending mp.status)) (λ _. same refl)
          (λ h.
            if_rule P (not (eq_ℤ i.from_rung mp.current_rung)) (λ _. same refl)
              (λ _.
                match_rule P (get_at mp.ladder mp.current_rung) (λ _. same refl)
                  (λ rung g.
                    escalate_rung-Effect env now s i mp rung rung.on_timeout e
                      (is_pending→ mp.status h) g refl))))
  where
    P : MemService × Outcome EscalateOutcome → Type 0
    P r = Effect env s r.0
