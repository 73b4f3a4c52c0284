-- ===== src/Policy/Service/Walk.antt =====
-- The walk of an unattended plan along its ladder: the escalations that ApprovalActivity asks for
-- (plane/workflow/approval/activity.go) when nobody votes.
use gitscale.Common.{
  ℕ, zero, suc, ◌+◌, ◌≤◌, ◌<◌, ◌≡◌, ◌≢◌, refl, ap, ◌∙◌, true, false, none, some, List, [], ◌∷◌,
  arith, length, All, Bool-cases, inl, inr, if◌then◌else◌, get_elem?_lt, All-get_elem?, ◌⊎◌,
}
use gitscale.Common.Int.{pos}
use gitscale.Common.Str.{Str}
use gitscale.Policy.Types.{
  PlanStatus, pending, auto_denied, notify_next, auto_deny, fall_back, EscalationRung,
}
use gitscale.Policy.Env.{Env}
use gitscale.Policy.Service.{MemService, MemPlan, is_pending}
use gitscale.Policy.Service.Escalate.{EscalateInput, escalate}
use gitscale.Policy.Service.History.{find_plan}
use gitscale.Policy.Service.Ladder.{escalated, escalated_by, escalate-escalated}
use gitscale.Policy.Service.Effect.Escalation.{escalate-Effect}
use gitscale.Policy.Service.Finality.{Effect-finds}

-- The call that ApprovalActivity makes when the plan's rung has timed out.
unfoldable pub time_out : Env → ℕ → ℕ → Str → MemService → MemService
time_out env now id reason s = elim (find_plan id s) [
  | none ↦ s
  | some mp ↦
      (escalate env now s (record { plan_id = id; from_rung = mp.current_rung; reason = reason })).0
]

unfoldable pub time_outs : Env → ℕ → ℕ → Str → ℕ → MemService → MemService
unfolding time_out
time_outs env now id reason zero s = s
time_outs env now id reason (suc n) s = time_outs env now id reason n (time_out env now id reason s)

-- The same walk on the plan alone.
walk : ℕ → MemPlan → MemPlan
walk zero mp = mp
walk (suc n) mp = walk n (if is_pending mp.status then escalated mp else mp)

pending→ : (st : PlanStatus) → is_pending st ≡ true → st ≡ pending
pending→ st h = ground arith

not_pending→ : (st : PlanStatus) → is_pending st ≡ false → st ≢ pending
not_pending→ st h e = ground arith

time_out-walk :
    (env : Env) (now id : ℕ) (reason : Str) (s : MemService) (mp : MemPlan)
    → find_plan id s ≡ some mp
    → find_plan id (time_out env now id reason s)
      ≡ some (if is_pending mp.status then escalated mp else mp)
unfolding time_out
time_out-walk env now id reason s mp f =
    let i : EscalateInput = record { plan_id = id; from_rung = mp.current_rung; reason = reason } in
    rw (f, time_out)
      (elim (Bool-cases (is_pending mp.status)) [
        | inl p ↦ rw p (escalate-escalated env now s i mp f (pending→ mp.status p) refl)
        | inr p ↦
            rw p (Effect-finds id mp (escalate-Effect env now s i) f (not_pending→ mp.status p))
      ])

time_outs-walk :
    (env : Env) (now id : ℕ) (reason : Str) (n : ℕ) (s : MemService) (mp : MemPlan)
    → find_plan id s ≡ some mp
    → find_plan id (time_outs env now id reason n s) ≡ some (walk n mp)
unfolding time_outs walk
time_outs-walk env now id reason zero s mp f = f
time_outs-walk env now id reason (suc n) s mp f =
    time_outs-walk env now id reason n (time_out env now id reason s) _
      (time_out-walk env now id reason s mp f)

-- Only notify_next and auto_deny.
abbrev pub GoesForward : EscalationRung → Type 0
GoesForward r = (r.on_timeout ≡ notify_next) ⊎ (r.on_timeout ≡ auto_deny)

walk_closed : (n : ℕ) (mp : MemPlan) → mp.status ≡ auto_denied → (walk n mp).status ≡ auto_denied
unfolding walk
walk_closed zero mp h = h
walk_closed (suc n) mp h =
    walk_closed n (if is_pending mp.status then escalated mp else mp) (ground arith)

-- One step from rung `k` of a ladder that goes forward: closed, or pending on the next rung.
step_forward :
    (mp : MemPlan) (k : ℕ)
    → mp.current_rung ≡ pos k
    → k < length mp.ladder
    → All GoesForward mp.ladder
    → ((escalated mp).status ≡ auto_denied)
      ⊎ (((escalated mp).status ≡ pending)
          × ((escalated mp).current_rung ≡ pos (suc k))
          × ((escalated mp).ladder ≡ mp.ladder)
          × (suc k < length mp.ladder))
unfolding escalated escalated_by
step_forward mp k c l g =
    let (r, e) = get_elem?_lt mp.ladder k l in
    let ways = All-get_elem? GoesForward mp.ladder k g e in ground arith

walk-pending :
    (n : ℕ) (mp : MemPlan) → mp.status ≡ pending → walk (suc n) mp ≡ walk n (escalated mp)
unfolding walk
walk-pending n mp p = ap (walk n) (next mp p)
  where
    next :
        (mp : MemPlan)
        → mp.status ≡ pending
        → (if is_pending mp.status then escalated mp else mp) ≡ escalated mp
    next mp p = ground arith

walk_forward :
    (n k : ℕ) (mp : MemPlan)
    → mp.status ≡ pending
    → mp.current_rung ≡ pos k
    → k < length mp.ladder
    → length mp.ladder ≤ k + n
    → All GoesForward mp.ladder
    → (walk n mp).status ≡ auto_denied
walk_forward zero k mp p c l m g = absurd (omega arith)
walk_forward (suc n) k mp p c l m g = rw (walk-pending n mp p) (elim (step_forward mp k c l g) [
  | inl d ↦ walk_closed n (escalated mp) d
  | inr (p', c', same, l') ↦
      walk_forward n (suc k) (escalated mp) p' c' (rw same l') (rw same (omega arith)) (rw same g)
])

-- A pending plan on a ladder of notify_next and auto_deny rungs is auto-denied once its rungs have
-- timed out as often as rungs are left, whatever the clock's reading.
pub time_outs-auto_denied :
    (env : Env) (now id : ℕ) (reason : Str) (s : MemService) (mp : MemPlan) (k n : ℕ)
    → find_plan id s ≡ some mp
    → mp.status ≡ pending
    → mp.current_rung ≡ pos k
    → k < length mp.ladder
    → length mp.ladder ≤ k + n
    → All GoesForward mp.ladder
    → (mp' : MemPlan) × (find_plan id (time_outs env now id reason n s) ≡ some mp')
      × (mp'.status ≡ auto_denied)
time_outs-auto_denied env now id reason s mp k n f p c l m g =
    (walk n mp, time_outs-walk env now id reason n s mp f, walk_forward n k mp p c l m g)

-- A ladder that comes back to its first rung.
abbrev pub ComesBack : List EscalationRung → Type 0
ComesBack (a ∷ b ∷ rs) = (a.on_timeout ≡ notify_next) × (b.on_timeout ≡ fall_back)
ComesBack _ = ⊥

round_trip :
    (mp : MemPlan) (ladder : List EscalationRung)
    → mp.ladder ≡ ladder
    → ComesBack ladder
    → mp.status ≡ pending
    → mp.current_rung ≡ pos 0
    → walk 2 mp ≡ mp
unfolding walk escalated escalated_by
round_trip mp [] q c p z = absurd c
round_trip mp (a ∷ []) q c p z = absurd c
round_trip mp (a ∷ b ∷ rs) q c p z = ground arith

walk_cycle : (n : ℕ) (mp : MemPlan) → walk 2 mp ≡ mp → walk (n + n) mp ≡ mp
walk_cycle zero mp h = unfold walk in refl
walk_cycle (suc n) mp h =
    (let e : suc n + suc n ≡ suc (suc (n + n)) = omega arith in rw e (two_more (n + n) mp))
    ∙ ap (walk (n + n)) h
    ∙ walk_cycle n mp h
  where
    two_more : (m : ℕ) (mp : MemPlan) → walk (suc (suc m)) mp ≡ walk m (walk 2 mp)
    two_more m mp = unfold walk in refl

-- A pending plan on the first rung of a ladder whose second rung falls back is back where it was,
-- still pending, after any even number of time-outs, whatever the clock's reading: Escalate looks at
-- no expiry.
pub time_outs_cycle :
    (env : Env) (now id : ℕ) (reason : Str) (s : MemService) (mp : MemPlan) (n : ℕ)
    → find_plan id s ≡ some mp
    → mp.status ≡ pending
    → mp.current_rung ≡ pos 0
    → ComesBack mp.ladder
    → find_plan id (time_outs env now id reason (n + n) s) ≡ some mp
time_outs_cycle env now id reason s mp n f p z c =
    time_outs-walk env now id reason (n + n) s mp f
    ∙ ap some (walk_cycle n mp (round_trip mp mp.ladder refl c p z))
