-- ===== src/Policy/Service/Effect.antt =====
-- What a decision or an escalation writes (memservice.go, RecordDecision and Escalate): an effect is
-- nothing, or one pending plan with its audit row.
pub mod Decision
pub mod Escalation
use gitscale.Common.{
  ℕ, zero, suc, ◌≡◌, ◌≢◌, refl, Bool, true, false, not, ◌||◌, Option, some, List, [], ◌∷◌, arith,
  length, ltb, if_rule, match_rule, inl, inr,
}
use mathlib.Core.Path.{subst}
use gitscale.Common.Int.{ℤ, pos, negsuc, get_at, suc_ℤ, pred_ℤ, ◌≤ℤ◌, leb_ℤ, eq_ℤ}
use gitscale.Common.Map.{lookup}
use gitscale.Common.Str.{Str-discrete}
use gitscale.Policy.Types.{
  PlanStatus, pending, approved, rejected, expired, auto_denied, EscalationRung, ApproverGroup,
  OnTimeout, notify_next, auto_deny, fall_back, other_on_timeout,
}
use gitscale.Policy.Env.{Env, Payload}
use gitscale.Policy.Audit.{AuditEventKind, ActorKind}
use gitscale.Policy.Validate.Laws.{LadderOk}
use gitscale.Policy.Service.{
  MemService, MemPlan, Votes, Outcome, put_plan, log_audit, is_pending, contains,
}
use gitscale.Policy.Service.Decide.{
  DecisionInput, DecisionOutcome, votes_at, add_vote, tally, vote, decide_rung, record_decision,
  has_reason, has_expired,
}
use gitscale.Policy.Service.Escalate.{
  EscalateInput, EscalateOutcome, auto_deny_plan, move_rung, escalate_rung, escalate,
}
use gitscale.Policy.Service.Quorum.{
  PlanOk, InRange, IsApprover, MeetsQuorum, group_at, group_at-some, add_vote-Distinct,
  add_vote-members, add_vote-pos,
}
use gitscale.Policy.Service.History.{find_plan}

-- How one call may rewrite a plan: a pending one, keeping its ladder, its policy and what PlanOk says.
pub record Change (mp mp' : MemPlan) : Type 0 where
  pub was_pending : mp.status ≡ pending
  pub same_ladder : mp'.ladder ≡ mp.ladder
  pub same_policy : mp'.policy ≡ mp.policy
  pub keeps : PlanOk mp → PlanOk mp'

-- The plan is closed, neither approved nor rejected by a vote.
pub closed :
    (mp : MemPlan) (st : PlanStatus)
    → mp.status ≡ pending
    → st ≢ pending
    → st ≢ approved
    → Change mp (record mp { status = st })
closed mp st h p a = record {
  was_pending = h;
  same_ladder = refl;
  same_policy = refl;
  keeps = λ ok. record {
    ladder_ok = λ e. absurd (p e);
    in_range = λ e. absurd (p e);
    distinct = ok.distinct;
    members = ok.members;
    quorum = λ e. absurd (a e);
    clean = λ e. elim e [ inl e ↦ absurd (p e) | inr e ↦ absurd (a e) ];
  };
}

-- The plan goes to another rung of its ladder.
pub moved :
    (mp : MemPlan) (next : ℤ)
    → mp.status ≡ pending
    → (PlanOk mp → InRange next (length mp.ladder))
    → Change mp (record mp { current_rung = next; status = pending })
moved mp next h r = record {
  was_pending = h;
  same_ladder = refl;
  same_policy = refl;
  keeps = λ ok. record {
    ladder_ok = λ _. ok.ladder_ok h;
    in_range = λ _. r ok;
    distinct = ok.distinct;
    members = ok.members;
    quorum = λ e. absurd (cc);
    clean = λ _. ok.clean (inl h);
  };
}

-- A rejection closes the plan.
pub rejected_by :
    (mp : MemPlan) (w : Votes)
    → mp.status ≡ pending
    → Change mp (record mp { rejections = w; status = rejected })
rejected_by mp w h = record {
  was_pending = h;
  same_ladder = refl;
  same_policy = refl;
  keeps = λ ok. record {
    ladder_ok = λ e. absurd (cc);
    in_range = λ e. absurd (cc);
    distinct = ok.distinct;
    members = ok.members;
    quorum = λ e. absurd (cc);
    clean = λ e. elim e [ inl e ↦ absurd (cc) | inr e ↦ absurd (cc) ];
  };
}

-- An approval by a member of the group at the plan's rung, under the status that the count gives.
pub approved_by :
    (mp : MemPlan) (r : ℤ) (a : ℕ) (st : PlanStatus)
    → mp.status ≡ pending
    → r ≡ mp.current_rung
    → IsApprover (group_at mp.policy mp.ladder r) a
    → let v = add_vote r a mp.approvals in
      (st ≡ approved → MeetsQuorum (group_at mp.policy mp.ladder r) (length (votes_at r v)))
      → Change mp (record mp { approvals = v; status = st })
approved_by mp r a st h z m q = record {
  was_pending = h;
  same_ladder = refl;
  same_policy = refl;
  keeps = λ ok. record {
    ladder_ok = λ _. ok.ladder_ok h;
    in_range = λ _. ok.in_range h;
    distinct = add_vote-Distinct r a mp.approvals ok.distinct;
    members = add_vote-members mp.policy mp.ladder r a mp.approvals m ok.members;
    quorum = λ e.
        subst
          (λ k.
            MeetsQuorum (group_at mp.policy mp.ladder k)
              (length (votes_at k (add_vote r a mp.approvals))))
          z (q e);
    clean = λ _. ok.clean (inl h);
  };
}

pub data Effect (env : Env) (s s' : MemService) : Type 0 where
  same : s' ≡ s → Effect env s s'
  wrote :
      (id : ℕ) (mp mp' : MemPlan) (k : AuditEventKind) (a : Option ℕ) (ak : ActorKind)
      (payload : Payload) (now : ℕ)
      → find_plan id s ≡ some mp
      → Change mp mp'
      → s' ≡ log_audit env (put_plan id mp' s) mp' k a ak payload now
      → Effect env s s'

pub is_pending→ : (st : PlanStatus) → not (is_pending st) ≡ false → st ≡ pending
is_pending→ st h = ground arith
