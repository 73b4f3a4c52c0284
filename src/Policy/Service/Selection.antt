-- ===== src/Policy/Service/Selection.antt =====
-- Which rule a submission is decided by (memservice.go, SubmitPlan).
use gitscale.Common.{
  ℕ, zero, suc, ◌+◌, ◌≤◌, ◌≡◌, refl, sym, ◌∙◌, Bool, true, false, not, Option, none, some, List, [],
  ◌∷◌, arith, All, get_elem?, take, ℕ_discrete, if_rule, match_rule, ◌⊎◌, inl, inr,
}
use mathlib.Core.Option.{some-injective}
use mathlib.Core.Path.{subst}
use gitscale.Common.Int.{pos}
use gitscale.Common.Map.{lookup}
use gitscale.Policy.Types.{
  Policy, Plan, Rule, Action, ProposerKind, Decision, pending, auto_approved_no_rule,
  is_valid_proposer,
}
use gitscale.Policy.Env.{Env}
use gitscale.Policy.Predicates.{match_rule as rule_fires}
use gitscale.Policy.Validate.{validate}
use gitscale.Policy.Service.{MemService, Outcome, ok, err, panic}
use gitscale.Policy.Service.Submit.{
  first_match, decision_of, after_record, stamp_plan, submit_stamped, submit_plan,
}

abbrev pub Fires : Env → List Action → ProposerKind → Bool → Rule → Type 0
Fires env acts who b r = rule_fires env.path_match r acts who ≡ b

-- Rule `k` of the policy fires, and none before it.
pub record FirstToFire (env : Env) (acts : List Action) (who : ProposerKind) (rules : List Rule)
    (k : ℕ) (r : Rule) : Type 0 where
  pub at : get_elem? rules k ≡ some r
  pub fires : Fires env acts who true r
  pub none_before : All (Fires env acts who false) (take k rules)

first_match-le :
    (env : Env) (acts : List Action) (who : ProposerKind) (i : ℕ) (rs : List Rule) (k : ℕ)
    (r : Rule)
    → first_match env acts who i rs ≡ some (k, r)
    → i ≤ k
unfolding first_match
first_match-le env acts who i [] k r e = absurd (cc)
first_match-le env acts who i (x ∷ rs) k r e =
    ground (arith, first_match-le env acts who (suc i) rs k r)

first_match-some :
    (env : Env) (acts : List Action) (who : ProposerKind) (i n : ℕ) (rs : List Rule) (k : ℕ)
    (r : Rule)
    → k ≡ i + n
    → first_match env acts who i rs ≡ some (k, r)
    → (get_elem? rs n ≡ some r)
      × Fires env acts who true r
      × All (Fires env acts who false) (take n rs)
unfolding first_match
first_match-some env acts who i n [] k r q e = absurd (cc)
first_match-some env acts who i zero (x ∷ rs) k r q e =
    ground (arith, first_match-le env acts who (suc i) rs k r)
first_match-some env acts who i (suc n) (x ∷ rs) k r q e =
    ground (arith, first_match-some env acts who (suc i) n rs k r)

first_match-none :
    (env : Env) (acts : List Action) (who : ProposerKind) (i : ℕ) (rs : List Rule)
    → first_match env acts who i rs ≡ none
    → All (Fires env acts who false) rs
unfolding first_match
first_match-none env acts who i [] e = tt
first_match-none env acts who i (x ∷ rs) e =
    ground (arith, first_match-none env acts who (suc i) rs)

-- What a decision has to be: pending on the first rule that fires, with that rule's ladder and
-- expiry; or auto-approved where no rule fires.
abbrev pub Verdict : Env → Policy → Plan → Decision → Type 0
Verdict env pol plan d =
    ((k : ℕ) × (r : Rule) × FirstToFire env plan.actions plan.proposer_kind pol.rules k r
      × (d.status ≡ pending)
      × (d.auto_approved ≡ false)
      × (d.matched_rule_index ≡ pos k)
      × (d.ladder ≡ r.ladder)
      × (d.expiry_seconds ≡ r.expiry_seconds))
    ⊎ (All (Fires env plan.actions plan.proposer_kind false) pol.rules
        × (d.status ≡ auto_approved_no_rule)
        × (d.auto_approved ≡ true)
        × (d.ladder ≡ []))

decision_of-Verdict :
    (env : Env) (pol : Policy) (plan stamped : Plan) (m : Option (ℕ × Rule))
    → first_match env plan.actions plan.proposer_kind 0 pol.rules ≡ m
    → Verdict env pol plan (decision_of stamped m)
unfolding decision_of
decision_of-Verdict env pol plan stamped none e =
    inr (first_match-none env plan.actions plan.proposer_kind 0 pol.rules e, refl, refl, refl)
decision_of-Verdict env pol plan stamped (some (k, r)) e =
    let (at, fires, before) =
      first_match-some env plan.actions plan.proposer_kind 0 k pol.rules k r (omega arith) e in
    inl
      (k, r, record { at = at; fires = fires; none_before = before }, refl, refl, refl, refl, refl)

after_record-ok :
    (d d' : Decision) (r : MemService × Outcome (Unit {0})) → (after_record d r).1 ≡ ok d' → d ≡ d'
after_record-ok d d' (s, ok x) e = cc
after_record-ok d d' (s, err x) e = cc
after_record-ok d d' (s, panic) e = cc

stamp_plan-kept :
    (env : Env) (fresh : ℕ) (pol : Policy) (plan stamped : Plan)
    → stamp_plan env fresh pol plan ≡ some stamped
    → (stamped.actions ≡ plan.actions) × (stamped.proposer_kind ≡ plan.proposer_kind)
unfolding stamp_plan
stamp_plan-kept env fresh pol plan stamped h = ground arith

submit_stamped-Verdict :
    (env : Env) (now fresh : ℕ) (s : MemService) (pol : Policy) (plan stamped : Plan) (d : Decision)
    → stamp_plan env fresh pol plan ≡ some stamped
    → (submit_stamped env now s pol stamped).1 ≡ ok d
    → Verdict env pol plan d
unfolding submit_stamped
submit_stamped-Verdict env now fresh s pol plan stamped d q e =
    let (a, w) = stamp_plan-kept env fresh pol plan stamped q in
    subst (Verdict env pol plan) (after_record-ok _ d _ e)
      (decision_of-Verdict env pol plan stamped _ (rw (a, w)))

-- A submission that succeeds is decided by the first rule of the organisation's policy that fires,
-- and is auto-approved exactly where no rule fires.
pub submit_plan-Verdict :
    (env : Env) (now fresh : ℕ) (s : MemService) (plan : Plan) (pol : Policy) (d : Decision)
    → lookup ℕ_discrete plan.org_id s.policies ≡ some pol
    → (submit_plan env now fresh s (some plan)).1 ≡ ok d
    → Verdict env pol plan d
unfolding submit_plan
submit_plan-Verdict env now fresh s plan pol d found =
    if_rule P (not (is_valid_proposer plan.proposer_kind)) (λ _ e. absurd (cc))
      (λ _.
        match_rule P (lookup ℕ_discrete plan.org_id s.policies) (λ _ e. absurd (cc))
          (λ pol' found'.
            match_rule P (validate (some pol'))
              (λ _.
                match_rule P (stamp_plan env fresh pol' plan) (λ _ e. absurd (cc))
                  (λ stamped q e.
                    subst (λ p. Verdict env p plan d) (some-injective _ _ (sym found' ∙ found))
                      (submit_stamped-Verdict env now fresh s pol' plan stamped d q e)))
              (λ _ _ e. absurd (cc))))
  where
    P : MemService × Outcome Decision → Type 0
    P r = r.1 ≡ ok d → Verdict env pol plan d
