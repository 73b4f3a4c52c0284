-- ===== src/Policy/Validate/Laws.antt =====
-- The meaning of Validate (validate.go), predicate by predicate.
use gitscale.Common.{
  ℕ, suc, ◌<◌, ◌≡◌, ◌≢◌, ◌↔◌, refl, true, Option, none, some, List, [], ◌∷◌, arith, length, All,
}
use gitscale.Common.Int.{ℤ, pos, ◌≤ℤ◌}
use gitscale.Common.Map.{lookup}
use gitscale.Common.Str.{Str, Str-discrete}
use gitscale.Policy.Types.{
  Policy, Rule, EscalationRung, ApproverGroup, is_valid_kind, is_valid_on_timeout, bulk_action,
  fall_back,
}
use gitscale.Policy.Validate.{
  check_members, check_group, check_groups, check_rung, check_ladder, check_rule, check_rules,
  validate,
}

pub record GroupOk (name : Str) (g : ApproverGroup) : Type 0 where
  pub named : name ≡ g.name
  pub at_least_one : pos 1 ≤ℤ g.required_count
  pub enough_members : g.required_count ≤ℤ pos (length g.human_user_ids)
  pub no_zero_member : All (λ id. id ≢ 0) g.human_user_ids

pub record RungOk (p : Policy) (r : EscalationRung) : Type 0 where
  pub group_known : lookup Str-discrete r.group_name p.approver_groups ≢ none
  pub positive_sla : pos 1 ≤ℤ r.sla_seconds
  pub known_on_timeout : is_valid_on_timeout r.on_timeout ≡ true

-- A ladder has a first rung, which does not fall back.
abbrev pub LadderOk : Policy → List EscalationRung → Type 0
LadderOk p [] = ⊥
LadderOk p (r ∷ rs) = (r.on_timeout ≢ fall_back) × All (RungOk p) (r ∷ rs)

abbrev pub HasThreshold : Option ℤ → Type 0
HasThreshold none = ⊥
HasThreshold (some t) = pos 1 ≤ℤ t

pub record RuleOk (p : Policy) (r : Rule) : Type 0 where
  pub known_kind : is_valid_kind r.kind ≡ true
  pub positive_expiry : pos 1 ≤ℤ r.expiry_seconds
  pub bulk_threshold : r.kind ≡ bulk_action → HasThreshold r.threshold
  pub ladder_ok : LadderOk p r.ladder

abbrev pub GroupsOk : List (Str × ApproverGroup) → Type 0
GroupsOk [] = Unit
GroupsOk ((name, g) ∷ gs) = GroupOk name g × GroupsOk gs

pub record PolicyOk (p : Policy) : Type 0 where
  pub has_name : p.name ≢ []
  pub has_rules : p.rules ≢ []
  pub groups_ok : GroupsOk p.approver_groups
  pub rules_ok : All (RuleOk p) p.rules

check_members_iff : (ids : List ℕ) → (check_members ids ≡ none) ↔ All (λ id. id ≢ 0) ids
unfolding check_members
check_members_iff [] = (λ _. tt, λ _. refl)
check_members_iff (id ∷ ids) =
    (λ h. ground (arith, (check_members_iff ids).0), λ h. ground (arith, (check_members_iff ids).1))

check_group_iff : (n : Str) (g : ApproverGroup) → (check_group n g ≡ none) ↔ GroupOk n g
unfolding check_group
check_group_iff n g = (
  λ h. ground (arith, check_members_iff g.human_user_ids),
  λ h. ground (arith, check_members_iff g.human_user_ids),
)

check_groups_iff : (gs : List (Str × ApproverGroup)) → (check_groups gs ≡ none) ↔ GroupsOk gs
unfolding check_groups
check_groups_iff [] = (λ _. tt, λ _. refl)
check_groups_iff ((n, g) ∷ gs) = (
  λ h. ground (arith, check_group_iff n g, check_groups_iff gs),
  λ h. ground (arith, check_group_iff n g, check_groups_iff gs),
)

check_rung_iff :
    (p : Policy) (j : ℕ) (r : EscalationRung)
    → (check_rung p j r ≡ none) ↔ ((j ≡ 0 → r.on_timeout ≢ fall_back) × RungOk p r)
unfolding check_rung
check_rung_iff p j r = (λ h. ground arith, λ h. ground arith)

-- Past the first rung, falling back is allowed.
check_ladder_later :
    (p : Policy) (j : ℕ) (rs : List EscalationRung)
    → 0 < j
    → (check_ladder p j rs ≡ none) ↔ All (RungOk p) rs
unfolding check_ladder
check_ladder_later p j [] h = (λ _. tt, λ _. refl)
check_ladder_later p j (r ∷ rs) h = (
  λ e. ground (arith, check_rung_iff p j r, check_ladder_later p (suc j) rs (omega arith)),
  λ e. ground (arith, check_rung_iff p j r, check_ladder_later p (suc j) rs (omega arith)),
)

check_ladder_iff :
    (p : Policy) (rs : List EscalationRung)
    → ((rs ≢ []) × (check_ladder p 0 rs ≡ none)) ↔ LadderOk p rs
unfolding check_ladder
check_ladder_iff p [] = (λ h. h.0 refl, λ h. absurd h)
check_ladder_iff p (r ∷ rs) = (
  λ h. ground (arith, check_rung_iff p 0 r, check_ladder_later p 1 rs (omega arith)),
  λ h. ground (arith, check_rung_iff p 0 r, check_ladder_later p 1 rs (omega arith)),
)

check_rule_iff : (p : Policy) (r : Rule) → (check_rule p r ≡ none) ↔ RuleOk p r
unfolding check_rule
check_rule_iff p r = (
  λ h. ground (arith, check_ladder_iff p r.ladder),
  λ h. ground (arith, check_ladder_iff p r.ladder),
)

check_rules_iff : (p : Policy) (rs : List Rule) → (check_rules p rs ≡ none) ↔ All (RuleOk p) rs
unfolding check_rules
check_rules_iff p [] = (λ _. tt, λ _. refl)
check_rules_iff p (r ∷ rs) = (
  λ h. ground (arith, check_rule_iff p r, check_rules_iff p rs),
  λ h. ground (arith, check_rule_iff p r, check_rules_iff p rs),
)

-- A policy passes Validate exactly when it is well formed.
pub validate_iff : (p : Policy) → (validate (some p) ≡ none) ↔ PolicyOk p
unfolding validate
validate_iff p = (
  λ h. ground (arith, check_groups_iff p.approver_groups, check_rules_iff p p.rules),
  λ h. ground (arith, check_groups_iff p.approver_groups, check_rules_iff p p.rules),
)
