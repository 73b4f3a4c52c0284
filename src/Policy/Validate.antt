-- ===== src/Policy/Validate.antt =====
-- Validate (validate.go): the structural checks on a policy, the first failure in source order.
-- A failure is its code; the messages are left out.
pub mod Laws
use gitscale.Common.{
  ℕ, suc, Bool, true, false, not, ◌&&◌, ◌||◌, Option, none, some, List, [], ◌∷◌, ◌==◌, length,
  if◌then◌else◌,
}
use gitscale.Common.Int.{ℤ, pos, leb_ℤ}
use gitscale.Common.Map.{lookup}
use gitscale.Common.Str.{Str, Str-discrete, Str_eq}
use gitscale.Policy.Types.{
  Policy, Rule, EscalationRung, ApproverGroup, is_valid_kind, is_valid_on_timeout, is_bulk_action,
  is_fall_back,
}

pub data ValidationCode : Type 0 where
  invalid_predicate_kind empty_ladder unknown_approver_group zero_required_count : ValidationCode
  non_human_approver invalid_on_timeout bulk_threshold_missing : ValidationCode
  required_count_too_large fall_back_on_first_rung empty_name : ValidationCode
  non_positive_expiry non_positive_sla no_rules : ValidationCode

-- The first failure of two checks in a row; `none` is Go's nil error.
abbrev pub then_check : Option ValidationCode → Option ValidationCode → Option ValidationCode
then_check (some e) _ = some e
then_check none next = next

abbrev pub fail_if : Bool → ValidationCode → Option ValidationCode
fail_if true e = some e
fail_if false e = none

-- The loop over HumanUserIDs: no zero UUID.
check_members : List ℕ → Option ValidationCode
check_members [] = none
check_members (id ∷ ids) = then_check (fail_if (id == 0) non_human_approver) (check_members ids)

check_group : Str → ApproverGroup → Option ValidationCode
check_group name g = then_check (fail_if (not (Str_eq name g.name)) empty_name) (
    then_check (fail_if (leb_ℤ g.required_count (pos 0)) zero_required_count) (
      then_check
        (fail_if (not (leb_ℤ g.required_count (pos (length g.human_user_ids))))
          required_count_too_large)
        (check_members g.human_user_ids)))

check_groups : List (Str × ApproverGroup) → Option ValidationCode
check_groups [] = none
check_groups ((name, g) ∷ gs) = then_check (check_group name g) (check_groups gs)

-- `r.Threshold == nil || *r.Threshold <= 0`
abbrev pub threshold_missing : Option ℤ → Bool
threshold_missing none = true
threshold_missing (some t) = leb_ℤ t (pos 0)

abbrev pub is_none {ℓ} : {A : Type ℓ} → Option A → Bool
is_none none = true
is_none (some _) = false

check_rung : Policy → ℕ → EscalationRung → Option ValidationCode
check_rung p j rung =
    then_check
      (fail_if (is_none (lookup Str-discrete rung.group_name p.approver_groups))
        unknown_approver_group)
      (then_check (fail_if (leb_ℤ rung.sla_seconds (pos 0)) non_positive_sla) (
        then_check (fail_if (not (is_valid_on_timeout rung.on_timeout)) invalid_on_timeout)
          (fail_if (j == 0 && is_fall_back rung.on_timeout) fall_back_on_first_rung)))

check_ladder : Policy → ℕ → List EscalationRung → Option ValidationCode
check_ladder p j [] = none
check_ladder p j (r ∷ rs) = then_check (check_rung p j r) (check_ladder p (suc j) rs)

abbrev pub is_empty {ℓ} : {A : Type ℓ} → List A → Bool
is_empty [] = true
is_empty (_ ∷ _) = false

check_rule : Policy → Rule → Option ValidationCode
check_rule p r = then_check (fail_if (not (is_valid_kind r.kind)) invalid_predicate_kind) (
    then_check (fail_if (leb_ℤ r.expiry_seconds (pos 0)) non_positive_expiry) (
      then_check
        (fail_if (is_bulk_action r.kind && threshold_missing r.threshold) bulk_threshold_missing)
        (then_check (fail_if (is_empty r.ladder) empty_ladder) (check_ladder p 0 r.ladder))))

check_rules : Policy → List Rule → Option ValidationCode
check_rules p [] = none
check_rules p (r ∷ rs) = then_check (check_rule p r) (check_rules p rs)

-- Validate, at a pointer that may be nil.
unfoldable pub validate : Option Policy → Option ValidationCode
unfolding check_groups check_group check_members check_rules check_rule check_ladder check_rung
validate none = some empty_name
validate (some p) = then_check (fail_if (is_empty p.name) empty_name) (
    then_check (fail_if (is_empty p.rules) no_rules)
      (then_check (check_groups p.approver_groups) (check_rules p p.rules)))
