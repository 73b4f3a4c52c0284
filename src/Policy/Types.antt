-- ===== src/Policy/Types.antt =====
-- The policy language and the plans it governs (dsl.go, plan.go). A closed enum of strings is a data
-- type with one more constructor, which stands for any string outside the enum. Identifiers are
-- numbers, `uuid.Nil` is 0, and a time is a number of nanoseconds in which 0 is Go's zero time.
use gitscale.Common.{ℕ, Bool, true, false, Option, List}
use gitscale.Common.Int.{ℤ}
use gitscale.Common.Str.{Str}

pub data PredicateKind : Type 0 where
  pr_merge force_push production_deploy bulk_action agent_default : PredicateKind
  other_kind : Str → PredicateKind

pub data OnTimeout : Type 0 where
  notify_next auto_deny fall_back : OnTimeout
  other_on_timeout : Str → OnTimeout

pub data ProposerKind : Type 0 where
  agent service : ProposerKind
  other_proposer : Str → ProposerKind

-- PredicateKind.IsValid
abbrev pub is_valid_kind : PredicateKind → Bool
is_valid_kind (other_kind _) = false
is_valid_kind _ = true

-- OnTimeout.IsValid
abbrev pub is_valid_on_timeout : OnTimeout → Bool
is_valid_on_timeout (other_on_timeout _) = false
is_valid_on_timeout _ = true

-- ProposerKind.IsValid
abbrev pub is_valid_proposer : ProposerKind → Bool
is_valid_proposer (other_proposer _) = false
is_valid_proposer _ = true

abbrev pub is_bulk_action : PredicateKind → Bool
is_bulk_action bulk_action = true
is_bulk_action _ = false

abbrev pub is_fall_back : OnTimeout → Bool
is_fall_back fall_back = true
is_fall_back _ = false

abbrev pub is_agent : ProposerKind → Bool
is_agent agent = true
is_agent _ = false

pub record EscalationRung : Type 0 where
  pub group_name : Str
  pub sla_seconds : ℤ
  pub on_timeout : OnTimeout

pub record ApproverGroup : Type 0 where
  pub name : Str
  pub human_user_ids : List ℕ
  pub required_count : ℤ

-- `Match` is a Go map: a key that is absent reads as the empty string.
pub record Rule : Type 0 where
  pub kind : PredicateKind
  pub match : List (Str × Str)
  pub threshold : Option ℤ
  pub ladder : List EscalationRung
  pub expiry_seconds : ℤ

-- `ApproverGroups` lists a Go map in one of the orders in which `range` may visit it.
pub record Policy : Type 0 where
  pub id : ℕ
  pub org_id : ℕ
  pub repo_id : Option ℕ
  pub name : Str
  pub version : ℤ
  pub rules : List Rule
  pub approver_groups : List (Str × ApproverGroup)

pub record Action : Type 0 where
  pub kind : Str
  pub fields : List (Str × Str)

-- Methods take a plan by its pointer: `object` tells the caller's plans apart.
pub record Plan : Type 0 where
  pub object : ℕ
  pub id : ℕ
  pub org_id : ℕ
  pub repo_id : Option ℕ
  pub policy_id : ℕ
  pub proposer_id : ℕ
  pub proposer_kind : ProposerKind
  pub actions : List Action
  pub plan_hash : Str
  pub created_at : ℕ

pub data PlanStatus : Type 0 where
  pending approved rejected expired escalated auto_approved_no_rule auto_denied : PlanStatus

pub record Decision : Type 0 where
  pub plan_id : ℕ
  pub status : PlanStatus
  pub auto_approved : Bool
  pub matched_rule_index : ℤ
  pub ladder : List EscalationRung
  pub expiry_seconds : ℤ
