-- ===== src/Policy/Audit.antt =====
-- The audit chain (audit.go).
pub mod Chain
use mathlib.Core.Option
use gitscale.Common.{
  ℕ, suc, Bool, true, false, Option, none, some, List, [], ◌∷◌, ◌++◌, ◌==◌, if◌then◌else◌,
}
use gitscale.Common.Str.{Str, Str_eq, codes, big_endian}
use gitscale.Policy.Canonical.{canonical_payload}
use gitscale.Policy.Env.{Env}

pub data AuditEventKind : Type 0 where
  event_submitted event_approved event_rejected event_escalated event_expired : AuditEventKind
  event_auto_approved_no_rule event_auto_denied : AuditEventKind

pub data ActorKind : Type 0 where
  human actor_agent actor_service system : ActorKind

event_kind_name : AuditEventKind → Str
event_kind_name event_submitted = codes "submitted"
event_kind_name event_approved = codes "approved"
event_kind_name event_rejected = codes "rejected"
event_kind_name event_escalated = codes "escalated"
event_kind_name event_expired = codes "expired"
event_kind_name event_auto_approved_no_rule = codes "auto_approved_no_rule"
event_kind_name event_auto_denied = codes "auto_denied"

actor_kind_name : ActorKind → Str
actor_kind_name human = codes "human"
actor_kind_name actor_agent = codes "agent"
actor_kind_name actor_service = codes "service"
actor_kind_name system = codes "system"

-- The pointer ActorID: nil; to a copy that nobody else holds; or to the ProposerID of a caller's plan,
-- with the id that is there when the row is read.
pub data Actor : Type 0 where
  no_actor : Actor
  own_copy : ℕ → Actor
  proposer_of : (object id : ℕ) → Actor

-- `plan_id` is a pointer too, and read here as it was when the row was appended: no hash covers it.
pub record AuditRow : Type 0 where
  pub id : ℕ
  pub policy_id : ℕ
  pub plan_id : Option ℕ
  pub event_kind : AuditEventKind
  pub actor_id : Actor
  pub actor_kind : ActorKind
  pub payload : Str
  pub prev_hash : Str
  pub row_hash : Str
  pub created_at : ℕ

-- 32 zero bytes.
unfoldable pub genesis_hash : Str
unfolding big_endian
genesis_hash = big_endian 32 0

-- The 16 bytes of the actor's id, zeros where there is none.
actor_bytes : Actor → Str
unfolding big_endian
actor_bytes no_actor = big_endian 16 0
actor_bytes (own_copy id) = big_endian 16 id
actor_bytes (proposer_of object id) = big_endian 16 id

-- The bytes that ComputeRowHash writes to the hash; `canon` is the canonical payload.
preimage : Str → AuditRow → Str → Str
unfolding event_kind_name actor_kind_name actor_bytes big_endian
preimage prev r canon =
    prev
    ++ (canon
        ++ (actor_kind_name r.actor_kind
            ++ 0x1f
              ∷ (event_kind_name r.event_kind
                  ++ 0x1f ∷ (actor_bytes r.actor_id ++ big_endian 8 r.created_at))))

-- ComputeRowHash; `none` where the payload is not JSON.
unfoldable pub compute_row_hash : Env → Str → AuditRow → Option Str
unfolding preimage canonical_payload
compute_row_hash env prev r =
    Option.map (λ canon. env.sha256 (preimage prev r canon)) (canonical_payload env.codec r.payload)

-- The row as it is read while the caller's plans have these proposers.
unfoldable pub reread_actor : (proposers : ℕ → ℕ) → Actor → Actor
reread_actor proposers (proposer_of object id) = proposer_of object (proposers object)
reread_actor proposers a = a

unfoldable pub reread : (proposers : ℕ → ℕ) → AuditRow → AuditRow
unfolding reread_actor
reread proposers r = record r { actor_id = reread_actor proposers r.actor_id }

pub data ChainError : Type 0 where
  prev_hash_mismatch bad_payload row_hash_mismatch : ChainError

-- The index and the error of the first broken row.
pub data ChainResult : Type 0 where
  intact : ChainResult
  broken : ℕ → ChainError → ChainResult

-- The loop of VerifyChain at row `i`, after a row whose hash is `prev`.
pub verify_from : Env → Str → ℕ → List AuditRow → ChainResult
verify_from env prev i [] = intact
verify_from env prev i (r ∷ rs) = elim (Str_eq r.prev_hash prev) [
  | false ↦ broken i prev_hash_mismatch
  | true ↦ elim (compute_row_hash env prev r) [
    | none ↦ broken i bad_payload
    | some got ↦ elim (Str_eq got r.row_hash) [
      | false ↦ broken i row_hash_mismatch
      | true ↦ verify_from env got (suc i) rs
    ]
  ]
]

unfoldable pub verify_chain : Env → List AuditRow → ChainResult
unfolding verify_from genesis_hash compute_row_hash
verify_chain env rows = verify_from env genesis_hash 0 rows

-- AppendRow stamps the row; `none` where the hash fails.
unfoldable pub append_row : Env → Str → AuditRow → Option AuditRow
append_row env prev r =
    let stamped = record r {
      prev_hash = prev;
      created_at = if r.created_at == 0 then env.wall_clock else r.created_at;
    } in
    Option.map (λ hash. record stamped { row_hash = hash }) (compute_row_hash env prev stamped)

-- The hash that the next row carries: the last row's, or the genesis hash (appendAuditLocked).
unfoldable pub last_hash : Str → List AuditRow → Str
last_hash prev [] = prev
last_hash prev (r ∷ rs) = last_hash r.row_hash rs
