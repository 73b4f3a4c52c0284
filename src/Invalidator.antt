-- ===== src/Invalidator.antt =====
-- The identity-cache invalidator (plane/application/identity-cache-invalidator): consumer.go,
-- dedupe.go and handlers.go, with the event envelope of plane/data/kafka/envelope.go, over any
-- CacheStore. `elapse` is what the passing of time does to the store while FetchMessage blocks.
pub mod Gone
pub mod Redelivery
mod Tests
use gitscale.Common.{
  ℕ, ◌*◌, Bool, true, false, not, Option, none, some, List, [], ◌∷◌, ◌++◌, map, if◌then◌else◌,
}
use gitscale.Common.Map.{lookup}
use gitscale.Common.Str.{Str, Str-discrete, codes}
use gitscale.Cache.{CacheStore, Got, found, not_found, failed, identity_key, seconds}

pub record EventEnvelope : Type 0 where
  pub event_id : Str
  pub aggregate_type : Str
  pub aggregate_id : Str
  pub event_type : Str
  pub schema_version : Str
  pub payload : Str
  pub occurred_at : ℕ
  pub published_at : ℕ
  pub principal_type : Str
  pub rate_bucket : Str

pub record RawMessage : Type 0 where
  pub topic : Str
  pub partition : ℕ
  pub offset : ℕ
  pub key : Str
  pub value : Str

-- json.Unmarshal into the envelope and into the payload's affected_principal_ids, and UUID.String.
pub record Decoders : Type 0 where
  pub unmarshal_envelope : Str → Option EventEnvelope
  pub unmarshal_affected : Str → Option (List ℕ)
  pub uuid_text : ℕ → Str

-- EventHandler; `none` is an error.
abbrev pub EventHandler : Type 0
EventHandler = EventEnvelope → Option (List ℕ)

-- affectedPrincipalsHandler.Affected
unfoldable pub affected_principals : Decoders → EventHandler
affected_principals dec env = dec.unmarshal_affected env.payload

-- DefaultHandlers
unfoldable pub default_handlers : Decoders → List (Str × EventHandler)
unfolding affected_principals
default_handlers dec =
    map (λ event_type. (event_type, affected_principals dec))
      (codes "user.disabled"
        ∷ codes "agent.revoked"
        ∷ codes "principal.permissions_changed"
        ∷ codes "org.member_removed"
        ∷ codes "user.deleted"
        ∷ codes "agent.deleted"
        ∷ [])

pub data ResultLabel : Type 0 where
  result_ok envelope_decode cache_error already_processed : ResultLabel
  unknown_event_type handler_error : ResultLabel

-- The counters that the code increments, in order.
pub data Count : Type 0 where
  invalidation dlq : Str → ResultLabel → Count

abbrev pub dedupe_ttl : ℕ
dedupe_ttl = seconds (24 * 3600)

-- dedupeKey
unfoldable pub dedupe_key : Str → Str
dedupe_key event_id = codes "identity:invalidator:dedupe:" ++ event_id

-- What FetchMessage returned: a message, after some time, with what its commit would return; the
-- context's cancellation; or another error.
pub data Fetched : Type 0 where
  fetched : ℕ → RawMessage → Bool → Fetched
  cancelled fetch_failed : Fetched

-- Where Run stands when no more fetches are given, and the three ways in which it returns.
pub data Stop : Type 0 where
  running stopped fetch_error commit_error : Stop

module _ {S : Type 0} (store : CacheStore S) (dec : Decoders)
    (handlers : List (Str × EventHandler)) where
  -- cacheDeduper.Seen; `none` is a failure of the backend.
  unfoldable pub seen : S → Str → S × Option Bool
  seen s event_id =
      let (s', b) = store.get s (dedupe_key event_id) in
      (s', elim b [ found _ ↦ some true | not_found ↦ some false | failed ↦ none ])

  -- cacheDeduper.Mark; `false` is an error.
  unfoldable pub mark : S → Str → S × Bool
  mark s event_id = store.set s (dedupe_key event_id) (codes "1") dedupe_ttl

  -- The loop over the affected principals, which stops at the first error.
  unfoldable pub delete_all : S → List ℕ → S × Bool
  delete_all s [] = (s, true)
  delete_all s (pid ∷ pids) =
      let (s', deleted) = store.remove s (identity_key (dec.uuid_text pid)) in
      let rest = delete_all s' pids in if deleted then rest else (s', false)

  -- The deletions and the mark, for the affected principals of an envelope.
  unfoldable pub apply_event : S → EventEnvelope → List ℕ → S × List Count × Bool
  unfolding delete_all mark
  apply_event s env affected =
      let (s', deleted) = delete_all s affected in
      if deleted
      then (let (s'', marked) = mark s' env.event_id in
          if marked
          then (s'', invalidation env.event_type result_ok ∷ [], true)
          else (s'', invalidation env.event_type cache_error ∷ [], false))
      else (s', invalidation env.event_type cache_error ∷ [], false)

  -- From the lookup of the handler on.
  unfoldable pub dispatch : S → EventEnvelope → S × List Count × Bool
  unfolding apply_event
  dispatch s env = elim (lookup Str-discrete env.event_type handlers) [
    | none ↦ (s, invalidation env.event_type unknown_event_type ∷ [], true)
    | some handler ↦ elim (handler env) [
      | none ↦ (s, invalidation env.event_type handler_error ∷ [], true)
      | some affected ↦ apply_event s env affected
    ]
  ]

  -- From the answer of Seen on.
  unfoldable pub process_unseen : S → EventEnvelope → Option Bool → S × List Count × Bool
  unfolding dispatch
  process_unseen s env none = (s, invalidation env.event_type cache_error ∷ [], false)
  process_unseen s env (some true) = (s, invalidation env.event_type already_processed ∷ [], true)
  process_unseen s env (some false) = dispatch s env

  -- processOnce: the counters, and `true` for a nil error, which commits the offset.
  unfoldable pub process_once : S → RawMessage → S × List Count × Bool
  unfolding seen process_unseen
  process_once s msg = elim (dec.unmarshal_envelope msg.value) [
    | none ↦ (s, dlq [] envelope_decode ∷ invalidation [] envelope_decode ∷ [], true)
    | some env ↦ let (s', was) = seen s env.event_id in process_unseen s' env was
  ]

  -- Run: the messages that processOnce accepted, in order, and how the loop ended.
  unfoldable pub run : (ℕ → S → S) → S → List Fetched → S × List RawMessage × Stop
  run elapse s [] = (s, [], running)
  run elapse s (cancelled ∷ fs) = (s, [], stopped)
  run elapse s (fetch_failed ∷ fs) = (s, [], fetch_error)
  run elapse s (fetched d msg committed ∷ fs) =
      let (s', counts, accepted) = process_once (elapse d s) msg in
      let (s'', later, stop) = run elapse s' fs in
      if accepted
      then (if committed then (s'', msg ∷ later, stop) else (s', msg ∷ [], commit_error))
      else (s'', later, stop)
