-- ===== src/Invalidator/Redelivery.antt =====
-- The consumer (consumer.go, dedupe.go) over MemoryStore.
use gitscale.Common.{
  ℕ, ◌+◌, ◌≤◌, ◌≡◌, refl, sym, ap, ◌∙◌, ite, Bool, true, false, Option, none, some, List, [], ◌∷◌,
  All,
}
use mathlib.Core.Logic.{if_pos}
use mathlib.Core.Path.{subst}
use gitscale.Common.Map.{lookup}
use gitscale.Common.Str.{Str, Str-discrete, codes}
use gitscale.Cache.{Got, found, not_found, identity_key}
use gitscale.Cache.Memory.{
  MemoryStore, memory_store, memory_set, memory_delete, advance, unexpired, fresh, evict,
  store_entry,
}
use gitscale.Cache.Memory.Spec.{fresh-evict, unexpired-unexpired}
use gitscale.Cache.Memory.Refines.{memory_get-Agrees}
use gitscale.Cache.Namespace.{store_entry-other, shown-Agrees}
use gitscale.Cache.ReadThrough.Laws.{get_stored, get_absent}
use gitscale.Invalidator.{
  EventEnvelope, RawMessage, Decoders, EventHandler, Count, invalidation, result_ok,
  already_processed, dedupe_key, dedupe_ttl, seen, mark, delete_all, apply_event, dispatch,
  process_unseen, process_once,
}
use gitscale.Invalidator.Gone.{Forgets, IsUuidText, keys_apart, Gone-mono, delete_all-Gone}

abbrev pub Unreadable : MemoryStore → Str → Type 0
Unreadable s k = fresh s k ≡ none

evict-Unreadable : (s : MemoryStore) (k j : Str) → Unreadable s j → Unreadable (evict k s) j
evict-Unreadable s k j h =
    fresh-evict s k j
    ∙ elim (Str-discrete k j) as (λ d. ite d none (fresh s j) ≡ none) [ yes _ ↦ refl | no _ ↦ h ]

-- MemoryStore is a store as the consumer needs it.
pub memory_store-Forgets : Forgets memory_store advance Unreadable
unfolding memory_delete memory_set advance
memory_store-Forgets = record {
  remove_gone = λ s k _. fresh-evict s k k ∙ if_pos (Str-discrete k k) refl _ _;
  remove_keeps = λ s k j h. evict-Unreadable s k j h;
  get_keeps = λ s k j h. (memory_get-Agrees k (shown-Agrees s)).0.same_entries j ∙ h;
  set_keeps = λ s k v ttl j ne h. store_entry-other s k v ttl j ne ∙ h;
  elapse_keeps = λ d s j h.
      unexpired-unexpired s.now d (lookup Str-discrete j s.entries)
      ∙ ap (unexpired (s.now + d)) h
      ∙ unfold unexpired in refl;
  get_finds_none = λ s k b h e. absurd (let q = ap (λ r. r.1) (get_absent s k h) in cc);
}

-- None of these principals' identities can be read.
abbrev pub AllUnreadable : Decoders → MemoryStore → List ℕ → Type 0
AllUnreadable dec s pids = All (λ p. Unreadable s (identity_key (dec.uuid_text p))) pids

-- The same stamp of the clock, whatever was deleted.
delete_all-memory :
    (dec : Decoders) (handlers : List (Str × EventHandler)) (pids : List ℕ) (s : MemoryStore)
    → (delete_all memory_store dec handlers s pids).1 ≡ true
unfolding delete_all memory_delete
delete_all-memory dec handlers [] s = refl
delete_all-memory dec handlers (p ∷ pids) s =
    delete_all-memory dec handlers pids (evict (identity_key (dec.uuid_text p)) s)

module _ (dec : Decoders) (handlers : List (Str × EventHandler)) where
  process_once-seen :
      (s : MemoryStore) (m : RawMessage) (env : EventEnvelope)
      → dec.unmarshal_envelope m.value ≡ some env
      → process_once memory_store dec handlers s m ≡ (
          let r = seen memory_store dec handlers s env.event_id in
          process_unseen memory_store dec handlers r.0 env r.1)
  unfolding process_once
  process_once-seen s m env de = rw (de, process_once)

  seen_unmarked :
      (s : MemoryStore) (id : Str)
      → Unreadable s (dedupe_key id)
      → seen memory_store dec handlers s id ≡ (evict (dedupe_key id) s, some false)
  unfolding seen
  seen_unmarked s id un =
      ap
        (λ (r : MemoryStore × Got).
          (r.0, elim r.1 [ found _ ↦ some true | not_found ↦ some false | _ ↦ none ]))
        (get_absent s (dedupe_key id) un)

  seen_marked :
      (s : MemoryStore) (id v : Str) (ttl d : ℕ)
      → d ≤ ttl
      → let s' = advance d (store_entry s (dedupe_key id) v ttl) in
        seen memory_store dec handlers s' id ≡ (s', some true)
  unfolding seen
  seen_marked s id v ttl d le =
      ap
        (λ (r : MemoryStore × Got).
          (r.0, elim r.1 [ found _ ↦ some true | not_found ↦ some false | _ ↦ none ]))
        (get_stored s (dedupe_key id) v ttl d le)

  dispatch-marks :
      (s : MemoryStore) (env : EventEnvelope) (handler : EventHandler) (affected : List ℕ)
      → lookup Str-discrete env.event_type handlers ≡ some handler
      → handler env ≡ some affected
      → dispatch memory_store dec handlers s env ≡ (
        store_entry
            (delete_all memory_store dec handlers s affected).0
            (dedupe_key env.event_id)
            (codes "1")
            dedupe_ttl,
        invalidation env.event_type result_ok ∷ [],
        true,
      )
  unfolding dispatch apply_event mark memory_set
  dispatch-marks s env handler affected lo ha =
      rw (lo, ha, dispatch) (rw (delete_all-memory dec handlers affected s, apply_event))

-- An event that is not marked is applied, so that no affected identity can be read any more, and
-- marked, and while the mark lasts the same message is accepted as already processed and changes
-- nothing, the affected identities still gone, provided that a UUID's text does not start with an i.
pub process_once-process_once :
    (dec : Decoders) (handlers : List (Str × EventHandler)) (s : MemoryStore) (m : RawMessage)
    (env : EventEnvelope) (handler : EventHandler) (affected : List ℕ) (d : ℕ)
    → dec.unmarshal_envelope m.value ≡ some env
    → lookup Str-discrete env.event_type handlers ≡ some handler
    → handler env ≡ some affected
    → Unreadable s (dedupe_key env.event_id)
    → d ≤ dedupe_ttl
    → IsUuidText dec.uuid_text
    → let (s', counts, accepted) = process_once memory_store dec handlers s m in
      (accepted ≡ true)
      × (counts ≡ invalidation env.event_type result_ok ∷ [])
      × AllUnreadable dec (advance d s') affected
      × (process_once memory_store dec handlers (advance d s') m
          ≡ (advance d s', invalidation env.event_type already_processed ∷ [], true))
unfolding process_unseen memory_set
process_once-process_once dec handlers s m env handler affected d de lo ha un le plain =
    subst After (sym first) (refl, refl, gone, second)
  where
    Step : Type 0
    Step = MemoryStore × List Count × Bool

    After : Step → Type 0
    After r =
        (r.2 ≡ true)
        × (r.1 ≡ invalidation env.event_type result_ok ∷ [])
        × AllUnreadable dec (advance d r.0) affected
        × (process_once memory_store dec handlers (advance d r.0) m
            ≡ (advance d r.0, invalidation env.event_type already_processed ∷ [], true))

    handle : MemoryStore × Option Bool → Step
    handle r = process_unseen memory_store dec handlers r.0 env r.1

    marked : MemoryStore
    marked =
        store_entry
          (delete_all memory_store dec handlers (evict (dedupe_key env.event_id) s) affected).0
          (dedupe_key env.event_id) (codes "1") dedupe_ttl

    -- The deletions, which neither the mark nor the time undoes.
    gone : AllUnreadable dec (advance d marked) affected
    gone =
        Gone-mono memory_store advance Unreadable memory_store-Forgets dec handlers plain (λ _. [])
          affected
          (λ p h. memory_store-Forgets.elapse_keeps d marked (identity_key (dec.uuid_text p)) (
            memory_store-Forgets.set_keeps _ (dedupe_key env.event_id) (codes "1") dedupe_ttl _
              (keys_apart (dec.uuid_text p) env.event_id (plain p)) h))
          (delete_all-Gone memory_store advance Unreadable memory_store-Forgets dec handlers plain
            (λ _. []) affected (evict (dedupe_key env.event_id) s)
            (delete_all-memory dec handlers affected (evict (dedupe_key env.event_id) s)))

    first :
        process_once memory_store dec handlers s m
        ≡ (marked, invalidation env.event_type result_ok ∷ [], true)
    first =
        process_once-seen dec handlers s m env de
        ∙ ap handle (seen_unmarked dec handlers s env.event_id un)
        ∙ dispatch-marks dec handlers (evict (dedupe_key env.event_id) s) env handler affected lo ha

    second :
        process_once memory_store dec handlers (advance d marked) m
        ≡ (advance d marked, invalidation env.event_type already_processed ∷ [], true)
    second =
        process_once-seen dec handlers (advance d marked) m env de
        ∙ ap handle (
            seen_marked dec handlers
              (delete_all memory_store dec handlers (evict (dedupe_key env.event_id) s) affected).0
              env.event_id (codes "1") dedupe_ttl d le)
