-- ===== src/Invalidator/Tests.antt =====
-- The invalidator at one event, and its theorems there.
use gitscale.Common.{ℕ, ◌≡◌, refl, true, some, List, [], ◌∷◌, arith, All}
use mathlib.Core.Path.{subst}
use mathlib.Core.Option.{some-injective}
use gitscale.Common.Map.{lookup}
use gitscale.Common.Str.{Str, codes, Str-discrete, has_prefix}
use gitscale.Cache.{identity_key}
use gitscale.Cache.Memory.{MemoryStore, memory_store, advance, unexpired}
use gitscale.Invalidator.{
  EventEnvelope, RawMessage, Decoders, Fetched, fetched, cancelled, default_handlers,
  affected_principals, invalidation, already_processed, result_ok, process_once, run, dedupe_key,
}
use gitscale.Invalidator.Gone.{IsUuidText, Says, affected_by, targets, run-Gone}
use gitscale.Invalidator.Redelivery.{
  AllUnreadable, Unreadable, memory_store-Forgets, process_once-process_once,
}

abbrev disabled : EventEnvelope
disabled = record {
  event_id = codes "e";
  aggregate_type = [];
  aggregate_id = [];
  event_type = codes "user.disabled";
  schema_version = [];
  payload = [];
  occurred_at = 1;
  published_at = 2;
  principal_type = [];
  rate_bucket = [];
}

abbrev decoders : Decoders
decoders = record {
  unmarshal_envelope = λ b. some disabled;
  unmarshal_affected = λ b. some (5 ∷ 6 ∷ []);
  uuid_text = λ p. codes "0";
}

abbrev message : RawMessage
message = record { topic = []; partition = 0; offset = 3; key = []; value = [] }

abbrev start : MemoryStore
start = record { entries = []; now = 100 }

abbrev deliveries : List Fetched
deliveries = fetched 1 message true ∷ fetched 2 message true ∷ cancelled ∷ []

handled :
    lookup Str-discrete (codes "user.disabled") (default_handlers decoders)
    ≡ some (affected_principals decoders)
unfolding default_handlers lookup Str-discrete
handled = refl

zero-IsUuidText : IsUuidText decoders.uuid_text
unfolding has_prefix
zero-IsUuidText p = refl

abbrev truth : Str → List ℕ
truth i = 5 ∷ 6 ∷ []

abbrev affected : EventEnvelope → List ℕ
affected =
    affected_by memory_store advance Unreadable memory_store-Forgets decoders
      (default_handlers decoders) zero-IsUuidText truth

disabled-truth :
    (env : EventEnvelope) → some disabled ≡ some env → truth env.event_id ≡ affected env
unfolding default_handlers affected_principals lookup Str-discrete
disabled-truth env e =
    subst (λ v. truth v.event_id ≡ affected v) (some-injective disabled env e) refl

deliveries-Says :
    All
      (Says memory_store advance Unreadable memory_store-Forgets decoders
        (default_handlers decoders)
        zero-IsUuidText
        truth)
      deliveries
deliveries-Says = (disabled-truth, (disabled-truth, (tt, tt)))

start-unmarked : (i : Str) → Unreadable start (dedupe_key i)
unfolding lookup unexpired
start-unmarked i = refl

run-Gone_example :
    let (s, accepted, stop) =
      run memory_store decoders (default_handlers decoders) advance start deliveries in
    All
      (λ m.
        All
          (λ p. Unreadable s (identity_key (decoders.uuid_text p)))
          (targets memory_store advance Unreadable memory_store-Forgets decoders
            (default_handlers decoders)
            zero-IsUuidText
            truth
            m))
      accepted
run-Gone_example =
    run-Gone memory_store advance Unreadable memory_store-Forgets decoders
      (default_handlers decoders) zero-IsUuidText truth deliveries start deliveries-Says
      start-unmarked

process_once-process_once_example :
    let (s, counts, accepted) =
      process_once memory_store decoders (default_handlers decoders) start message in
    (accepted ≡ true)
    × (counts ≡ invalidation (codes "user.disabled") result_ok ∷ [])
    × AllUnreadable decoders (advance 9 s) (5 ∷ 6 ∷ [])
    × (process_once memory_store decoders (default_handlers decoders) (advance 9 s) message
        ≡ (advance 9 s, invalidation (codes "user.disabled") already_processed ∷ [], true))
unfolding affected_principals
process_once-process_once_example =
    process_once-process_once decoders (default_handlers decoders) start message disabled
      (affected_principals decoders) (5 ∷ 6 ∷ []) 9 refl handled refl (start-unmarked (codes "e"))
      (omega arith) zero-IsUuidText
