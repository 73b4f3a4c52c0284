-- ===== src/Outbox/Mock.antt =====
-- The in-memory producer (producer_mock.go).
use mathlib.Core.Path.{subst}
use gitscale.Common.{
  Contains, Contains-append, Contains-append_last, ℕ, zero, suc, ◌≡◌, refl, Bool, true, false,
  Option, none, some, List, [], ◌∷◌, ◌++◌, All, take, if_rule, match_rule, arith, ltb,
  if◌then◌else◌,
}
use gitscale.Common.Map.{lookup, insert, lookup-insert_self}
use gitscale.Common.Str.{Str, Str-discrete, codes}
use gitscale.Outbox.{OutboxRow, KafkaProducer, ProducerOk}

-- kafkadata.EventEnvelope, as far as it is filled here. UUID.String is an argument.
pub record Envelope : Type 0 where
  pub event_id : Str
  pub aggregate_type : Str
  pub aggregate_id : Str
  pub event_type : Str
  pub schema_version : Str
  pub payload : Str
  pub occurred_at : ℕ

-- `inject_err` says whether there is an error to inject.
pub record MockProducer : Type 0 where
  pub messages : List (Str × List Envelope)
  pub closed : Bool
  pub inject_err : Bool
  pub publish_after_n : ℕ

abbrev pub new_mock_producer : MockProducer
new_mock_producer = record {
  messages = [];
  closed = false;
  inject_err = false;
  publish_after_n = 0;
}

-- `messages[topic]`, with nothing for a missing topic.
unfoldable pub messages_at : Str → List (Str × List Envelope) → List Envelope
messages_at topic messages = elim (lookup Str-discrete topic messages) [ none ↦ [] | some es ↦ es ]

-- Messages
abbrev pub messages_of : Str → MockProducer → List Envelope
messages_of topic m = messages_at topic m.messages

-- The loop over the batch ends before the context is cancelled.
unfoldable pub all_sent : List OutboxRow → ℕ → Bool
all_sent [] n = true
all_sent (r ∷ rs) zero = false
all_sent (r ∷ rs) (suc n) = all_sent rs n

module _ (uuid_text : ℕ → Str) where
  abbrev pub envelope_of : OutboxRow → Envelope
  envelope_of r = record {
    event_id = uuid_text r.event_id;
    aggregate_type = r.aggregate_type;
    aggregate_id = uuid_text r.aggregate_id;
    event_type = r.event_type;
    schema_version = codes "v1";
    payload = r.payload;
    occurred_at = r.created_at;
  }

  unfoldable pub append_locked : Str → OutboxRow → MockProducer → MockProducer
  append_locked topic r m = record m {
    messages = insert Str-discrete topic (messages_of topic m ++ envelope_of r ∷ []) m.messages;
  }

  unfoldable pub append_all : Str → List OutboxRow → MockProducer → MockProducer
  append_all topic [] m = m
  append_all topic (r ∷ rs) m = append_all topic rs (append_locked topic r m)

  -- The context is cancelled before the `n`-th message, or not at all.
  unfoldable pub publish_batch :
      Option ℕ → Str → List OutboxRow → MockProducer → MockProducer × Bool
  publish_batch cancelled topic batch m =
      if ltb 0 m.publish_after_n
      then (append_all topic (take m.publish_after_n batch) m, not_injected m.inject_err)
      else if m.inject_err
      then (m, false)
      else elim cancelled [
        | none ↦ (append_all topic batch m, true)
        | some n ↦ (append_all topic (take n batch) m, all_sent batch n)
      ]
    where
      not_injected : Bool → Bool
      not_injected true = false
      not_injected false = true

unfoldable pub close : MockProducer → MockProducer
close m = record m { closed = true }

-- The mock as the consumer's producer: the messages are its state, the rest are its settings.
abbrev pub mock_kafka :
    (ℕ → Str) → MockProducer → Option ℕ → KafkaProducer (List (Str × List Envelope))
mock_kafka uuid_text m cancelled = record {
  publish_batch = λ topic batch messages.
      let (m', sent) =
        publish_batch uuid_text cancelled topic batch (record m { messages = messages }) in
      (m'.messages, sent);
}

-- The row's envelope is in the topic.
abbrev pub InTopic : (ℕ → Str) → Str → List (Str × List Envelope) → OutboxRow → Type 0
InTopic uuid_text topic messages r = Contains (envelope_of uuid_text r) (messages_at topic messages)

module _ (uuid_text : ℕ → Str) (topic : Str) where
  abbrev Has : MockProducer → OutboxRow → Type 0
  Has m r = InTopic uuid_text topic m.messages r

  messages_of-append_locked :
      (r : OutboxRow) (m : MockProducer)
      → messages_of topic (append_locked uuid_text topic r m)
        ≡ messages_of topic m ++ envelope_of uuid_text r ∷ []
  unfolding append_locked messages_at
  messages_of-append_locked r m = rw (
    messages_at,
    lookup-insert_self Str-discrete topic (messages_of topic m ++ envelope_of uuid_text r ∷ [])
        m.messages,
  )

  append_locked-keeps :
      (r q : OutboxRow) (m : MockProducer) → Has m q → Has (append_locked uuid_text topic r m) q
  append_locked-keeps r q m h = rw (messages_of-append_locked r m) (Contains-append _ h)

  append_all-keeps :
      (rs : List OutboxRow) (q : OutboxRow) (m : MockProducer)
      → Has m q
      → Has (append_all uuid_text topic rs m) q
  unfolding append_all
  append_all-keeps [] q m h = h
  append_all-keeps (r ∷ rs) q m h = append_all-keeps rs q _ (append_locked-keeps r q m h)

  append_all-Has :
      (rs : List OutboxRow) (m : MockProducer) → All (Has (append_all uuid_text topic rs m)) rs
  unfolding append_all
  append_all-Has [] m = tt
  append_all-Has (r ∷ rs) m = (
    append_all-keeps rs r _ (rw (messages_of-append_locked r m) (Contains-append_last _ _)),
    append_all-Has rs _,
  )

  all_sent→take : (batch : List OutboxRow) (n : ℕ) → all_sent batch n ≡ true → take n batch ≡ batch
  unfolding all_sent
  all_sent→take [] zero e = refl
  all_sent→take [] (suc n) e = refl
  all_sent→take (r ∷ rs) zero e = cc
  all_sent→take (r ∷ rs) (suc n) e = rw (all_sent→take rs n e)

  abbrev Sends : MockProducer → List OutboxRow → MockProducer × Bool → Type 0
  Sends m batch r = ((q : OutboxRow) → Has m q → Has r.0 q) × (r.1 ≡ true → All (Has r.0) batch)

  publish_batch-Sends :
      (cancelled : Option ℕ) (batch : List OutboxRow) (m : MockProducer)
      → m.publish_after_n ≡ 0
      → Sends m batch (publish_batch uuid_text cancelled topic batch m)
  unfolding publish_batch
  publish_batch-Sends cancelled batch m whole =
      if_rule (Sends m batch) (ltb 0 m.publish_after_n) (λ some_n. absurd (ground (arith, whole)))
        λ _.
          if_rule (Sends m batch) m.inject_err (λ _. ((λ q h. h), λ e. cc))
            λ _.
              match_rule (Sends m batch) cancelled
                (λ _. ((λ q h. append_all-keeps batch q m h), λ _. append_all-Has batch m))
                λ n _. (
                  (λ q h. append_all-keeps (take n batch) q m h),
                  λ e.
                      subst (λ b. All (Has (append_all uuid_text topic (take n batch) m)) b)
                        (all_sent→take batch n e) (append_all-Has (take n batch) m),
                )

  -- A mock that is not told to stop part of the way keeps a producer's word, whether it is told to
  -- fail or its context is cancelled.
  pub mock_kafka-ProducerOk :
      (m : MockProducer) (cancelled : Option ℕ)
      → m.publish_after_n ≡ 0
      → ProducerOk (mock_kafka uuid_text m cancelled) topic (InTopic uuid_text topic)
  mock_kafka-ProducerOk m cancelled whole = record {
    keeps = λ batch l r h.
        (publish_batch-Sends cancelled batch (record m { messages = l }) whole).0 r h;
    acknowledged = λ batch l sent.
        (publish_batch-Sends cancelled batch (record m { messages = l }) whole).1 sent;
  }
