-- ===== src/Outbox/Tests.antt =====
-- Runs of the outbox on the mock producer, and its theorems there.
use gitscale.Common.{
  ℕ_discrete, ℕ, zero, suc, ◌+◌, ◌≤◌, ◌≡◌, refl, arith, true, false, none, some, List, [], ◌∷◌, map,
  length, All,
}
use gitscale.Common.Int.{pos}
use gitscale.Common.Str.{Str, codes, Str-discrete}
use gitscale.Outbox.{where_rows, OutboxRow, Table, KafkaProducer, World}
use gitscale.Outbox.Mock
use gitscale.Outbox.Drain
use gitscale.Outbox.Drain.{Config, Cycle, committed, commit_unheard, drain_batch}
use gitscale.Outbox.Expirer.{
  Answer, deleted, delete_unheard, new_expirer, is_valid_domain, Expirer, Expired, expire_among,
}
use gitscale.Outbox.Mock.{Envelope, new_mock_producer, mock_kafka, mock_kafka-ProducerOk, InTopic}
use gitscale.Outbox.History.{Event, emit, drain, expire_rows, expire_once, run}
use gitscale.Outbox.Keeps.{Safe}
use gitscale.Outbox.Delivery.{run-Safe}
use gitscale.Outbox.Backlog.{Undisturbed, backlog, drains-backlog}
use gitscale.Outbox.Expiry.{inserted_by, Counts, expire_ends}

abbrev Messages : Type 0
Messages = List (Str × List Envelope)

abbrev uuid : ℕ → Str
uuid n = n ∷ []

abbrev topic : Str
topic = codes "gitscale.identity.events"

abbrev producer : KafkaProducer Messages
producer = mock_kafka uuid new_mock_producer none

abbrev config : Config Messages
config = record { topic = topic; producer = producer; batch_size = 2 }

abbrev a_row : ℕ → OutboxRow
a_row t = record {
  id = 0;
  event_id = t;
  aggregate_type = codes "user";
  aggregate_id = 7;
  event_type = codes "user.disabled";
  payload = codes "{}";
  created_at = t;
}

abbrev calm : Cycle
calm = record {
  begins = true;
  lock = some true;
  selects = true;
  arrivals = [];
  updates = true;
  commit = committed;
  now = 10;
}

-- A commit that goes unheard, with a row that arrives in the cycle, and another expirer between.
abbrev history : List Event
history =
    emit (a_row 1 ∷ a_row 2 ∷ a_row 3 ∷ [])
    ∷ drain (record calm { commit = commit_unheard; arrivals = a_row 0 ∷ [] })
    ∷ expire_rows (record { domain = codes "identity"; ttl = 5; batch_size = 1 }) (λ _. deleted 20)
    ∷ drain (record calm { updates = false })
    ∷ expire_once (record { domain = codes "identity"; ttl = 5; batch_size = 1 }) 30
    ∷ []

run-Safe_example :
    let (w, inserted) = run config history (record { table = []; next_id = 1; log = [] }) in
    All (Safe config (λ l r. InTopic uuid topic l r) w) inserted
run-Safe_example =
    run-Safe config (λ l r. InTopic uuid topic l r) history []
      (mock_kafka-ProducerOk uuid topic new_mock_producer none refl)

calm-Undisturbed : Undisturbed calm
calm-Undisturbed = record {
  begins = refl;
  lock = refl;
  selects = refl;
  arrivals = refl;
  updates = refl;
  commit = refl;
}

abbrev backlogged : World Messages
backlogged = record {
  table =
      record { row = record (a_row 1) { id = 1 }; processed_at = none }
      ∷ record { row = record (a_row 0) { id = 2 }; processed_at = some 4 }
      ∷ record { row = record (a_row 0) { id = 3 }; processed_at = none }
      ∷ [];
  next_id = 4;
  log = [];
}

mock-acks :
    (batch : List OutboxRow) (l : Messages) → (producer.publish_batch topic batch l).1 ≡ true
unfolding Mock.publish_batch
mock-acks batch l = refl

two_wait : backlog backlogged.table ≤ 2
unfolding backlog where_rows Drain.is_unprocessed
two_wait = omega arith

drains-backlog_example : backlog (run config (map drain (calm ∷ calm ∷ [])) backlogged).0.table ≡ 0
drains-backlog_example =
    drains-backlog config (calm ∷ calm ∷ []) backlogged (calm-Undisturbed, (calm-Undisturbed, tt))
      (omega arith) mock-acks two_wait

abbrev expirer : Expirer
expirer = record { domain = codes "identity"; ttl = 5; batch_size = 1 }

expirer_made : new_expirer (codes "identity") (pos 5) (pos 1) ≡ some expirer
unfolding new_expirer is_valid_domain Str-discrete ℕ_discrete
expirer_made = refl

-- Another session inserts a row before the first DELETE.
abbrev others : ℕ → Table → Table
others zero t = record { row = a_row 9; processed_at = none } ∷ t
others (suc turn) t = t

abbrev one_at_first : ℕ → ℕ
one_at_first zero = 1
one_at_first (suc turn) = 0

others-length : (turn : ℕ) (t : Table) → length (others turn t) ≡ length t + one_at_first turn
others-length zero t = omega arith
others-length (suc turn) t = omega arith

inserted_by-others : (k : ℕ) → inserted_by one_at_first k ≤ 1
unfolding inserted_by
inserted_by-others zero = omega arith
inserted_by-others (suc zero) = omega arith
inserted_by-others (suc (suc k)) = let ih = inserted_by-others (suc k) in omega (arith, ih)

-- The first DELETE is heard, the second is not.
abbrev heard_once : ℕ → Answer
heard_once zero = deleted 20
heard_once (suc turn) = delete_unheard 21

expire_ends_example :
    (x : Expired) × (k : ℕ) × (expire_among 1 expirer others heard_once backlogged.table ≡ some x)
    × Counts x (3 + inserted_by one_at_first k)
expire_ends_example =
    expire_ends (codes "identity") (pos 5) (pos 1) expirer others heard_once one_at_first 1
      backlogged.table expirer_made others-length inserted_by-others
