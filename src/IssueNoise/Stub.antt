-- ===== src/IssueNoise/Stub.antt =====
-- StubStore (store_stub.go) and RecordingWorkflowStarter (workflow_starter.go).
use gitscale.Common.{ℕ, Bool, true, false, Option, List, [], ◌∷◌, ◌++◌, if◌then◌else◌, ℕ_discrete}
use gitscale.Common.Map.{lookup, insert}
use gitscale.Common.Str.{Str}
use gitscale.IssueNoise.{IssueState, NoiseDecision, Payload}
use gitscale.IssueNoise.Router.{
  Write, anchor_issue, set_issue_state, insert_decision, write_outbox, Store, HoldExpiryParams,
  WorkflowStarter,
}

pub record StubOutboxRow (F : Type 0) : Type 0 where
  pub event_type : Str
  pub aggregate_id : ℕ
  pub payload : Payload F

-- A transaction's own writes, and the same three tables of the store.
pub record Tables (F : Type 0) : Type 0 where
  pub issues : List (ℕ × IssueState)
  pub decisions : List (NoiseDecision F)
  pub outbox : List (StubOutboxRow F)

-- `fail_on_tx` is FailOnTx, where it is set.
pub record StubStore (F : Type 0) : Type 0 where
  pub tables : Tables F
  pub fail_on_tx : Bool

-- `for k, v := range tx.issues { s.issues[k] = v }`
unfoldable pub merge_issues : List (ℕ × IssueState) → List (ℕ × IssueState) → List (ℕ × IssueState)
merge_issues [] into = into
merge_issues ((k, v) ∷ m) into = merge_issues m (insert ℕ_discrete k v into)

module _ {F : Type 0} where
  abbrev pub no_tables : Tables F
  no_tables = record { issues = []; decisions = []; outbox = [] }

  unfoldable pub new_stub_store : StubStore F
  new_stub_store = record { tables = no_tables; fail_on_tx = false }

  -- AnchorIssue, SetIssueState, InsertDecision and WriteOutbox of stubTx
  unfoldable pub stub_write : Tables F → Write F → Tables F
  stub_write t (anchor_issue d state) = record t { issues = insert ℕ_discrete d.id state t.issues }
  stub_write t (set_issue_state id state) = record t {
    issues = insert ℕ_discrete id state t.issues;
  }
  stub_write t (insert_decision d) = record t { decisions = t.decisions ++ d ∷ [] }
  stub_write t (write_outbox event_type id payload) = record t {
    outbox =
        t.outbox ++ record { event_type = event_type; aggregate_id = id; payload = payload } ∷ [];
  }

  unfoldable pub stub_writes : Tables F → List (Write F) → Tables F
  unfolding stub_write
  stub_writes t [] = t
  stub_writes t (w ∷ ws) = stub_writes (stub_write t w) ws

  -- Transact
  unfoldable pub stub_transact : StubStore F → List (Write F) → StubStore F × Bool
  unfolding stub_writes merge_issues
  stub_transact s ws =
      let tx = stub_writes no_tables ws in
      if s.fail_on_tx then (s, false) else (
        record s {
          tables = record {
            issues = merge_issues tx.issues s.tables.issues;
            decisions = s.tables.decisions ++ tx.decisions;
            outbox = s.tables.outbox ++ tx.outbox;
          };
        },
        true,
      )

  abbrev pub stub_store : Store F (StubStore F)
  stub_store = record { transact = stub_transact }

  -- IssueState; `none` is the empty string.
  unfoldable pub issue_state : StubStore F → ℕ → Option IssueState
  issue_state s id = lookup ℕ_discrete id s.tables.issues

-- `start_fails` and `signal_fails` are StartErr and SigErr, where they are set.
pub record Recorded : Type 0 where
  pub holds : List HoldExpiryParams
  pub releases : List ℕ
  pub start_fails : Bool
  pub signal_fails : Bool

unfoldable pub record_start : Recorded → HoldExpiryParams → Recorded × Bool
record_start r p =
    if r.start_fails then (r, false) else (record r { holds = r.holds ++ p ∷ [] }, true)

unfoldable pub record_signal : Recorded → ℕ → Recorded × Bool
record_signal r id =
    if r.signal_fails then (r, false) else (record r { releases = r.releases ++ id ∷ [] }, true)

abbrev pub recording : WorkflowStarter Recorded
recording = record { start_hold_expiry = record_start; signal_release = record_signal }
