-- ===== src/MetadataStub/Tests.antt =====
-- Transactions on the in-memory metadata store.
use mathlib.Core.Option
use gitscale.Common.{ℕ, ◌≡◌, refl, none, some, List, [], ◌∷◌, ℕ_discrete, if◌then◌else◌}
use gitscale.Common.Map.{lookup, insert}
use gitscale.Common.Str.{Str, codes, Str-discrete}
use gitscale.Outbox.Expirer.{is_valid_domain}
use gitscale.MetadataStub
use gitscale.MetadataStub.{
  AgentIdentity, OutboxRecord, Rows, new_rows, commit, transact, apply_pending, get_user_by_id,
  get_agent_by_id, get_repository_by_id,
}
use gitscale.MetadataStub.Reads.{
  get_user_by_id_in, get_agent_by_id_in, get_repository_by_id_in, reads-commit,
}
use gitscale.MetadataStub.Serial.{transact-one_by_one}
use gitscale.MetadataStub.Calls.{
  Call, add_agent, set_score, set_permissions, emit, call, calls, one_by_one, overwrites, Careful,
  Agree,
}

abbrev an_agent : ℕ → AgentIdentity ℕ
an_agent id = record {
  id = id;
  display_name = codes "bot";
  parent_user_id = 9;
  permission_scope = codes "read" ∷ [];
  rate_bucket = codes "agent";
  session_quota = none;
  tokens_per_week_cap = none;
  reputation_score = 50;
  quota_account_id = none;
  created_at = 1;
  updated_at = 1;
}

abbrev stored : Rows ℕ Str
stored = record new_rows { agents = (2, an_agent 2) ∷ [] }

abbrev created : OutboxRecord Str
created = record {
  domain = codes "identity";
  aggregate_type = codes "agent";
  aggregate_id = 1;
  event_type = codes "agent.created";
  payload = codes "{}";
  event_id = 77;
}

abbrev callback : List (Call ℕ Str)
callback =
    add_agent (an_agent 1)
    ∷ set_score 1 80
    ∷ set_permissions 1 (codes "write" ∷ [])
    ∷ set_permissions 2 []
    ∷ emit created
    ∷ []

callback-Careful : Careful callback stored new_rows
unfolding call overwrites lookup insert ℕ_discrete MetadataStub.insert_agent_identity
    MetadataStub.set_agent_reputation_score MetadataStub.update_agent_permissions
    MetadataStub.write_outbox is_valid_domain Str-discrete
callback-Careful = (refl, (refl, (refl, (refl, (refl, tt)))))

transact-one_by_one_example :
    let (s', done) = transact (calls callback) stored in
    Agree (if done then some s' else none) (one_by_one callback stored)
transact-one_by_one_example = transact-one_by_one callback stored callback-Careful

reads-commit_example :
    let tx = record new_rows { agents = (2, record (an_agent 2) { reputation_score = 80 }) ∷ [] } in
    (get_user_by_id_in stored tx 2 ≡ get_user_by_id (commit tx stored) 2)
    × (get_agent_by_id_in stored tx 2 ≡ get_agent_by_id (commit tx stored) 2)
    × (get_repository_by_id_in stored tx 2 ≡ get_repository_by_id (commit tx stored) 2)
reads-commit_example =
    reads-commit stored
      (record new_rows { agents = (2, record (an_agent 2) { reputation_score = 80 }) ∷ [] }) 2

-- The change of permissions starts from the committed row, and the new score is gone.
score_is_lost :
    Option.map
      (λ a. a.reputation_score)
      (get_agent_by_id (transact (calls (set_score 2 80 ∷ set_permissions 2 [] ∷ [])) stored).0 2)
    ≡ some 50
unfolding transact calls call commit apply_pending lookup insert ℕ_discrete
    MetadataStub.set_agent_reputation_score MetadataStub.update_agent_permissions
score_is_lost = refl
