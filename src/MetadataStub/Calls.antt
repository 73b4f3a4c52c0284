-- ===== src/MetadataStub/Calls.antt =====
-- What a callback of Transact (stub/metadata.go) may call, and the order of its calls.
use gitscale.Common.{ℕ, ◌≡◌, Bool, false, ◌&&◌, Option, none, some, List, [], ◌∷◌}
use gitscale.Common.Str.{Str}
use gitscale.MetadataStub.{
  HumanUser, AgentIdentity, CloneToken, Repository, OutboxRecord, Rows, get, has, new_rows, commit,
  insert_human_user, insert_agent_identity, set_agent_reputation_score, disable_user, revoke_agent,
  update_agent_permissions, insert_clone_token, insert_repository, write_outbox,
}

pub data Call (F P : Type 0) : Type 0 where
  add_user : HumanUser → Call F P
  add_agent : AgentIdentity F → Call F P
  set_score : ℕ → F → Call F P
  disable revoke : ℕ → Call F P
  set_permissions : ℕ → List Str → Call F P
  add_token : CloneToken → Call F P
  add_repository : Repository → Call F P
  emit : OutboxRecord P → Call F P

module _ {F P : Type 0} where
  unfoldable pub call : Call F P → Rows F P → Rows F P → Option (Rows F P)
  call (add_user u) s tx = insert_human_user u s tx
  call (add_agent a) s tx = insert_agent_identity a s tx
  call (set_score id score) s tx = set_agent_reputation_score id score s tx
  call (disable id) s tx = disable_user id s tx
  call (revoke id) s tx = revoke_agent id s tx
  call (set_permissions id scope) s tx = update_agent_permissions id scope s tx
  call (add_token c) s tx = insert_clone_token c s tx
  call (add_repository r) s tx = insert_repository r s tx
  call (emit e) s tx = write_outbox e s tx

  -- A callback that makes the calls in order and returns at the first error.
  unfoldable pub calls : List (Call F P) → Rows F P → Rows F P → Option (Rows F P)
  calls [] s tx = some tx
  calls (c ∷ cs) s tx = elim (call c s tx) [ none ↦ none | some tx' ↦ calls cs s tx' ]

  -- Each call in a transaction of its own, until one fails.
  unfoldable pub one_by_one : List (Call F P) → Rows F P → Option (Rows F P)
  one_by_one [] s = some s
  one_by_one (c ∷ cs) s = elim (call c s new_rows) [
    | none ↦ none
    | some tx ↦ one_by_one cs (commit tx s)
  ]

  -- No row is told apart by a read.
  pub record Same (s t : Rows F P) : Type 0 where
    pub users : (k : ℕ) → get k s.users ≡ get k t.users
    pub agents : (k : ℕ) → get k s.agents ≡ get k t.agents
    pub repositories : (k : ℕ) → get k s.repositories ≡ get k t.repositories
    pub clone_tokens : (k : ℕ) → get k s.clone_tokens ≡ get k t.clone_tokens
    pub outbox : s.outbox ≡ t.outbox

  -- Both fail, or both succeed on rows that are the same.
  abbrev pub Agree : Option (Rows F P) → Option (Rows F P) → Type 0
  Agree none none = Unit
  Agree (some s) (some t) = Same s t
  Agree _ _ = ⊥

  -- A change of permissions of an agent that is committed and has been written in the transaction.
  unfoldable pub overwrites : Call F P → Rows F P → Rows F P → Bool
  overwrites (set_permissions id scope) s tx = has id s.agents && has id tx.agents
  overwrites _ s tx = false

  abbrev pub OnSome : (Rows F P → Type 0) → Option (Rows F P) → Type 0
  OnSome Q none = Unit
  OnSome Q (some tx) = Q tx

  -- No call changes the permissions of a committed agent that the transaction has written before.
  abbrev pub Careful : List (Call F P) → Rows F P → Rows F P → Type 0
  Careful [] s tx = Unit
  Careful (c ∷ cs) s tx =
      (overwrites c s tx ≡ false) × OnSome (λ tx'. Careful cs s tx') (call c s tx)
