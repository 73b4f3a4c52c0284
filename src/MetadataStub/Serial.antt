-- ===== src/MetadataStub/Serial.antt =====
-- Transactions of several calls (stub/metadata.go) against transactions of one.
use mathlib.Core.List.{append_assoc, append-nil}
use gitscale.Common.{
  ℕ, ◌≡◌, refl, sym, ◌∙◌, ap, Bool, true, false, Option, none, some, List, [], ◌∷◌, ◌++◌, ite,
  ℕ_discrete, if◌then◌else◌, arith,
}
use gitscale.Common.Map.{lookup, lookup-insert}
use gitscale.Common.Str.{Str}
use gitscale.Outbox.Expirer.{is_valid_domain}
use gitscale.MetadataStub.{
  AgentIdentity, OutboxRecord, Rows, get, put, has, get_both, apply_pending, new_rows, commit,
  transact, insert_human_user, insert_agent_identity, set_agent_reputation_score, disable_user,
  revoke_agent, update_agent_permissions, insert_clone_token, insert_repository, write_outbox,
}
use gitscale.MetadataStub.Calls.{
  Call, add_user, add_agent, set_score, disable, revoke, set_permissions, add_token, add_repository,
  emit, call, calls, one_by_one, Same, Agree, overwrites, OnSome, Careful,
}

pub get-apply_pending :
    {V : Type 0} (k : ℕ) (p m : List (ℕ × V)) → get k (apply_pending p m) ≡ get_both k p m
unfolding apply_pending lookup
get-apply_pending k [] m = refl
get-apply_pending k ((j, v) ∷ p) m =
    ground (arith, get-apply_pending k p m, lookup-insert ℕ_discrete j k v (apply_pending p m))

get-put_pending :
    {V : Type 0} (k j : ℕ) (v : V) (p m : List (ℕ × V))
    → get j (apply_pending (put k v p) m)
      ≡ ite (ℕ_discrete k j) (some v) (get j (apply_pending p m))
get-put_pending k j v p m = ground (
  arith,
  get-apply_pending j (put k v p) m,
  get-apply_pending j p m,
  lookup-insert ℕ_discrete k j v p,
)

put-same :
    {V : Type 0} (k : ℕ) (v : V) (p m m' : List (ℕ × V))
    → ((j : ℕ) → get j (apply_pending p m) ≡ get j m')
    → (j : ℕ) → get j (apply_pending (put k v p) m) ≡ get j (apply_pending (put k v []) m')
unfolding apply_pending
put-same k v p m m' h j =
    get-put_pending k j v p m
    ∙ (ap (λ o. ite (ℕ_discrete k j) (some v) o) (h j) ∙ sym (get-put_pending k j v [] m'))

module _ {F P : Type 0} where
  map_commit : Option (Rows F P) → Rows F P → Option (Rows F P)
  map_commit none s = none
  map_commit (some tx) s = some (commit tx s)

  Same-id : (s tx t : Rows F P) → Same (commit tx s) t → Same (commit tx s) (commit new_rows t)
  unfolding commit apply_pending
  Same-id s tx t h = record {
    users = h.users;
    agents = h.agents;
    repositories = h.repositories;
    clone_tokens = h.clone_tokens;
    outbox = h.outbox ∙ sym (append-nil t.outbox);
  }

  module _ (s tx t : Rows F P) (h : Same (commit tx s) t) where
    -- A write to one agent, whose row is read, if there is one, from both maps.
    abbrev write_agent :
        ℕ
        → (AgentIdentity F → AgentIdentity F)
        → Option (AgentIdentity F)
        → Rows F P
        → Option (Rows F P)
    write_agent id f none tx = none
    write_agent id f (some a) tx = some (record tx { agents = put id (f a) tx.agents })

    put_agent-Same :
        (id : ℕ) (a : AgentIdentity F)
        → Same
            (commit (record tx { agents = put id a tx.agents }) s)
            (commit (record (new_rows {F = F} {P = P}) { agents = put id a [] }) t)
    unfolding commit
    put_agent-Same id a =
        let idle = Same-id s tx t h in
        record {
          users = idle.users;
          agents = put-same id a tx.agents s.agents t.agents h.agents;
          repositories = idle.repositories;
          clone_tokens = idle.clone_tokens;
          outbox = idle.outbox;
        }

    write_agent-Agree :
        (id : ℕ) (f : AgentIdentity F → AgentIdentity F) (o : Option (AgentIdentity F))
        → Agree (map_commit (write_agent id f o tx) s) (map_commit (write_agent id f o new_rows) t)
    unfolding map_commit
    write_agent-Agree id f none = tt
    write_agent-Agree id f (some a) = put_agent-Same id (f a)

    seen_agent : (id : ℕ) → get_both id tx.agents s.agents ≡ get id t.agents
    unfolding commit
    seen_agent id = sym (get-apply_pending id tx.agents s.agents) ∙ h.agents id

    seen_user : (id : ℕ) → get_both id tx.users s.users ≡ get id t.users
    unfolding commit
    seen_user id = sym (get-apply_pending id tx.users s.users) ∙ h.users id

    check-Agree :
        (b : Bool)
        → Agree
            (map_commit (if b then some tx else none) s)
            (map_commit (if b then some new_rows else none) t)
    unfolding map_commit
    check-Agree true = Same-id s tx t h
    check-Agree false = tt

    score_seen :
        (id : ℕ) (score : F)
        → set_agent_reputation_score id score s tx
          ≡ write_agent id (λ a. record a { reputation_score = score }) (get id t.agents) tx
    unfolding set_agent_reputation_score
    score_seen id score = ground (arith, seen_agent id)

    score_alone :
        (id : ℕ) (score : F)
        → set_agent_reputation_score id score t new_rows
          ≡ write_agent id (λ a. record a { reputation_score = score }) (get id t.agents) new_rows
    unfolding set_agent_reputation_score lookup
    score_alone id score = ground arith

    scope_seen :
        (id : ℕ) (scope : List Str)
        → overwrites (set_permissions id scope) s tx ≡ false
        → update_agent_permissions id scope s tx
          ≡ write_agent id (λ a. record a { permission_scope = scope }) (get id t.agents) tx
    unfolding update_agent_permissions overwrites
    scope_seen id scope ok = ground (arith, seen_agent id)

    scope_alone :
        (id : ℕ) (scope : List Str)
        → update_agent_permissions id scope t new_rows
          ≡ write_agent id (λ a. record a { permission_scope = scope }) (get id t.agents) new_rows
    unfolding update_agent_permissions lookup
    scope_alone id scope = ground arith

    disable_seen : (id : ℕ) → disable_user id s tx ≡ (if has id t.users then some tx else none)
    unfolding disable_user
    disable_seen id = ground (arith, seen_user id)

    disable_alone :
        (id : ℕ) → disable_user id t new_rows ≡ (if has id t.users then some new_rows else none)
    unfolding disable_user lookup
    disable_alone id = ground arith

    revoke_seen : (id : ℕ) → revoke_agent id s tx ≡ (if has id t.agents then some tx else none)
    unfolding revoke_agent
    revoke_seen id = ground (arith, seen_agent id)

    revoke_alone :
        (id : ℕ) → revoke_agent id t new_rows ≡ (if has id t.agents then some new_rows else none)
    unfolding revoke_agent lookup
    revoke_alone id = ground arith

    emit-Agree :
        (e : OutboxRecord P) (b : Bool)
        → Agree
            (map_commit (if b then some (record tx { outbox = tx.outbox ++ e ∷ [] }) else none) s)
            (map_commit
              (if b then some (record (new_rows {F = F} {P = P}) { outbox = e ∷ [] }) else none)
              t)
    unfolding map_commit commit
    emit-Agree e false = tt
    emit-Agree e true =
        let idle = Same-id s tx t h in
        record {
          users = idle.users;
          agents = idle.agents;
          repositories = idle.repositories;
          clone_tokens = idle.clone_tokens;
          outbox =
              sym (append_assoc s.outbox tx.outbox (e ∷ [])) ∙ ap (λ es. es ++ e ∷ []) h.outbox;
        }

    Agree-by :
        {x x' y y' : Option (Rows F P)}
        → x ≡ x'
        → y ≡ y'
        → Agree (map_commit x' s) (map_commit y' t)
        → Agree (map_commit x s) (map_commit y t)
    Agree-by e e' a = rw (e, e') a

    call-Agree :
        (c : Call F P)
        → overwrites c s tx ≡ false
        → Agree (map_commit (call c s tx) s) (map_commit (call c t new_rows) t)
    unfolding call overwrites map_commit commit insert_human_user insert_agent_identity
        insert_clone_token insert_repository write_outbox
    call-Agree (add_user u) ok =
        let idle = Same-id s tx t h in
        record {
          users = put-same u.id u tx.users s.users t.users h.users;
          agents = idle.agents;
          repositories = idle.repositories;
          clone_tokens = idle.clone_tokens;
          outbox = idle.outbox;
        }
    call-Agree (add_agent a) ok = put_agent-Same a.id a
    call-Agree (set_score id score) ok =
        Agree-by (score_seen id score) (score_alone id score)
          (write_agent-Agree id (λ a. record a { reputation_score = score }) (get id t.agents))
    call-Agree (disable id) ok =
        Agree-by (disable_seen id) (disable_alone id) (check-Agree (has id t.users))
    call-Agree (revoke id) ok =
        Agree-by (revoke_seen id) (revoke_alone id) (check-Agree (has id t.agents))
    call-Agree (set_permissions id scope) ok =
        Agree-by (scope_seen id scope ok) (scope_alone id scope)
          (write_agent-Agree id (λ a. record a { permission_scope = scope }) (get id t.agents))
    call-Agree (add_token c) ok =
        let idle = Same-id s tx t h in
        record {
          users = idle.users;
          agents = idle.agents;
          repositories = idle.repositories;
          clone_tokens =
              put-same c.id c tx.clone_tokens s.clone_tokens t.clone_tokens h.clone_tokens;
          outbox = idle.outbox;
        }
    call-Agree (add_repository r) ok =
        let idle = Same-id s tx t h in
        record {
          users = idle.users;
          agents = idle.agents;
          repositories =
              put-same r.id r tx.repositories s.repositories t.repositories h.repositories;
          clone_tokens = idle.clone_tokens;
          outbox = idle.outbox;
        }
    call-Agree (emit e) ok = emit-Agree e (is_valid_domain e.domain)

  continue-Agree :
      (s t : Rows F P) (o o' : Option (Rows F P)) (k k' : Rows F P → Option (Rows F P))
      (Q : Rows F P → Type 0)
      → Agree (map_commit o s) (map_commit o' t)
      → OnSome Q o
      → ((tx u : Rows F P)
          → Q tx
          → Same (commit tx s) (commit u t)
          → Agree (map_commit (k tx) s) (k' (commit u t)))
      → Agree
          (map_commit (elim o [ none ↦ none | some tx ↦ k tx ]) s)
          (elim o' [ none ↦ none | some u ↦ k' (commit u t) ])
  unfolding map_commit
  continue-Agree s t none none k k' Q h q each = tt
  continue-Agree s t none (some u) k k' Q h q each = absurd h
  continue-Agree s t (some tx) none k k' Q h q each = absurd h
  continue-Agree s t (some tx) (some u) k k' Q h q each = each tx u q h

  calls-Agree :
      (cs : List (Call F P)) (s tx t : Rows F P)
      → Careful cs s tx
      → Same (commit tx s) t
      → Agree (map_commit (calls cs s tx) s) (one_by_one cs t)
  unfolding calls one_by_one map_commit
  calls-Agree [] s tx t ok h = h
  calls-Agree (c ∷ cs) s tx t ok h =
      continue-Agree s t (call c s tx) (call c t new_rows) (calls cs s) (one_by_one cs)
        (λ tx'. Careful cs s tx') (call-Agree s tx t h c ok.0) ok.1
        λ tx' u q same. calls-Agree cs s tx' (commit u t) q same

  -- A transaction of several calls does what the calls do in transactions of their own, each seeing
  -- what those before have written: it fails where one of them fails, and otherwise every read by
  -- id finds the same, and the outbox has the same records in the same order. It has the condition
  -- that no call changes the permissions of a committed agent that an earlier call has written.
  pub transact-one_by_one :
      (cs : List (Call F P)) (s : Rows F P)
      → Careful cs s new_rows
      → let (s', done) = transact (calls cs) s in
        Agree (if done then some s' else none) (one_by_one cs s)
  unfolding transact commit apply_pending map_commit
  transact-one_by_one cs s ok =
      by_result (calls cs s new_rows) (calls-Agree cs s new_rows s ok start)
    where
      start : Same (commit new_rows s) s
      start = record {
        users = λ k. refl;
        agents = λ k. refl;
        repositories = λ k. refl;
        clone_tokens = λ k. refl;
        outbox = append-nil s.outbox;
      }

      by_result :
          (o : Option (Rows F P))
          → Agree (map_commit o s) (one_by_one cs s)
          → let (s', done) = elim o as (λ _. Rows F P × Bool) [
            | none ↦ (s, false)
            | some tx ↦ (commit tx s, true)
          ] in
            Agree (if done then some s' else none) (one_by_one cs s)
      by_result none h = h
      by_result (some tx) h = h
