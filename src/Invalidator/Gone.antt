-- ===== src/Invalidator/Gone.antt =====
-- The consumer (consumer.go) over any store that forgets what is removed.
use gitscale.Common.{
  ℕ, ◌≡◌, ◌≢◌, refl, sym, ◌∙◌, Bool, true, false, Option, none, some, List, [], ◌∷◌, arith, All,
  ◌⊎◌, inl, inr, Option-cases, if_rule,
}
use mathlib.Core.Path.{subst}
use gitscale.Common.Map.{lookup}
use gitscale.Common.Str.{Str, Str-discrete, codes, has_prefix}
use gitscale.Cache.{CacheStore, Got, found, not_found, failed, identity_key}
use gitscale.Invalidator.{
  EventEnvelope, RawMessage, Decoders, EventHandler, Count, Fetched, fetched, cancelled,
  fetch_failed, dedupe_key, seen, mark, delete_all, apply_event, dispatch, process_unseen,
  process_once, run, Stop,
}

-- What the consumer relies on of its store, whatever errors it returns: `Absent s k` is that `k` is
-- not there to be read.
pub record Forgets {S : Type 0} (store : CacheStore S) (elapse : ℕ → S → S)
    (Absent : S → Str → Type 0) : Type 0 where
  pub remove_gone : (s : S) (k : Str) → (store.remove s k).1 ≡ true → Absent (store.remove s k).0 k
  pub remove_keeps : (s : S) (k j : Str) → Absent s j → Absent (store.remove s k).0 j
  pub get_keeps : (s : S) (k j : Str) → Absent s j → Absent (store.get s k).0 j
  pub set_keeps :
      (s : S) (k v : Str) (ttl : ℕ) (j : Str)
      → k ≢ j
      → Absent s j
      → Absent (store.set s k v ttl).0 j
  pub elapse_keeps : (d : ℕ) (s : S) (j : Str) → Absent s j → Absent (elapse d s) j
  pub get_finds_none : (s : S) (k b : Str) → Absent s k → (store.get s k).1 ≢ found b

-- A UUID's text is hexadecimal digits and dashes: it does not start with an `i`.
abbrev pub IsUuidText : (ℕ → Str) → Type 0
IsUuidText text = (p : ℕ) → has_prefix (text p) (codes "i") ≡ false

pub keys_apart : (t i : Str) → has_prefix t (codes "i") ≡ false → dedupe_key i ≢ identity_key t
unfolding dedupe_key identity_key has_prefix
keys_apart [] i h e = ground arith
keys_apart (c ∷ t) i h e = ground arith

dedupe_key-injective : (i j : Str) → dedupe_key i ≡ dedupe_key j → i ≡ j
unfolding dedupe_key
dedupe_key-injective i j e = ground arith

module _ {S : Type 0} (store : CacheStore S) (elapse : ℕ → S → S) (Absent : S → Str → Type 0)
    (law : Forgets store elapse Absent) (dec : Decoders) (handlers : List (Str × EventHandler))
    (plain : IsUuidText dec.uuid_text) (truth : Str → List ℕ) where
  -- None of these principals' identities can be read.
  abbrev pub Gone : S → List ℕ → Type 0
  Gone s pids = All (λ p. Absent s (identity_key (dec.uuid_text p))) pids

  -- Whom an envelope affects, by its handler.
  abbrev pub affected_by : EventEnvelope → List ℕ
  affected_by env = elim (lookup Str-discrete env.event_type handlers) [
    | none ↦ []
    | some handler ↦ elim (handler env) [ none ↦ [] | some affected ↦ affected ]
  ]

  abbrev pub targets : RawMessage → List ℕ
  targets m = elim (dec.unmarshal_envelope m.value) [ none ↦ [] | some env ↦ affected_by env ]

  -- The message says of its event what `truth` says.
  abbrev pub Says : Fetched → Type 0
  Says (fetched d m c) =
      (env : EventEnvelope)
      → dec.unmarshal_envelope m.value ≡ some env
      → truth env.event_id ≡ affected_by env
  Says _ = Unit

  -- An event that is marked is done.
  abbrev pub Ledger : S → Type 0
  Ledger s = (i : Str) → Absent s (dedupe_key i) ⊎ Gone s (truth i)

  -- What every step of the consumer keeps.
  record Next (s s' : S) : Type 0 where
    keeps :
        (p : ℕ)
        → Absent s (identity_key (dec.uuid_text p))
        → Absent s' (identity_key (dec.uuid_text p))
    ledger : Ledger s → Ledger s'

  pub Gone-mono :
      {s s' : S} (pids : List ℕ)
      → ((p : ℕ)
          → Absent s (identity_key (dec.uuid_text p))
          → Absent s' (identity_key (dec.uuid_text p)))
      → Gone s pids
      → Gone s' pids
  Gone-mono [] k h = tt
  Gone-mono (p ∷ pids) k h = (k p h.0, Gone-mono pids k h.1)

  Next-keeps : {s s' : S} → ((j : Str) → Absent s j → Absent s' j) → Next s s'
  Next-keeps {s} {s'} k = record {
    keeps = λ p. k (identity_key (dec.uuid_text p));
    ledger = λ h i. elim (h i) [
      | inl a ↦ inl (k (dedupe_key i) a)
      | inr g ↦ inr (Gone-mono (truth i) (λ p. k (identity_key (dec.uuid_text p))) g)
    ];
  }

  Next-trans : {s s' s'' : S} → Next s s' → Next s' s'' → Next s s''
  Next-trans a b = record {
    keeps = λ p x. b.keeps p (a.keeps p x);
    ledger = λ h. b.ledger (a.ledger h);
  }

  delete_all-keeps :
      (pids : List ℕ) (s : S) (j : Str)
      → Absent s j
      → Absent (delete_all store dec handlers s pids).0 j
  unfolding delete_all
  delete_all-keeps [] s j h = h
  delete_all-keeps (p ∷ pids) s j h =
      let h' = law.remove_keeps s (identity_key (dec.uuid_text p)) j h in
      if_rule (λ (r : S × Bool). Absent r.0 j) (store.remove s (identity_key (dec.uuid_text p))).1
        (λ _. delete_all-keeps pids _ j h') (λ _. h')

  pub delete_all-Gone :
      (pids : List ℕ) (s : S)
      → (delete_all store dec handlers s pids).1 ≡ true
      → Gone (delete_all store dec handlers s pids).0 pids
  unfolding delete_all
  delete_all-Gone [] s = λ e. tt
  delete_all-Gone (p ∷ pids) s =
      if_rule (λ (r : S × Bool). r.1 ≡ true → Gone r.0 (p ∷ pids))
        (store.remove s (identity_key (dec.uuid_text p))).1
        (λ deleted e. (
          delete_all-keeps pids _ (identity_key (dec.uuid_text p))
              (law.remove_gone s (identity_key (dec.uuid_text p)) deleted),
          delete_all-Gone pids _ e,
        ))
        (λ _ e. absurd (cc))

  mark-Next : (s : S) (id : Str) → Gone s (truth id) → Next s (mark store dec handlers s id).0
  unfolding mark
  mark-Next s id g = record { keeps = kept; ledger = λ h i. entry i (h i) }
    where
      kept :
          (p : ℕ)
          → Absent s (identity_key (dec.uuid_text p))
          → Absent (mark store dec handlers s id).0 (identity_key (dec.uuid_text p))
      kept p a = law.set_keeps s (dedupe_key id) _ _ _ (keys_apart (dec.uuid_text p) id (plain p)) a

      entry :
          (i : Str)
          → Absent s (dedupe_key i) ⊎ Gone s (truth i)
          → Absent (mark store dec handlers s id).0 (dedupe_key i)
            ⊎ Gone (mark store dec handlers s id).0 (truth i)
      entry i (inr x) = inr (Gone-mono (truth i) kept x)
      entry i (inl x) = elim (Str-discrete id i) [
        | yes e ↦ inr (Gone-mono (truth i) kept (subst (λ j. Gone s (truth j)) e g))
        | no n ↦
            inl (law.set_keeps s (dedupe_key id) _ _ _ (λ e. n (dedupe_key-injective id i e)) x)
      ]

  -- From a step's state and acceptance: what is kept, and that acceptance means the deletions.
  abbrev After : S → List ℕ → S × List Count × Bool → Type 0
  After s pids r = Next s r.0 × (r.2 ≡ true → Ledger s → Gone r.0 pids)

  apply_event-After :
      (s : S) (env : EventEnvelope) (pids : List ℕ)
      → truth env.event_id ≡ pids
      → After s pids (apply_event store dec handlers s env pids)
  unfolding apply_event
  apply_event-After s env pids says =
      if_rule (After s pids) (delete_all store dec handlers s pids).1
        (λ deleted.
          let g = delete_all-Gone pids s deleted in
          let m =
            mark-Next (delete_all store dec handlers s pids).0 env.event_id
              (subst (Gone (delete_all store dec handlers s pids).0) (sym says) g) in
          if_rule (After s pids)
            (mark store dec handlers (delete_all store dec handlers s pids).0 env.event_id).1
            (λ _. (Next-trans d m, λ _ _. Gone-mono pids m.keeps g))
            (λ _. (Next-trans d m, λ e. absurd (cc))))
        (λ _. (d, λ e. absurd (cc)))
    where
      d : Next s (delete_all store dec handlers s pids).0
      d = Next-keeps (delete_all-keeps pids s)

  Next-refl : (s : S) → Next s s
  Next-refl s = record { keeps = λ p a. a; ledger = λ h. h }

  dispatch-After :
      (s : S) (env : EventEnvelope)
      → truth env.event_id ≡ affected_by env
      → After s (affected_by env) (dispatch store dec handlers s env)
  unfolding dispatch
  dispatch-After s env says = elim (Option-cases (lookup Str-discrete env.event_type handlers)) [
    | inl e ↦
        let z : affected_by env ≡ [] = rw (e, affected_by) in
        rw (e, dispatch) (Next-refl s, λ _ _. subst (Gone s) (sym z) tt)
    | inr (handler, e) ↦ elim (Option-cases (handler env)) [
      | inl q ↦
          let z : affected_by env ≡ [] = rw (e, q, affected_by) in
          rw (e, q, dispatch) (Next-refl s, λ _ _. subst (Gone s) (sym z) tt)
      | inr (pids, q) ↦
          let z : affected_by env ≡ pids = rw (e, q, affected_by) in
          rw (e, q, dispatch)
            (subst (λ x. After s x (apply_event store dec handlers s env pids)) (sym z)
              (apply_event-After s env pids (says ∙ z)))
    ]
  ]

  seen-Next : (s : S) (id : Str) → Next s (seen store dec handlers s id).0
  unfolding seen
  seen-Next s id = Next-keeps (λ j. law.get_keeps s (dedupe_key id) j)

  -- An event that Seen finds is done.
  seen-Gone :
      (s : S) (id : Str)
      → (seen store dec handlers s id).1 ≡ some true
      → Ledger s
      → Gone s (truth id)
  unfolding seen
  seen-Gone s id was h = elim (h id) [
    | inr g ↦ g
    | inl a ↦ absurd (
        not_found_then (store.get s (dedupe_key id)).1
          (λ b. law.get_finds_none s (dedupe_key id) b a) was)
  ]
    where
      not_found_then :
          (g : Got)
          → ((b : Str) → g ≢ found b)
          → elim g [ found _ ↦ some true | not_found ↦ some false | failed ↦ none ] ≡ some true
          → ⊥
      not_found_then (found b) n e = n b refl
      not_found_then not_found n e = cc
      not_found_then failed n e = cc

  process_unseen-After :
      (s s' : S) (env : EventEnvelope) (was : Option Bool)
      → truth env.event_id ≡ affected_by env
      → Next s s'
      → (was ≡ some true → Ledger s → Gone s (truth env.event_id))
      → After s (affected_by env) (process_unseen store dec handlers s' env was)
  unfolding process_unseen
  process_unseen-After s s' env none says n g = (n, λ e. absurd (cc))
  process_unseen-After s s' env (some true) says n g =
      (n, λ _ l. Gone-mono (affected_by env) n.keeps (subst (Gone s) says (g refl l)))
  process_unseen-After s s' env (some false) says n g =
      let (n', g') = dispatch-After s' env says in (Next-trans n n', λ a l. g' a (n.ledger l))

  process_once-After :
      (s : S) (m : RawMessage)
      → ((env : EventEnvelope)
          → dec.unmarshal_envelope m.value ≡ some env
          → truth env.event_id ≡ affected_by env)
      → After s (targets m) (process_once store dec handlers s m)
  unfolding process_once
  process_once-After s m says = elim (Option-cases (dec.unmarshal_envelope m.value)) [
    | inl e ↦
        let z : targets m ≡ [] = rw (e, targets) in
        rw (e, process_once) (Next-refl s, λ _ _. subst (Gone s) (sym z) tt)
    | inr (env, e) ↦
        let z : targets m ≡ affected_by env = rw (e, targets) in
        let (s', was) = seen store dec handlers s env.event_id in
        rw (e, process_once)
          (subst (λ x. After s x (process_unseen store dec handlers s' env was)) (sym z)
            (process_unseen-After s s' env was (says env e) (seen-Next s env.event_id)
              (seen-Gone s env.event_id)))
  ]

  run-After :
      (fs : List Fetched) (s : S)
      → All Says fs
      → let (s', accepted, stop) = run store dec handlers elapse s fs in
        Next s s' × (Ledger s → All (λ m. Gone s' (targets m)) accepted)
  unfolding run
  run-After [] s says = (Next-refl s, λ _. tt)
  run-After (cancelled ∷ fs) s says = (Next-refl s, λ _. tt)
  run-After (fetch_failed ∷ fs) s says = (Next-refl s, λ _. tt)
  run-After (fetched d m committed ∷ fs) s says =
      let rest = run-After fs (process_once store dec handlers (elapse d s) m).0 says.1 in
      if_rule P (process_once store dec handlers (elapse d s) m).2
        (λ a.
          if_rule P committed
            (λ _. (
              Next-trans done rest.0,
              λ l. (
                Gone-mono (targets m) rest.0.keeps (here.1 a (waited.ledger l)),
                rest.1 (done.ledger l),
              ),
            ))
            (λ _. (done, λ l. (here.1 a (waited.ledger l), tt))))
        (λ _. (Next-trans done rest.0, λ l. rest.1 (done.ledger l)))
    where
      P : S × List RawMessage × Stop → Type 0
      P r = Next s r.0 × (Ledger s → All (λ m. Gone r.0 (targets m)) r.1)

      here : After (elapse d s) (targets m) (process_once store dec handlers (elapse d s) m)
      here = process_once-After (elapse d s) m says.0

      waited : Next s (elapse d s)
      waited = Next-keeps (λ j. law.elapse_keeps d s j)

      done : Next s (process_once store dec handlers (elapse d s) m).0
      done = Next-trans waited here.0

  -- Run on a store without marks that forgets what is removed, as Forgets states it: whatever errors
  -- the store returns and however Run ends, every message that was accepted, and so may be committed,
  -- has all its affected identities out of the cache at the end, provided that messages with the same
  -- event id affect the same principals, that a UUID's text does not start with an i, and that nobody
  -- else writes.
  pub run-Gone :
      (fs : List Fetched) (s : S)
      → All Says fs
      → ((i : Str) → Absent s (dedupe_key i))
      → let (s', accepted, stop) = run store dec handlers elapse s fs in
        All (λ m. Gone s' (targets m)) accepted
  run-Gone fs s says unmarked = (run-After fs s says).1 (λ i. inl (unmarked i))
