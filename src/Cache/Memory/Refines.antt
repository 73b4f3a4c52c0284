-- ===== src/Cache/Memory/Refines.antt =====
-- MemoryStore against the table of Cache/Memory/Spec, operation by operation and over sequences.
use gitscale.Common.{
  ℕ, ◌+◌, ◌≡◌, refl, sym, ap, ◌∙◌, ite, Option, none, some, List, [], ◌∷◌, map, arith, Bool-cases,
  Option-cases, inl, inr,
}
use gitscale.Common.Map.{lookup}
use gitscale.Common.Str.{Str, Str-discrete, Str_eq}
use gitscale.Cache.Memory.{
  MemEntry, MemoryStore, advance, unexpired, fresh, evict, store_entry, memory_get, memory_slots,
  memory_mget, memory_set, memory_delete, value_or_nil, memory_compare_and_swap, new_memory_store,
}
use gitscale.Cache.Memory.Spec.{
  Op, reads, reads_many, writes, removes, swaps, waits, Answer, exec, answers, Table, readable,
  slot_of, got_of, overwrite, stamped, table_exec, table_answers, Agrees, fresh-evict,
  fresh-store_entry, fresh-evict-none, unexpired-unexpired,
}

unexpired-overwrite :
    (t : Table) (k j : Str) (e : Option MemEntry)
    → readable (overwrite t k e) j ≡ ite (Str-discrete k j) (unexpired t.time e) (readable t j)
unexpired-overwrite t k j e =
    elim (Str-discrete k j)
      as (λ d. unexpired t.time (ite d e (t.at j)) ≡ ite d (unexpired t.time e) (readable t j)) [
        | yes _ ↦ refl
        | no _ ↦ refl
      ]

unexpired-stamped :
    (t : Table) (v : Str) (ttl : ℕ) → unexpired t.time (stamped t v ttl) ≡ stamped t v ttl
unfolding unexpired
unexpired-stamped t v ttl = ground arith

Agrees-evict :
    {s : MemoryStore} {t : Table} (k : Str) → Agrees s t → fresh s k ≡ none → Agrees (evict k s) t
Agrees-evict {s} {t} k h e = record {
  same_time = h.same_time;
  same_entries = λ j. fresh-evict-none s k e j ∙ h.same_entries j;
}

Agrees-delete :
    {s : MemoryStore} {t : Table} (k : Str) → Agrees s t → Agrees (evict k s) (overwrite t k none)
unfolding unexpired
Agrees-delete {s} {t} k h = record {
  same_time = h.same_time;
  same_entries = λ j.
      fresh-evict s k j
      ∙ ap (ite (Str-discrete k j) none) (h.same_entries j)
      ∙ sym (unexpired-overwrite t k j none);
}

Agrees-store_entry :
    {s : MemoryStore} {t : Table} (k v : Str) (ttl : ℕ)
    → Agrees s t
    → Agrees (store_entry s k v ttl) (overwrite t k (stamped t v ttl))
Agrees-store_entry {s} {t} k v ttl h = record {
  same_time = h.same_time;
  same_entries = λ j.
      fresh-store_entry s k v ttl j
      ∙ ap
          (λ n.
            ite (Str-discrete k j) (some (record { value = v; expires_at = n + ttl })) (fresh s j))
          h.same_time
      ∙ ap (ite (Str-discrete k j) (stamped t v ttl)) (h.same_entries j)
      ∙ sym (ap (λ e. ite (Str-discrete k j) e (readable t j)) (unexpired-stamped t v ttl))
      ∙ sym (unexpired-overwrite t k j (stamped t v ttl));
}

Agrees-advance :
    {s : MemoryStore} {t : Table} (d : ℕ)
    → Agrees s t
    → Agrees (advance d s) (record t { time = t.time + d })
unfolding advance
Agrees-advance {s} {t} d h = record {
  same_time = ap (λ n. n + d) h.same_time;
  same_entries = λ j.
      unexpired-unexpired s.now d (lookup Str-discrete j s.entries)
      ∙ ap (unexpired (s.now + d)) (h.same_entries j)
      ∙ ap (λ n. unexpired (n + d) (readable t j)) h.same_time
      ∙ sym (unexpired-unexpired t.time d (t.at j));
}

-- A read evicts what has expired and answers as the table does.
pub memory_get-Agrees :
    {s : MemoryStore} {t : Table} (k : Str)
    → Agrees s t
    → Agrees (memory_get s k).0 t × ((memory_get s k).1 ≡ got_of (readable t k))
unfolding memory_get
memory_get-Agrees {s} {t} k h = elim (Option-cases (fresh s k)) [
  | inl e ↦ rw (e, memory_get) (Agrees-evict k h e, ap got_of (sym e ∙ h.same_entries k))
  | inr (x, e) ↦ rw (e, memory_get) (h, ap got_of (sym e ∙ h.same_entries k))
]

pub memory_slots-Agrees :
    (ks : List Str) (s : MemoryStore) (t : Table)
    → Agrees s t
    → Agrees (memory_slots s ks).0 t
      × ((memory_slots s ks).1 ≡ map (λ k. slot_of (readable t k)) ks)
unfolding memory_slots
memory_slots-Agrees [] s t h = (h, refl)
memory_slots-Agrees (k ∷ ks) s t h = elim (Option-cases (fresh s k)) [
  | inl e ↦
      let (a, q) = memory_slots-Agrees ks (evict k s) t (Agrees-evict k h e) in
      rw (e, memory_slots) (a, cons (ap slot_of (sym e ∙ h.same_entries k)) q)
  | inr (x, e) ↦
      let (a, q) = memory_slots-Agrees ks s t h in
      rw (e, memory_slots) (a, cons (ap slot_of (sym e ∙ h.same_entries k)) q)
]
  where
    cons : {a b : Option Str} {xs ys : List (Option Str)} → a ≡ b → xs ≡ ys → a ∷ xs ≡ b ∷ ys
    cons {a} {b} {xs} {ys} p q = cc

compare_and_swap-Agrees :
    (s : MemoryStore) (t : Table) (k e r : Str) (ttl : ℕ)
    → Agrees s t
    → Agrees (exec s (swaps k e r ttl)).0 (table_exec t (swaps k e r ttl)).0
      × ((exec s (swaps k e r ttl)).1 ≡ (table_exec t (swaps k e r ttl)).1)
unfolding exec table_exec memory_compare_and_swap
compare_and_swap-Agrees s t k e r ttl h =
    rw (h.same_entries k, exec)
      (elim (Bool-cases (Str_eq (value_or_nil (readable t k)) e)) [
        | inl q ↦ rw q (Agrees-store_entry k r ttl h, refl)
        | inr q ↦ rw q (h, refl)
      ])

exec-Agrees :
    (s : MemoryStore) (t : Table) (o : Op)
    → Agrees s t
    → Agrees (exec s o).0 (table_exec t o).0 × ((exec s o).1 ≡ (table_exec t o).1)
unfolding exec table_exec memory_mget memory_set memory_delete
exec-Agrees s t (reads k) h = let (a, q) = memory_get-Agrees k h in (a, ap Answer.got q)
exec-Agrees s t (reads_many ks) h =
    let (a, q) = memory_slots-Agrees ks s t h in (a, ap (λ x. Answer.slots (some x)) q)
exec-Agrees s t (writes k v ttl) h = (Agrees-store_entry k v ttl h, refl)
exec-Agrees s t (removes k) h = (Agrees-delete k h, refl)
exec-Agrees s t (swaps k e r ttl) h = compare_and_swap-Agrees s t k e r ttl h
exec-Agrees s t (waits d) h = (Agrees-advance d h, refl)

answers-Agrees :
    (s : MemoryStore) (t : Table) (os : List Op) → Agrees s t → answers s os ≡ table_answers t os
unfolding answers table_answers
answers-Agrees s t [] h = refl
answers-Agrees s t (o ∷ os) h =
    let (a, q) = exec-Agrees s t o h in
    let rest = answers-Agrees (exec s o).0 (table_exec t o).0 os a in cc

-- MemoryStore answers every sequence of operations as the table does, which never evicts: an entry is
-- read until its deadline, unless it is overwritten or removed, and by no operation afterwards.
pub new_memory_store-answers :
    (now : ℕ) (os : List Op)
    → answers (new_memory_store now) os ≡ table_answers (record { at = λ k. none; time = now }) os
unfolding new_memory_store lookup
new_memory_store-answers now os =
    answers-Agrees (new_memory_store now) (record { at = λ k. none; time = now }) os
      (record { same_time = refl; same_entries = λ k. refl })
