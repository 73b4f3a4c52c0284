-- ===== src/Outbox/Rows.antt =====
-- Rows and their ids under the statements of drain.go and expirer.go.
use mathlib.Core.Path.{subst}
use gitscale.Common.{
  Contains, here, there, ℕ, zero, suc, ◌≤◌, ◌≡◌, refl, ap, ◌∙◌, Bool, true, false, List, [], ◌∷◌,
  ◌++◌, map, take, All, ◌⊎◌, inl, inr, Bool-cases, ==_iff, if_rule, if◌then◌else◌, ◌==◌, arith,
}
use gitscale.Outbox.{OutboxRow, Stored, Table, sort_by, insert_by, where_rows, any_id}
use gitscale.Outbox.Drain.{mark_processed}
use gitscale.Outbox.Expirer.{delete_ids}

-- The ids ascend, from `lo` on and below `hi`.
abbrev pub Ascending : ℕ → Table → ℕ → Type 0
Ascending lo [] hi = lo ≤ hi
Ascending lo (s ∷ t) hi = (lo ≤ s.row.id) × Ascending (suc s.row.id) t hi

pub Ascending-append :
    (lo : ℕ) (t : Table) (s : Stored)
    → Ascending lo t s.row.id
    → Ascending lo (t ++ s ∷ []) (suc s.row.id)
Ascending-append lo [] s h = (h, omega arith)
Ascending-append lo (u ∷ t) s h = (h.0, Ascending-append (suc u.row.id) t s h.1)

Ascending-weaken :
    (lo lo' : ℕ) (t : Table) (hi : ℕ) → lo' ≤ lo → Ascending lo t hi → Ascending lo' t hi
Ascending-weaken lo lo' [] hi le h = omega (arith, h, le)
Ascending-weaken lo lo' (s ∷ t) hi le h = (omega (arith, h.0, le), h.1)

Ascending-le :
    {s : Stored} {t : Table} → Contains s t → (lo hi : ℕ) → Ascending lo t hi → lo ≤ s.row.id
Ascending-le here lo hi h = h.0
Ascending-le (there {y = u} c) lo hi h = omega (arith, h.0, Ascending-le c (suc u.row.id) hi h.1)

-- Two rows of a table with one id are one.
pub Ascending-unique :
    {a b : Stored} {t : Table}
    → Contains a t
    → Contains b t
    → (lo hi : ℕ) → Ascending lo t hi
    → a.row.id ≡ b.row.id
    → a ≡ b
Ascending-unique here here lo hi h e = refl
Ascending-unique {a} here (there c) lo hi h e =
    absurd (omega (arith, Ascending-le c (suc a.row.id) hi h.1))
Ascending-unique {b = b} (there c) here lo hi h e =
    absurd (omega (arith, Ascending-le c (suc b.row.id) hi h.1))
Ascending-unique (there {y = u} c) (there d) lo hi h e =
    Ascending-unique c d (suc u.row.id) hi h.1 e

pub Ascending-mark_processed :
    (now : ℕ) (ids : List ℕ) (lo : ℕ) (t : Table) (hi : ℕ)
    → Ascending lo t hi
    → Ascending lo (mark_processed now ids t) hi
unfolding mark_processed
Ascending-mark_processed now ids lo [] hi h = h
Ascending-mark_processed now ids lo (s ∷ t) hi h =
    let rest = Ascending-mark_processed now ids (suc s.row.id) t hi h.1 in
    if_rule
      (λ (u : Stored). (lo ≤ u.row.id) × Ascending (suc u.row.id) (mark_processed now ids t) hi)
      (any_id ids s.row.id) (λ _. (h.0, rest)) (λ _. (h.0, rest))

pub Ascending-delete_ids :
    (ids : List ℕ) (lo : ℕ) (t : Table) (hi : ℕ)
    → Ascending lo t hi
    → Ascending lo (delete_ids ids t) hi
unfolding delete_ids
Ascending-delete_ids ids lo [] hi h = h
Ascending-delete_ids ids lo (s ∷ t) hi h =
    if_rule (λ (x : Table). Ascending lo x hi) (any_id ids s.row.id)
      (λ _.
        Ascending-weaken (suc s.row.id) lo _ hi (omega (arith, h.0))
          (Ascending-delete_ids ids (suc s.row.id) t hi h.1))
      (λ _. (h.0, Ascending-delete_ids ids (suc s.row.id) t hi h.1))

pub Contains-mark_processed :
    (now : ℕ) (ids : List ℕ) {s : Stored} {t : Table}
    → Contains s t
    → any_id ids s.row.id ≡ false
    → Contains s (mark_processed now ids t)
unfolding mark_processed
Contains-mark_processed now ids {s} here e = rw (e) here
Contains-mark_processed now ids (there c) e = there (Contains-mark_processed now ids c e)

pub Contains-delete_ids :
    (ids : List ℕ) {s : Stored} {t : Table}
    → Contains s t
    → any_id ids s.row.id ≡ false
    → Contains s (delete_ids ids t)
unfolding delete_ids
Contains-delete_ids ids {s} here e = rw (e) here
Contains-delete_ids ids {s} (there {y = u} c) e =
    if_rule (λ (x : Table). Contains s x) (any_id ids u.row.id) (λ _. Contains-delete_ids ids c e)
      (λ _. there (Contains-delete_ids ids c e))

Contains-cons : {s : Stored} (u : Stored) (t : Table) → Contains s (u ∷ t) → (s ≡ u) ⊎ Contains s t
Contains-cons u t here = inl refl
Contains-cons u t (there c) = inr c

Contains-head : {s u : Stored} {t : Table} → s ≡ u → Contains s (u ∷ t)
Contains-head {s} {u} {t} same = subst (λ v. Contains s (v ∷ t)) same here

Contains-if :
    (b : Bool) {s u : Stored} (t : Table)
    → Contains s (if b then u ∷ t else t)
    → ((s ≡ u) × (b ≡ true)) ⊎ Contains s t
Contains-if true t here = inl (refl, refl)
Contains-if true t (there c) = inr c
Contains-if false t c = inr c

pub Contains-where_rows :
    (p : Stored → Bool) {s : Stored} (t : Table)
    → Contains s (where_rows p t)
    → Contains s t × (p s ≡ true)
unfolding where_rows
Contains-where_rows p [] c = elim c [ ]
Contains-where_rows p {s} (u ∷ t) c = elim (Contains-if (p u) (where_rows p t) c) [
  | inl (same, holds) ↦ (Contains-head same, ap p same ∙ holds)
  | inr d ↦ let (in_t, holds) = Contains-where_rows p t d in (there in_t, holds)
]

Contains-under :
    {s u : Stored} (v : Stored) {t : Table} → Contains s (u ∷ t) → Contains s (u ∷ v ∷ t)
Contains-under v here = here
Contains-under v (there c) = there (there c)

Contains-insert_by :
    (before : Stored → Stored → Bool) {s : Stored} (u : Stored) (t : Table)
    → Contains s (insert_by before u t)
    → Contains s (u ∷ t)
unfolding insert_by
Contains-insert_by before u [] c = c
Contains-insert_by before {s} u (v ∷ t) c =
    swapped (before v u) (λ d. Contains-insert_by before u t d) c
  where
    swapped :
        (b : Bool)
        → (Contains s (insert_by before u t) → Contains s (u ∷ t))
        → Contains s (if b then v ∷ insert_by before u t else u ∷ v ∷ t)
        → Contains s (u ∷ v ∷ t)
    swapped true ih d = elim (Contains-cons v _ d) [
      | inl same ↦ there (Contains-head same)
      | inr e ↦ Contains-under v (ih e)
    ]
    swapped false ih d = d

pub Contains-sort_by :
    (before : Stored → Stored → Bool) {s : Stored} (t : Table)
    → Contains s (sort_by before t)
    → Contains s t
unfolding sort_by
Contains-sort_by before [] c = c
Contains-sort_by before {s} (u ∷ t) c =
    elim (Contains-cons u _ (Contains-insert_by before u (sort_by before t) c)) [
      | inl same ↦ Contains-head same
      | inr d ↦ there (Contains-sort_by before t d)
    ]

pub Contains-take : {s : Stored} (n : ℕ) (t : Table) → Contains s (take n t) → Contains s t
Contains-take zero t c = elim c [ ]
Contains-take (suc n) [] c = elim c [ ]
Contains-take (suc n) (u ∷ t) here = here
Contains-take (suc n) (u ∷ t) (there c) = there (Contains-take n t c)

-- An id that is found is that of a row.
pub any_id-Contains :
    (t : Table) (i : ℕ)
    → any_id (map (λ r. r.id) (map (λ s. s.row) t)) i ≡ true
    → (s : Stored) × Contains s t × (s.row.id ≡ i)
unfolding any_id
any_id-Contains [] i e = cc
any_id-Contains (s ∷ t) i e = elim (Bool-cases (s.row.id == i)) [
  | inl same ↦ (s, here, (==_iff s.row.id i).0 same)
  | inr other ↦ let (u, c, same) = any_id-Contains t i (rw (other) at e) in (u, there c, same)
]

pub All-Contains :
    (P : OutboxRow → Type 0) {s : Stored} {t : Table}
    → Contains s t
    → All P (map (λ s. s.row) t)
    → P s.row
All-Contains P here a = a.0
All-Contains P (there c) a = All-Contains P c a.1

pub map-map_id : (t : Table) → map (λ r. r.id) (map (λ s. s.row) t) ≡ map (λ s. s.row.id) t
map-map_id [] = refl
map-map_id (s ∷ t) = rw (map-map_id t)
