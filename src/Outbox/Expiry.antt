-- ===== src/Outbox/Expiry.antt =====
-- The progress of the expirer (expirer.go).
use mathlib.Core.Path.{subst}
use mathlib.Core.Option.{some-injective}
use gitscale.Common.{
  ℕ, zero, suc, ◌+◌, ◌≤◌, ◌<◌, ◌≡◌, ◌⊎◌, inl, inr, refl, Bool, true, false, Option, none, some,
  List, [], ◌∷◌, length, if_rule, ltb, if◌then◌else◌, arith,
}
use gitscale.Common.Int.{ℤ, pos, negsuc}
use gitscale.Common.Str.{Str}
use gitscale.Outbox.{Table}
use gitscale.Outbox.Expirer.{
  Answer, answer_rule, expire_among, new_expirer, is_valid_domain, or_default, Expirer, Expired,
  delete_ids, expire_batch, expire_loop, affected,
}

length-delete_ids : (ids : List ℕ) (t : Table) → length (delete_ids ids t) ≤ length t
unfolding delete_ids
length-delete_ids ids [] = omega arith
length-delete_ids ids (s ∷ t) = ground (arith, length-delete_ids ids t)

length-expire_batch : (now : ℕ) (e : Expirer) (t : Table) → length (expire_batch now e t) ≤ length t
unfolding expire_batch
length-expire_batch now e t = length-delete_ids _ t

-- The rows that the other sessions insert in the first `k` turns.
unfoldable pub inserted_by : (ℕ → ℕ) → ℕ → ℕ
inserted_by added zero = 0
inserted_by added (suc k) = inserted_by added k + added k

-- The rows that are gone are counted, but for those of a last DELETE that goes unheard, where `n` is
-- how many were counted or there or inserted.
abbrev pub Counts : Expired → ℕ → Type 0
Counts x n = (x.total + length x.table ≡ n) ⊎ ((x.erred ≡ true) × (x.total + length x.table ≤ n))

-- The loop's result, from a turn and a number of rows on.
abbrev Ends : (ℕ → ℕ) → ℕ → ℕ → Option Expired → Type 0
Ends added turn n o =
    (x : Expired) × (k : ℕ) × (o ≡ some x)
    × ((x.total + length x.table + inserted_by added turn ≡ n + inserted_by added k)
        ⊎ ((x.erred ≡ true)
            × (x.total + length x.table + inserted_by added turn ≤ n + inserted_by added k)))

-- The other sessions insert `added turn` rows and mark others, and delete none.
module _ (e : Expirer) (others : ℕ → Table → Table) (answers : ℕ → Answer) (added : ℕ → ℕ)
    (bound : ℕ) (some_size : 1 ≤ e.batch_size)
    (adds : (turn : ℕ) (t : Table) → length (others turn t) ≡ length t + added turn)
    (within : (k : ℕ) → inserted_by added k ≤ bound) where
  expire_loop-Ends :
      (f turn total : ℕ) (t : Table)
      → length t + bound < f + inserted_by added turn
      → Ends added turn (total + length t) (expire_loop f e others answers turn total t)
  unfolding expire_loop inserted_by
  expire_loop-Ends zero turn total t h = let w = within turn in absurd (omega (arith, w, h))
  expire_loop-Ends (suc f) turn total t h =
      let found = others turn t in
      let grows = adds turn t in
      let shrinks = λ (now : ℕ). length-expire_batch now e found in
      answer_rule (Ends added turn (total + length t)) (answers turn)
        (_, suc turn, refl, inl (omega (arith, grows)))
        (λ now.
          let t' = expire_batch now e found in
          if_rule (Ends added turn (total + length t)) (ltb (affected found t') e.batch_size)
            (λ _. (_, suc turn, refl, inl (omega (arith, grows, shrinks now))))
            λ more.
              let (x, k, run_on, counted) =
                expire_loop-Ends f (suc turn) (total + affected found t') t'
                  (ground (arith, more, some_size, shrinks now, grows, h)) in
              (x, k, run_on, ground (arith, counted, shrinks now, grows)))
        (λ now. (_, suc turn, refl, inr (refl, omega (arith, grows, shrinks now))))

or_default-pos : (n : ℤ) (d : ℕ) → 1 ≤ or_default n (suc d)
or_default-pos (pos zero) d = omega arith
or_default-pos (pos (suc n)) d = ground arith
or_default-pos (negsuc n) d = ground arith

some_of : {A : Type 0} (b : Bool) (x y : A) → (if b then some x else none) ≡ some y → x ≡ y
some_of true x y e = some-injective _ _ e
some_of false x y e = cc

batch_size-new_expirer :
    (domain : Str) (ttl batch_size : ℤ) (e : Expirer)
    → new_expirer domain ttl batch_size ≡ some e
    → 1 ≤ e.batch_size
unfolding new_expirer
batch_size-new_expirer domain ttl batch_size e made =
    subst (λ x. 1 ≤ x.batch_size) (some_of (is_valid_domain domain) _ _ made)
      (or_default-pos batch_size 9999)

-- Expire of an expirer that NewExpirer made comes to an end, whatever becomes of its DELETEs, while
-- before each of them other sessions mark rows and insert some, at most `bound` in all, and delete
-- none: a batch is not of size 0, so that a full one shrinks the table. The total that it returns is
-- the number of rows that are gone, of those that were there or were inserted in the first `k` turns;
-- or it returns an error, and then at least so many are gone: a last DELETE that was done unheard is
-- not counted.
pub expire_ends :
    (domain : Str) (ttl batch_size : ℤ) (e : Expirer) (others : ℕ → Table → Table)
    (answers : ℕ → Answer) (added : ℕ → ℕ) (bound : ℕ) (t : Table)
    → new_expirer domain ttl batch_size ≡ some e
    → ((turn : ℕ) (t : Table) → length (others turn t) ≡ length t + added turn)
    → ((k : ℕ) → inserted_by added k ≤ bound)
    → (x : Expired) × (k : ℕ) × (expire_among bound e others answers t ≡ some x)
      × Counts x (length t + inserted_by added k)
unfolding inserted_by
expire_ends domain ttl batch_size e others answers added bound t made adds within =
    let (x, k, ended, counted) =
      expire_loop-Ends e others answers added bound
        (batch_size-new_expirer domain ttl batch_size e made) adds within (suc (length t + bound)) 0
        0 t (omega arith) in
    (x, k, ended, ground (arith, counted))
