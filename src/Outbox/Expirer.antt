-- ===== src/Outbox/Expirer.antt =====
-- The expirer of processed rows (expirer.go). What becomes of each of its DELETEs, which commit by
-- themselves, is an argument. What other sessions do to
-- the table before each of them is `others`.
use gitscale.Common.{
  ℕ, zero, suc, ◌+◌, ◌-◌, ◌*◌, Bool, true, false, Option, none, some, List, [], ◌∷◌, map, take,
  length, ltb, if◌then◌else◌,
}
use gitscale.Common.Int.{ℤ, pos, pos_part, leb_ℤ}
use gitscale.Common.Str.{Str, Str_eq, codes}
use gitscale.Cache.{seconds}
use gitscale.Outbox.{Stored, Table, sort_by, where_rows, any_id}

-- store.Domain.Valid
unfoldable pub is_valid_domain : Str → Bool
is_valid_domain d = any (
    map (λ name. Str_eq d name)
      (codes "identity"
        ∷ codes "repositories"
        ∷ codes "collaboration"
        ∷ codes "ci"
        ∷ codes "billing"
        ∷ codes "git"
        ∷ []))
  where
    any : List Bool → Bool
    any [] = false
    any (b ∷ bs) = if b then true else any bs

pub record Expirer : Type 0 where
  pub domain : Str
  pub ttl : ℕ
  pub batch_size : ℕ

abbrev pub or_default : ℤ → ℕ → ℕ
or_default n d = if leb_ℤ n (pos 0) then d else pos_part n

-- `none` is a panic.
unfoldable pub new_expirer : Str → (ttl batch_size : ℤ) → Option Expirer
new_expirer d ttl batch_size =
    if is_valid_domain d
    then some (record {
      domain = d;
      ttl = or_default ttl (seconds (24 * 3600));
      batch_size = or_default batch_size 10000;
    })
    else none

-- `processed_at < now() - ttl`, on the line above 0
unfoldable pub is_expired : (now ttl : ℕ) → Stored → Bool
is_expired now ttl s = elim s.processed_at [ none ↦ false | some t ↦ ltb (t + ttl) now ]

abbrev pub id_before : Stored → Stored → Bool
id_before a b = ltb a.row.id b.row.id

unfoldable pub delete_ids : List ℕ → Table → Table
delete_ids ids [] = []
delete_ids ids (s ∷ t) =
    let rest = delete_ids ids t in if any_id ids s.row.id then rest else s ∷ rest

-- The table after the DELETE. The rows affected are those that are gone.
unfoldable pub expire_batch : ℕ → Expirer → Table → Table
expire_batch now e t =
    delete_ids
      (map (λ s. s.row.id)
        (take e.batch_size (sort_by id_before (where_rows (is_expired now e.ttl) t))))
      t

abbrev pub affected : Table → Table → ℕ
affected t t' = length t - length t'

pub record Expired : Type 0 where
  pub total : ℕ
  pub table : Table
  pub erred : Bool

-- What becomes of a DELETE: it is done, by the database's clock, and its count is heard; it is not
-- done; or it is done and the answer is an error, as when the connection breaks after the commit.
pub data Answer : Type 0 where
  deleted : ℕ → Answer
  delete_failed : Answer
  delete_unheard : ℕ → Answer

pub answer_rule {ℓ κ} :
    {B : Type ℓ} (P : B → Type κ) (a : Answer) {x : B} {f g : ℕ → B}
    → P x
    → ((now : ℕ) → P (f now))
    → ((now : ℕ) → P (g now))
    → P (elim a [ deleted now ↦ f now | delete_failed ↦ x | delete_unheard now ↦ g now ])
answer_rule P (deleted now) p q r = q now
answer_rule P delete_failed p q r = p
answer_rule P (delete_unheard now) p q r = r now

-- The loop of Expire, each turn on a unit of fuel; `none` is running out of it.
unfoldable pub expire_loop :
    ℕ
    → Expirer
    → (others : ℕ → Table → Table) → (ℕ → Answer)
    → (turn total : ℕ) → Table
    → Option Expired
expire_loop zero e others answers turn total t = none
expire_loop (suc f) e others answers turn total t =
    let found = others turn t in
    elim (answers turn) [
      | deleted now ↦
          (let t' = expire_batch now e found in
            let more = expire_loop f e others answers (suc turn) (total + affected found t') t' in
            if ltb (affected found t') e.batch_size
            then some (record { total = total + affected found t'; table = t'; erred = false })
            else more)
      | delete_failed ↦ some (record { total = total; table = found; erred = true })
      | delete_unheard now ↦
          some (record { total = total; table = expire_batch now e found; erred = true })
    ]

-- Expire, while the other sessions insert at most `inserted` rows.
abbrev pub expire_among : ℕ → Expirer → (ℕ → Table → Table) → (ℕ → Answer) → Table → Option Expired
expire_among inserted e others answers t =
    expire_loop (suc (length t + inserted)) e others answers 0 0 t

-- Expire, with nobody else at work.
abbrev pub expire : Expirer → (ℕ → Answer) → Table → Option Expired
expire e answers t = expire_among 0 e (λ turn t. t) answers t
