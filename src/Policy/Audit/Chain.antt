-- ===== src/Policy/Audit/Chain.antt =====
-- Linked chains of audit rows (audit.go).
use gitscale.Common.{
  ℕ, zero, suc, ◌+◌, ◌<◌, ◌≤◌, ◌≡◌, ◌≢◌, ◌↔◌, refl, some, List, [], ◌∷◌, ◌++◌, arith, length, take,
}
use gitscale.Common.Str.{Str}
use gitscale.Policy.Env.{Env}
use gitscale.Policy.Audit.{
  AuditRow, ChainError, intact, broken, genesis_hash, compute_row_hash, verify_from, verify_chain,
  append_row, last_hash,
}

-- Every row carries the hash before it, and its own hash over that.
abbrev pub IsLinked : Env → Str → List AuditRow → Type 0
IsLinked env prev [] = Unit
IsLinked env prev (r ∷ rs) =
    (r.prev_hash ≡ prev)
    × (compute_row_hash env prev r ≡ some r.row_hash)
    × IsLinked env r.row_hash rs

verify_from_iff :
    (env : Env) (prev : Str) (i : ℕ) (rs : List AuditRow)
    → (verify_from env prev i rs ≡ intact) ↔ IsLinked env prev rs
unfolding verify_from
verify_from_iff env prev i [] = (λ _. tt, λ _. refl)
verify_from_iff env prev i (r ∷ rs) = (
  λ h. ground (arith, verify_from_iff env r.row_hash (suc i) rs),
  λ h. ground (arith, verify_from_iff env r.row_hash (suc i) rs),
)

-- VerifyChain accepts exactly the chains in which every row is linked to the one before.
pub verify_chain_iff :
    (env : Env) (rs : List AuditRow) → (verify_chain env rs ≡ intact) ↔ IsLinked env genesis_hash rs
unfolding verify_chain
verify_chain_iff env rs = verify_from_iff env genesis_hash 0 rs

-- A break is reported at the row where it is, never before the row where the loop stands.
broken-ge :
    (env : Env) (prev : Str) (i k : ℕ) (e : ChainError) (rs : List AuditRow)
    → verify_from env prev i rs ≡ broken k e
    → i ≤ k
unfolding verify_from
broken-ge env prev i k e [] h = absurd (cc)
broken-ge env prev i k e (r ∷ rs) h = ground (arith, broken-ge env r.row_hash (suc i) k e rs)

broken-IsLinked :
    (env : Env) (prev : Str) (i n k : ℕ) (e : ChainError) (rs : List AuditRow)
    → k ≡ i + n
    → verify_from env prev i rs ≡ broken k e
    → IsLinked env prev (take n rs)
unfolding verify_from
broken-IsLinked env prev i zero k e rs q h = tt
broken-IsLinked env prev i (suc n) k e [] q h = tt
broken-IsLinked env prev i (suc n) k e (r ∷ rs) q h =
    ground (arith, broken-IsLinked env r.row_hash (suc i) n k e rs (omega arith))

broken-not_IsLinked :
    (env : Env) (prev : Str) (i n k : ℕ) (e : ChainError) (rs : List AuditRow)
    → k ≡ i + n
    → verify_from env prev i rs ≡ broken k e
    → (n < length rs) × ¬ IsLinked env prev (take (suc n) rs)
unfolding verify_from
broken-not_IsLinked env prev i n k e [] q h = absurd (cc)
broken-not_IsLinked env prev i zero k e (r ∷ rs) q h =
    (omega arith, λ l. ground (arith, broken-ge env r.row_hash (suc i) k e rs))
broken-not_IsLinked env prev i (suc n) k e (r ∷ rs) q h =
    let ih = broken-not_IsLinked env r.row_hash (suc i) n k e rs (omega arith) in
    (ground (arith, ih), λ l. ground (arith, ih))

-- When VerifyChain reports row `k`, there is such a row, the rows before it verify, and the rows up
-- to and with it do not.
pub verify_chain-broken :
    (env : Env) (k : ℕ) (e : ChainError) (rs : List AuditRow)
    → verify_chain env rs ≡ broken k e
    → (k < length rs)
      × (verify_chain env (take k rs) ≡ intact)
      × (verify_chain env (take (suc k) rs) ≢ intact)
unfolding verify_chain
verify_chain-broken env k e rs h =
    let before = broken-IsLinked env genesis_hash 0 k k e rs (omega arith) h in
    let there = broken-not_IsLinked env genesis_hash 0 k k e rs (omega arith) h in
    (
      there.0,
      (verify_from_iff env genesis_hash 0 (take k rs)).1 before,
      λ ok. there.1 ((verify_from_iff env genesis_hash 0 (take (suc k) rs)).0 ok),
    )

IsLinked-append :
    (env : Env) (prev : Str) (rs : List AuditRow) (r : AuditRow)
    → IsLinked env prev rs
    → r.prev_hash ≡ last_hash prev rs
    → compute_row_hash env (last_hash prev rs) r ≡ some r.row_hash
    → IsLinked env prev (rs ++ r ∷ [])
unfolding last_hash
IsLinked-append env prev [] r l p c = (p, c, tt)
IsLinked-append env prev (x ∷ rs) r l p c = (l.0, l.1, IsLinked-append env x.row_hash rs r l.2 p c)

-- A row that AppendRow stamps with the last hash extends a chain that verifies to one that does.
pub verify_chain-append_row :
    (env : Env) (rs : List AuditRow) (r r' : AuditRow)
    → IsLinked env genesis_hash rs
    → append_row env (last_hash genesis_hash rs) r ≡ some r'
    → IsLinked env genesis_hash (rs ++ r' ∷ [])
unfolding append_row compute_row_hash
verify_chain-append_row env rs r r' l h =
    IsLinked-append env genesis_hash rs r' l (ground arith) (ground arith)
