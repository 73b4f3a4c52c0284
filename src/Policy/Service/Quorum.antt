-- ===== src/Policy/Service/Quorum.antt =====
-- Who may vote at a rung, and what a well-formed plan's votes are.
use gitscale.Common.{
  ℕ, ◌<◌, ◌≡◌, ◌≢◌, refl, sym, ite, Bool, true, Option, none, some, List, [], ◌∷◌, arith, length,
  All, ℕ_discrete, ◌⊎◌,
}
use mathlib.Core.Path.{subst}
use mathlib.Core.Option.{some-injective}
use gitscale.Common.Int.{ℤ, pos, negsuc, get_at, ◌≤ℤ◌, ℤ-discrete}
use gitscale.Common.Map.{lookup, insert, lookup-insert}
use gitscale.Common.Str.{Str-discrete}
use gitscale.Policy.Types.{Policy, pending, approved, EscalationRung, ApproverGroup}
use gitscale.Policy.Validate.Laws.{LadderOk}
use gitscale.Policy.Service.{MemPlan, Votes, contains}
use gitscale.Policy.Service.Decide.{votes_at, add_vote}

-- The group whose members decide at rung `z`.
abbrev pub group_at : Policy → List EscalationRung → ℤ → Option ApproverGroup
group_at p ladder z = elim (get_at ladder z) [
  | none ↦ none
  | some rung ↦ lookup Str-discrete rung.group_name p.approver_groups
]

abbrev pub IsApprover : Option ApproverGroup → ℕ → Type 0
IsApprover none id = ⊥
IsApprover (some g) id = contains g.human_user_ids id ≡ true

abbrev pub MeetsQuorum : Option ApproverGroup → ℕ → Type 0
MeetsQuorum none n = ⊥
MeetsQuorum (some g) n = g.required_count ≤ℤ pos n

-- The voters are distinct.
abbrev pub Distinct : List (ℕ × Bool) → Type 0
Distinct [] = Unit
Distinct ((id, _) ∷ m) = (lookup ℕ_discrete id m ≡ none) × Distinct m

abbrev pub InRange : ℤ → ℕ → Type 0
InRange (pos n) len = n < len
InRange (negsuc n) len = ⊥

-- A pending plan stands on a rung of a ladder that validation passed; at each rung the approvals are
-- those of distinct members of the rung's group; an approved plan has its quorum at the rung where
-- it stands, and neither it nor a pending one has a rejection.
pub record PlanOk (mp : MemPlan) : Type 0 where
  pub ladder_ok : mp.status ≡ pending → LadderOk mp.policy mp.ladder
  pub in_range : mp.status ≡ pending → InRange mp.current_rung (length mp.ladder)
  pub distinct : (z : ℤ) → Distinct (votes_at z mp.approvals)
  pub members :
      (z : ℤ) → All (λ v. IsApprover (group_at mp.policy mp.ladder z) v.0) (votes_at z mp.approvals)
  pub quorum :
      mp.status ≡ approved
      → MeetsQuorum
          (group_at mp.policy mp.ladder mp.current_rung)
          (length (votes_at mp.current_rung mp.approvals))
  pub clean :
      (mp.status ≡ pending) ⊎ (mp.status ≡ approved) → (z : ℤ) → votes_at z mp.rejections ≡ []

lookup-insert-none :
    (a : ℕ) (b : Bool) (j : ℕ) (m : List (ℕ × Bool))
    → a ≢ j
    → lookup ℕ_discrete j m ≡ none
    → lookup ℕ_discrete j (insert ℕ_discrete a b m) ≡ none
lookup-insert-none a b j m h e = ground (arith, lookup-insert ℕ_discrete a j b m)

Distinct-insert :
    (a : ℕ) (b : Bool) (m : List (ℕ × Bool)) → Distinct m → Distinct (insert ℕ_discrete a b m)
unfolding insert
Distinct-insert a b [] d = (unfold lookup in refl, tt)
Distinct-insert a b ((j, w) ∷ m) d =
    elim (ℕ_discrete j a)
      as (λ x. Distinct (ite x ((a, b) ∷ m) ((j, w) ∷ insert ℕ_discrete a b m))) [
        | yes e ↦ (rw (← e) d.0, d.1)
        | no n ↦ (lookup-insert-none a b j m (λ e. n (sym e)) d.0, Distinct-insert a b m d.1)
      ]

All-insert :
    (P : ℕ → Type 0) (a : ℕ) (b : Bool) (m : List (ℕ × Bool))
    → P a
    → All (λ v. P v.0) m
    → All (λ v. P v.0) (insert ℕ_discrete a b m)
unfolding insert
All-insert P a b [] p h = (p, tt)
All-insert P a b ((j, w) ∷ m) p h =
    elim (ℕ_discrete j a)
      as (λ x.
        All (λ (v : ℕ × Bool). P v.0) (ite x ((a, b) ∷ m) ((j, w) ∷ insert ℕ_discrete a b m))) [
          | yes e ↦ (p, h.1)
          | no n ↦ (h.0, All-insert P a b m p h.1)
        ]

pub votes_at-add_vote :
    (r z : ℤ) (a : ℕ) (v : Votes)
    → votes_at z (add_vote r a v)
      ≡ ite (ℤ-discrete r z) (insert ℕ_discrete a true (votes_at r v)) (votes_at z v)
unfolding add_vote votes_at
votes_at-add_vote r z a v =
    ground (arith, lookup-insert ℤ-discrete r z (insert ℕ_discrete a true (votes_at r v)) v)

-- A predicate of the votes at each rung survives one more vote if it holds of the rung that gets it.
pub add_vote-keeps :
    (P : ℤ → List (ℕ × Bool) → Type 0) (r : ℤ) (a : ℕ) (v : Votes)
    → ((z : ℤ) → P z (votes_at z v))
    → P r (insert ℕ_discrete a true (votes_at r v))
    → (z : ℤ) → P z (votes_at z (add_vote r a v))
add_vote-keeps P r a v old new z =
    rw (votes_at-add_vote r z a v)
      (elim (ℤ-discrete r z)
        as (λ x. P z (ite x (insert ℕ_discrete a true (votes_at r v)) (votes_at z v))) [
          | yes e ↦ rw (← e) new
          | no _ ↦ old z
        ])

pub add_vote-Distinct :
    (r : ℤ) (a : ℕ) (v : Votes)
    → ((z : ℤ) → Distinct (votes_at z v))
    → (z : ℤ) → Distinct (votes_at z (add_vote r a v))
add_vote-Distinct r a v h =
    add_vote-keeps (λ _ m. Distinct m) r a v h (Distinct-insert a true (votes_at r v) (h r))

pub add_vote-members :
    (p : Policy) (ladder : List EscalationRung) (r : ℤ) (a : ℕ) (v : Votes)
    → IsApprover (group_at p ladder r) a
    → ((z : ℤ) → All (λ w. IsApprover (group_at p ladder z) w.0) (votes_at z v))
    → (z : ℤ) → All (λ w. IsApprover (group_at p ladder z) w.0) (votes_at z (add_vote r a v))
add_vote-members p ladder r a v m h =
    add_vote-keeps (λ z. All (λ w. IsApprover (group_at p ladder z) w.0)) r a v h
      (All-insert (IsApprover (group_at p ladder r)) a true (votes_at r v) m (h r))

length-insert-pos : (a : ℕ) (b : Bool) (m : List (ℕ × Bool)) → 0 < length (insert ℕ_discrete a b m)
unfolding insert
length-insert-pos a b [] = omega arith
length-insert-pos a b ((j, w) ∷ m) = ground arith

-- Whoever votes at a rung, there is a vote at that rung.
pub add_vote-pos : (r : ℤ) (a : ℕ) (v : Votes) → 0 < length (votes_at r (add_vote r a v))
add_vote-pos r a v =
    ground (arith, votes_at-add_vote r r a v, length-insert-pos a true (votes_at r v))

pub group_at-some :
    (p : Policy) (ladder : List EscalationRung) (r z : ℤ) (rung : EscalationRung)
    (g : ApproverGroup)
    → r ≡ z
    → get_at ladder z ≡ some rung
    → lookup Str-discrete rung.group_name p.approver_groups ≡ some g
    → group_at p ladder r ≡ some g
group_at-some p ladder r z rung g e at known =
    subst (λ k. group_at p ladder k ≡ some g) (sym e) here
  where
    go :
        (o : Option EscalationRung)
        → o ≡ some rung
        → elim o [ none ↦ none | some x ↦ lookup Str-discrete x.group_name p.approver_groups ]
          ≡ some g
    go none q = absurd (cc)
    go (some x) q =
        subst (λ (y : EscalationRung). lookup Str-discrete y.group_name p.approver_groups ≡ some g)
          (sym (some-injective _ _ q)) known

    here : group_at p ladder z ≡ some g
    here = go (get_at ladder z) at
