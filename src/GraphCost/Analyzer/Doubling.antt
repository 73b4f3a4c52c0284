-- ===== src/GraphCost/Analyzer/Doubling.antt =====
-- The number of fields that analyzer.go's walk visits in a document of fragments that spread the
-- next one twice.
use mathlib.Core.Logic.{if_pos, if_neg}
use gitscale.Common.{
  ℕ_discrete, ℕ, zero, suc, ◌+◌, ◌^◌, ◌≤◌, ◌<◌, ◌≡◌, ◌≢◌, refl, ap, ◌∙◌, false, some, List, [], ◌∷◌,
  length, arith,
}
use gitscale.Common.Map.{lookup}
use gitscale.Common.Str.{Str, Str-discrete, Str_eq, codes, has_prefix}
use gitscale.GraphCost.{
  ok, Selections, Fragment, Document, no_selections, select, sel_field, sel_fragment_spread, field,
}
use gitscale.GraphCost.Weights.{
  Floats, Limits, Analyzer, Any, new_analyzer, default_field_weights, weight_for, multiplier,
  multiplier_loop,
}
use gitscale.GraphCost.Analyzer
use gitscale.GraphCost.Analyzer.{Walked, Walk}
use gitscale.GraphCost.Analyzer.Grown.{remove-added}

-- The names a, aa, aaa, …
abbrev letters : ℕ → Str
letters zero = []
letters (suc k) = b'a' ∷ letters k

length-letters : (k : ℕ) → length (letters k) ≡ k
length-letters zero = refl
length-letters (suc k) = rw (length-letters k)

letters-injective : (j k : ℕ) → letters (suc j) ≡ letters (suc k) → j ≡ k
letters-injective j k p = omega (arith, ap length p, length-letters j, length-letters k)

abbrev pub spread_of : ℕ → Selections → Selections
spread_of k rest = select (sel_fragment_spread (letters (suc k))) rest

-- `fragment a on T { x }`, `fragment aa on T { ...a ...a }`, `fragment aaa on T { ...aa ...aa }`, …
abbrev doubled : ℕ → Selections
doubled zero = select (sel_field (field (codes "x") [] [] [] no_selections)) no_selections
doubled (suc k) = spread_of k (spread_of k no_selections)

abbrev fragment_of : ℕ → Fragment
fragment_of k = record { name = letters (suc k); on_type = codes "T"; sels = doubled k }

-- The fragments below the `n`-th.
abbrev pub fragments_below : ℕ → List (Str × Fragment)
fragments_below zero = []
fragments_below (suc n) = (letters (suc n), fragment_of n) ∷ fragments_below n

abbrev pub doubling : ℕ → Document
doubling n = record { operations = []; fragments = fragments_below n }

lookup-fragments_below :
    (k n : ℕ)
    → k < n
    → lookup Str-discrete (letters (suc k)) (fragments_below n) ≡ some (fragment_of k)
unfolding lookup
lookup-fragments_below k zero h = absurd (omega arith)
lookup-fragments_below k (suc n) h = elim (ℕ_discrete n k) [
  | yes e ↦
      if_pos (Str-discrete (letters (suc n)) (letters (suc k))) (ap (λ j. letters (suc j)) e) _ _
      ∙ ap (λ j. some (fragment_of j)) e
  | no q ↦
      if_neg (Str-discrete (letters (suc n)) (letters (suc k))) (λ p. q (letters-injective n k p)) _
        _
      ∙ lookup-fragments_below k n (omega (arith, q))
]

Str_eq-ne : (s t : Str) → s ≢ t → Str_eq s t ≡ false
Str_eq-ne s t ne = ground arith

longer-ne : (s : Str) (k : ℕ) → k < length s → s ≢ letters k
longer-ne s k h p = omega (arith, h, ap length p, length-letters k)

-- The names of a list are longer than `k`.
abbrev Longer : ℕ → List Str → Type 0
Longer k [] = Unit
Longer k (s ∷ v) = (k < length s) × Longer k v

Longer-weaken : (k : ℕ) (v : List Str) → Longer (suc k) v → Longer k v
Longer-weaken k [] h = tt
Longer-weaken k (s ∷ v) h = (omega (arith, h.0), Longer-weaken k v h.1)

mem-Longer : (k : ℕ) (v : List Str) → Longer k v → Analyzer.mem_Str (letters k) v ≡ false
mem-Longer k [] h = refl
mem-Longer k (s ∷ v) h = rw (Str_eq-ne s (letters k) (longer-ne s k h.0), mem-Longer k v h.1)

module _ {F : Type 0} (fl : Floats F) (lim : Limits F) (vars : List (Str × Any F)) where
  abbrev analyzer : Analyzer F
  analyzer = new_analyzer lim default_field_weights

  -- A field that no table has costs one.
  field_cost-plain : Analyzer.field_cost fl analyzer vars (codes "T") (codes "x") [] ≡ 1
  unfolding Analyzer.field_cost weight_for lookup multiplier multiplier_loop Str-discrete ℕ_discrete
  field_cost-plain = refl

  -- What a walk has added to the complexity, `visited` being as before.
  abbrev Adds : ℕ → Walked → Walk → Type 0
  Adds n st r =
      (st' : Walked) × (r ≡ ok st')
      × (st'.visited ≡ st.visited)
      × (st'.cost.complexity ≡ st.cost.complexity + n)

  module _ (n : ℕ) where
    abbrev spread : ℕ → Str → ℕ → Walked → Walk
    spread = Analyzer.spread_at fl analyzer vars (doubling n)

    spread-Adds :
        (k : ℕ)
        → k < n
        → (f d : ℕ) (st : Walked) → k ≤ f
        → Longer (suc k) st.visited
        → Adds (2 ^ k) st (spread (suc f) (letters (suc k)) d st)
    unfolding Analyzer.spread_at Analyzer.walk_spread Analyzer.walk_loop has_prefix
    spread-Adds zero h f d st enough longer =
        rw (lookup-fragments_below zero n h, mem-Longer 1 st.visited longer)
          (
            _,
            refl,
            remove-added (letters 1) st.visited (mem-Longer 1 st.visited longer),
            rw (field_cost-plain),
          )
    spread-Adds (suc k) h zero d st enough longer = absurd (omega arith)
    spread-Adds (suc k) h (suc f) d st enough longer =
        let name = letters (suc (suc k)) in
        let new = mem-Longer (suc (suc k)) st.visited longer in
        let inside : Walked = Analyzer.deepen d (record st { visited = name ∷ st.visited }) in
        let longer' : Longer (suc k) inside.visited =
          (omega (arith, length-letters k), Longer-weaken (suc k) st.visited longer) in
        let (st₁, e₁, v₁, c₁) = spread-Adds k (omega arith) f d inside (omega arith) longer' in
        let (st₂, e₂, v₂, c₂) =
          spread-Adds k (omega arith) f d st₁ (omega arith) (rw (v₁) longer') in
        rw (lookup-fragments_below (suc k) n h, new, e₁, e₂)
          (
            _,
            refl,
            ap (Analyzer.remove name) (v₂ ∙ v₁) ∙ remove-added name st.visited new,
            omega (arith, c₁, c₂),
          )

  length-fragments_below : (n : ℕ) → length (fragments_below n) ≡ n
  length-fragments_below zero = refl
  length-fragments_below (suc n) = rw (length-fragments_below n)

  -- The walk charges 2 to the power `n` fields, at 1 each, for an operation that spreads the last
  -- of `n` + 1 fragments, where the first selects one field and each other spreads its predecessor
  -- twice: a name is visited only as long as its own walk lasts, and no limit is looked at before
  -- the end.
  pub walk-doubling :
      (n : ℕ) (parent : Str)
      → (st : Walked) × (Analyzer.walk fl analyzer vars
            (doubling (suc n))
            (spread_of n no_selections)
            parent
            1
            (Analyzer.no_cost fl analyzer)
          ≡ ok st)
        × (st.cost.complexity ≡ 2 ^ n)
        × (length (doubling (suc n)).fragments ≡ suc n)
  unfolding Analyzer.walk_loop
  walk-doubling n parent =
      let start = Analyzer.deepen 1 (Analyzer.no_cost fl analyzer) in
      let (st, e, v, c) = spread-Adds (suc n) n (omega arith) n 1 start (omega arith) tt in
      (st, rw (length-fragments_below n, e), omega (arith, c), length-fragments_below (suc n))
