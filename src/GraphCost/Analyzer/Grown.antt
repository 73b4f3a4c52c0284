-- ===== src/GraphCost/Analyzer/Grown.antt =====
-- What analyzer.go's walk does to `visited` and the cost.
use gitscale.Common.{
  ℕ, zero, suc, ◌≤◌, ◌<◌, ◌≡◌, refl, ◌∙◌, ap, false, some, List, [], ◌∷◌, length, if◌then◌else◌,
  match_rule, arith,
}
use gitscale.Common.Map.{lookup}
use gitscale.Common.Str.{Str, Str-discrete, codes, has_prefix}
use gitscale.GraphCost.{
  Ensures, holds, rejected, Ensures-if, Ensures-bind, Ensures-weaken, Selections, Selection, Field,
  Fragment, Document, no_selections, select, sel_field, sel_fragment_spread, sel_inline_fragment,
  field,
}
use gitscale.GraphCost.Lexer.{is_empty}
use gitscale.GraphCost.Weights.{Floats, Analyzer, Any, child_type}
use gitscale.GraphCost.Analyzer
use gitscale.GraphCost.Analyzer.{Walked, Walk, fragment_cycle}

-- The fragments whose names are not among `visited`.
pub fresh : List Str → List (Str × Fragment) → ℕ
fresh v [] = 0
fresh v ((k, frag) ∷ m) = let rest = fresh v m in if Analyzer.mem_Str k v then rest else suc rest

pub fresh-le-length : (m : List (Str × Fragment)) → fresh [] m ≤ length m
unfolding fresh
fresh-le-length [] = omega arith
fresh-le-length (e ∷ m) = omega (arith, fresh-le-length m)

fresh_mono : (n : Str) (v : List Str) (m : List (Str × Fragment)) → fresh (n ∷ v) m ≤ fresh v m
unfolding fresh
fresh_mono n v [] = omega arith
fresh_mono n v ((k, frag) ∷ m) = ground (arith, fresh_mono n v m)

pub fresh-lookup :
    (n : Str) (v : List Str) (m : List (Str × Fragment)) (frag : Fragment)
    → Analyzer.mem_Str n v ≡ false
    → lookup Str-discrete n m ≡ some frag
    → fresh (n ∷ v) m < fresh v m
unfolding fresh lookup
fresh-lookup n v [] frag new e = cc
fresh-lookup n v ((k, other) ∷ m) frag new e =
    ground (arith, fresh_mono n v m, fresh-lookup n v m frag new)

remove-new : (n : Str) (v : List Str) → Analyzer.mem_Str n v ≡ false → Analyzer.remove n v ≡ v
unfolding Analyzer.remove
remove-new n [] new = refl
remove-new n (m ∷ v) new = ground (arith, remove-new n v)

pub remove-added :
    (n : Str) (v : List Str) → Analyzer.mem_Str n v ≡ false → Analyzer.remove n (n ∷ v) ≡ v
unfolding Analyzer.remove
remove-added n v new = ground (arith, remove-new n v new)

-- What a part of the walk does to its state: it leaves `visited` as it was, and the cost no lower.
pub record Grown (st st' : Walked) : Type 0 where
  pub same_visited : st'.visited ≡ st.visited
  pub no_shallower : st.cost.depth ≤ st'.cost.depth
  pub no_cheaper : st.cost.complexity ≤ st'.cost.complexity

Grown-refl : (st : Walked) → Grown st st
Grown-refl st = record { same_visited = refl; no_shallower = omega arith; no_cheaper = omega arith }

Grown-trans : {s t u : Walked} → Grown s t → Grown t u → Grown s u
Grown-trans g h = record {
  same_visited = h.same_visited ∙ g.same_visited;
  no_shallower = omega (arith, g.no_shallower, h.no_shallower);
  no_cheaper = omega (arith, g.no_cheaper, h.no_cheaper);
}

pub deepen-Grown : (d : ℕ) (st : Walked) → Grown st (Analyzer.deepen d st)
deepen-Grown d st = record {
  same_visited = refl;
  no_shallower = ground arith;
  no_cheaper = omega arith;
}

charge-Grown : (n : ℕ) (st : Walked) → Grown st (Analyzer.charge n st)
charge-Grown n st = record {
  same_visited = refl;
  no_shallower = omega arith;
  no_cheaper = omega arith;
}

-- A walk's part, run where `v` is what is visited.
abbrev pub WalkOk : List Str → (Walked → Walk) → Type 0
WalkOk v w = (st : Walked) → st.visited ≡ v → Ensures (λ st'. Grown st st') (w st)

module _ {F : Type 0} (fl : Floats F) (a : Analyzer F) (vars : List (Str × Any F)) where
  pub after-WalkOk :
      {v : List Str} (f : Walked → Walked) {w : Walked → Walk}
      → ((st : Walked) → Grown st (f st))
      → WalkOk v w
      → WalkOk v (λ st. w (f st))
  after-WalkOk f grown w_ok st e =
      Ensures-weaken (w_ok (f st) ((grown st).same_visited ∙ e)) λ st' g. Grown-trans (grown st) g

  module _ (v : List Str) (spread : Str → ℕ → Walked → Walk)
      (spread_ok : (name : Str) (d : ℕ) → WalkOk v (spread name d)) where
    mutual
      unfolding Analyzer.walk_loop

      pub walk_loop-WalkOk :
          (sels : Selections) (parent : Str) (d : ℕ)
          → WalkOk v (Analyzer.walk_loop fl a vars spread sels parent d)
      walk_loop-WalkOk no_selections parent d st e = holds (Grown-refl st)
      walk_loop-WalkOk (select s rest) parent d st e =
          Ensures-bind (walk_selection-WalkOk s parent d st e) λ st' g.
            Ensures-weaken (walk_loop-WalkOk rest parent d st' (g.same_visited ∙ e))
              λ st'' h. Grown-trans g h

      pub walk_selection-WalkOk :
          (s : Selection) (parent : Str) (d : ℕ)
          → WalkOk v (Analyzer.walk_selection fl a vars spread s parent d)
      walk_selection-WalkOk (sel_field f) parent d st e = walk_field-WalkOk f parent d st e
      walk_selection-WalkOk (sel_inline_fragment t sels) parent d st e =
          after-WalkOk (Analyzer.deepen d) (deepen-Grown d)
            (walk_loop-WalkOk sels (if is_empty t then parent else t) d) st e
      walk_selection-WalkOk (sel_fragment_spread name) parent d st e = spread_ok name d st e

      pub walk_field-WalkOk :
          (f : Field) (parent : Str) (d : ℕ)
          → WalkOk v (Analyzer.walk_field fl a vars spread f parent d)
      walk_field-WalkOk (field name alias args ds sels) parent d st e =
          let n = Analyzer.field_cost fl a vars parent name args in
          Ensures-if (has_prefix name (codes "__")) (λ _. holds (Grown-refl st))
            λ _.
              Ensures-if (Analyzer.has_selections sels)
                (λ _.
                  after-WalkOk (λ st. Analyzer.deepen (suc d) (Analyzer.charge n st))
                    (λ st. Grown-trans (charge-Grown n st) (deepen-Grown (suc d) _))
                    (walk_loop-WalkOk sels (child_type parent name) (suc d)) st e)
                (λ _. holds (charge-Grown n st))

  module _ (doc : Document) where
    walk_spread-WalkOk :
        (v : List Str) (w : Fragment → ℕ → Walked → Walk) (name : Str) (d : ℕ)
        → (fresh (name ∷ v) doc.fragments < fresh v doc.fragments
            → (frag : Fragment) → WalkOk (name ∷ v) (w frag d))
        → WalkOk v (Analyzer.walk_spread fl a vars doc w name d)
    unfolding Analyzer.walk_spread
    walk_spread-WalkOk v w name d w_ok st e =
        Ensures-if (Analyzer.mem_Str name st.visited) (λ _. rejected)
          λ new.
            match_rule (Ensures (λ st'. Grown st st')) (lookup Str-discrete name doc.fragments)
              (λ _. rejected)
              λ frag found.
                let new_v : Analyzer.mem_Str name v ≡ false = rw (← e) new in
                Ensures-bind
                  (w_ok (fresh-lookup name v doc.fragments frag new_v found) frag
                    (record st { visited = name ∷ st.visited }) (ap (λ u. name ∷ u) e))
                  λ st' g. holds (record {
                    same_visited =
                        ap (Analyzer.remove name) g.same_visited ∙ remove-added name st.visited new;
                    no_shallower = g.no_shallower;
                    no_cheaper = g.no_cheaper;
                  })

    -- The names that are defined and not visited are enough fuel.
    pub spread_at-WalkOk :
        (n : ℕ) (v : List Str) (name : Str) (d : ℕ)
        → fresh v doc.fragments ≤ n
        → WalkOk v (Analyzer.spread_at fl a vars doc n name d)
    unfolding Analyzer.spread_at
    spread_at-WalkOk zero v name d h = walk_spread-WalkOk v _ name d (λ less. absurd (omega arith))
    spread_at-WalkOk (suc n) v name d h = walk_spread-WalkOk v _ name d λ less frag.
        after-WalkOk (Analyzer.deepen d) (deepen-Grown d) (
          walk_loop-WalkOk (name ∷ v) (Analyzer.spread_at fl a vars doc n)
            (λ name' d'. spread_at-WalkOk n (name ∷ v) name' d' (omega arith)) frag.sels
            frag.on_type d)
