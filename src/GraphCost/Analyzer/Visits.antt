-- ===== src/GraphCost/Analyzer/Visits.antt =====
-- The parts of a walk (analyzer.go) that ended well.
use gitscale.Common.{
  ℕ, zero, suc, ◌≤◌, ◌≡◌, refl, ◌∙◌, ap, Bool, true, false, Option, none, some, List, ◌∷◌,
  if◌then◌else◌, arith,
}
use gitscale.Common.Map.{lookup}
use gitscale.Common.Str.{Str, Str-discrete}
use gitscale.GraphCost.{
  ok, failed, >>=-ok, Ensures-ok, Selections, Selection, Fragment, Document, select,
}
use gitscale.GraphCost.Weights.{Floats, Analyzer, Any}
use gitscale.GraphCost.Analyzer
use gitscale.GraphCost.Analyzer.{Walked, Walk}
use gitscale.GraphCost.Analyzer.Grown.{
  fresh, fresh-lookup, WalkOk, walk_loop-WalkOk, walk_selection-WalkOk, spread_at-WalkOk,
}

pub data Among (s : Selection) : Selections → Type 0 where
  first : {rest : Selections} → Among s (select s rest)
  later : {t : Selection} {rest : Selections} → Among s rest → Among s (select t rest)

pub if-false : {A : Type 0} (b : Bool) (x y z : A) → b ≡ false → (if b then x else y) ≡ z → y ≡ z
if-false true x y z e h = cc
if-false false x y z e h = h

pub if-true : {A : Type 0} (b : Bool) (x y z : A) → b ≡ true → (if b then x else y) ≡ z → x ≡ z
if-true true x y z e h = h
if-true false x y z e h = cc

guarded-ok :
    {A : Type 0} (b : Bool) (o : Option A) (cycle undefined : Analyzer.AnalyzeError) (g : A → Walk)
    {x : A} {st : Walked}
    → o ≡ some x
    → (if b then failed cycle else elim o [ none ↦ failed undefined | some y ↦ g y ]) ≡ ok st
    → (b ≡ false) × (g x ≡ ok st)
guarded-ok true o _ _ g found e = cc
guarded-ok false none _ _ g found e = cc
guarded-ok false (some y) _ _ g found e = (refl, cc)

abbrev depth_of : Walk → ℕ
depth_of (ok st) = st.cost.depth
depth_of _ = 0

-- What the walk of one of the selections was, if the walk of them all ended well.
pub record Visit (v : List Str) (w : Walked → Walk) (top : ℕ) : Type 0 where
  pub before : Walked
  pub after : Walked
  pub at_visited : before.visited ≡ v
  pub walked : w before ≡ ok after
  pub below : after.cost.depth ≤ top

abbrev pub entered : Str → Walked → Walked
entered name st = record st { visited = name ∷ st.visited }

module _ {F : Type 0} (fl : Floats F) (a : Analyzer F) (vars : List (Str × Any F))
    (doc : Document) where
  module _ (v : List Str) (spread : Str → ℕ → Walked → Walk)
      (spread_ok : (name : Str) (d : ℕ) → WalkOk v (spread name d)) where
    walk_loop-Among :
        {s : Selection} {sels : Selections}
        → Among s sels
        → (parent : Str) (d : ℕ) (st st' : Walked) → st.visited ≡ v
        → Analyzer.walk_loop fl a vars spread sels parent d st ≡ ok st'
        → Visit v (Analyzer.walk_selection fl a vars spread s parent d) st'.cost.depth
    unfolding Analyzer.walk_loop
    walk_loop-Among {s = s} (first {rest}) parent d st st' e walked =
        let (mid, now, then_rest) = >>=-ok _ _ walked in
        let g =
          Ensures-ok (walk_selection-WalkOk fl a vars v spread spread_ok s parent d st e) now in
        let h =
          Ensures-ok
            (walk_loop-WalkOk fl a vars v spread spread_ok rest parent d mid (g.same_visited ∙ e))
            then_rest in
        record { before = st; after = mid; at_visited = e; walked = now; below = h.no_shallower }
    walk_loop-Among (later {t} {rest} among) parent d st st' e walked =
        let (mid, now, then_rest) = >>=-ok _ _ walked in
        let g =
          Ensures-ok (walk_selection-WalkOk fl a vars v spread spread_ok t parent d st e) now in
        walk_loop-Among among parent d mid st' (g.same_visited ∙ e) then_rest

  walk_spread-entered :
      (w : Fragment → ℕ → Walked → Walk) (name : Str) (d : ℕ) (st st' : Walked) (frag : Fragment)
      → lookup Str-discrete name doc.fragments ≡ some frag
      → Analyzer.walk_spread fl a vars doc w name d st ≡ ok st'
      → (mid : Walked) × (Analyzer.mem_Str name st.visited ≡ false)
        × (w frag d (entered name st) ≡ ok mid)
        × (mid.cost.depth ≡ st'.cost.depth)
  unfolding Analyzer.walk_spread
  walk_spread-entered w name d st st' frag found walked =
      let (new, entering) =
        guarded-ok (Analyzer.mem_Str name st.visited) (lookup Str-discrete name doc.fragments) _ _ _
          found walked in
      let (mid, inside, left) = >>=-ok (w frag d (entered name st)) _ entering in
      (mid, new, inside, ap depth_of left)

  pub spread_at-entered :
      (n : ℕ) (v : List Str) (name : Str) (d : ℕ) (st st' : Walked) (frag : Fragment)
      → lookup Str-discrete name doc.fragments ≡ some frag
      → fresh v doc.fragments ≤ n
      → st.visited ≡ v
      → Analyzer.spread_at fl a vars doc n name d st ≡ ok st'
      → (k : ℕ) × (mid : Walked) × (fresh (name ∷ v) doc.fragments ≤ k)
        × (Analyzer.walk_sels fl a vars
              (Analyzer.spread_at fl a vars doc k)
              frag.sels
              frag.on_type
              d
              (entered name st)
            ≡ ok mid)
        × (mid.cost.depth ≡ st'.cost.depth)
  unfolding Analyzer.spread_at
  spread_at-entered zero v name d st st' frag found enough e walked =
      let (mid, new, inside, same) = walk_spread-entered _ name d st st' frag found walked in cc
  spread_at-entered (suc n) v name d st st' frag found enough e walked =
      let (mid, new, inside, same) = walk_spread-entered _ name d st st' frag found walked in
      (
        n,
        mid,
        omega (arith, fresh-lookup name v doc.fragments frag (rw (← e) new) found),
        inside,
        same,
      )

  pub walk_sels-Among :
      {s : Selection} {sels : Selections} (n : ℕ) (v : List Str)
      → fresh v doc.fragments ≤ n
      → Among s sels
      → (parent : Str) (d : ℕ) (st st' : Walked) → st.visited ≡ v
      → Analyzer.walk_sels fl a vars (Analyzer.spread_at fl a vars doc n) sels parent d st ≡ ok st'
      → Visit v
          (Analyzer.walk_selection fl a vars (Analyzer.spread_at fl a vars doc n) s parent d)
          st'.cost.depth
  walk_sels-Among n v enough among parent d st st' e walked =
      walk_loop-Among v (Analyzer.spread_at fl a vars doc n)
        (λ name d. spread_at-WalkOk fl a vars doc n v name d enough) among parent d
        (Analyzer.deepen d st) st' e walked
