-- ===== src/GraphCost/Analyzer/Depth.antt =====
-- The depth that analyzer.go counts, against the paths through a document.
use gitscale.Common.{
  ℕ, suc, ◌≤◌, ◌≡◌, refl, sym, ◌∙◌, ap, Bool, true, false, Option, none, some, List, [], ◌∷◌, arith,
}
use gitscale.Common.Int.{ℤ, pos, negsuc}
use gitscale.Common.Map.{lookup}
use gitscale.Common.Str.{Str, Str-discrete, codes, has_prefix}
use gitscale.GraphCost.{
  ok, >>=-ok, Ensures-ok, ArgValue, Operation, Selections, Fragment, Document, sel_field,
  sel_fragment_spread, sel_inline_fragment, field,
}
use gitscale.GraphCost.Weights.{Floats, PrincipalKind, Analyzer, Any, child_type}
use gitscale.GraphCost.Analyzer
use gitscale.GraphCost.Analyzer.{Walked, Walk}
use gitscale.GraphCost.Analyzer.Grown.{fresh-le-length, fresh, walk_loop-WalkOk, spread_at-WalkOk}
use gitscale.GraphCost.Analyzer.Visits.{
  Among, if-false, if-true, walk_sels-Among, entered, spread_at-entered,
}

-- From a selection set at depth `d` one comes to a selection set at depth `e`: a field whose name
-- does not begin with two underscores goes one level down, fragments stay at their level.
pub data Reaches (doc : Document) : Selections → ℕ → ℕ → Type 0 where
  here : {sels : Selections} {d : ℕ} → Reaches doc sels d d
  in_field :
      {sels sub : Selections} {d e : ℕ} {name alias : Str} {args : List (Str × ArgValue)}
      {ds : List Str}
      → Among (sel_field (field name alias args ds sub)) sels
      → has_prefix name (codes "__") ≡ false
      → Analyzer.has_selections sub ≡ true
      → Reaches doc sub (suc d) e
      → Reaches doc sels d e
  in_inline :
      {sels sub : Selections} {d e : ℕ} {on_type : Str}
      → Among (sel_inline_fragment on_type sub) sels
      → Reaches doc sub d e
      → Reaches doc sels d e
  in_spread :
      {sels : Selections} {d e : ℕ} {name : Str} {frag : Fragment}
      → Among (sel_fragment_spread name) sels
      → lookup Str-discrete name doc.fragments ≡ some frag
      → Reaches doc frag.sels d e
      → Reaches doc sels d e

deepen-le : (d : ℕ) (st : Walked) → d ≤ (Analyzer.deepen d st).cost.depth
deepen-le d st = ground arith

module _ {F : Type 0} (fl : Floats F) (a : Analyzer F) (vars : List (Str × Any F))
    (doc : Document) where
  -- A walk that ended well has counted every depth that is reached from where it began.
  pub walk-deep :
      {sels : Selections} {d e : ℕ}
      → Reaches doc sels d e
      → (n : ℕ) (v : List Str) (parent : Str) (st st' : Walked) → fresh v doc.fragments ≤ n
      → st.visited ≡ v
      → Analyzer.walk_sels fl a vars (Analyzer.spread_at fl a vars doc n) sels parent d st ≡ ok st'
      → e ≤ st'.cost.depth
  unfolding Analyzer.walk_loop
  walk-deep (here {sels} {d}) n v parent st st' enough e walked =
      let g =
        Ensures-ok
          (walk_loop-WalkOk fl a vars v (Analyzer.spread_at fl a vars doc n)
            (λ name d. spread_at-WalkOk fl a vars doc n v name d enough) sels parent d
            (Analyzer.deepen d st) e)
          walked in
      omega (arith, deepen-le d st, g.no_shallower)
  walk-deep (in_field {sels} {sub} {d} {name = name} {args = args} among named deeper reaches) n v
        parent st st' enough e walked =
      let visit = walk_sels-Among fl a vars doc n v enough among parent d st st' e walked in
      let inside =
        if-true (Analyzer.has_selections sub) _ _ _ deeper
          (if-false (has_prefix name (codes "__")) _ _ _ named visit.walked) in
      let below = visit.below in
      omega (
        arith,
        walk-deep reaches n v (child_type parent name)
            (Analyzer.charge (Analyzer.field_cost fl a vars parent name args) visit.before)
            visit.after enough visit.at_visited inside,
        below,
      )
  walk-deep (in_inline {d = d} {on_type = on_type} among reaches) n v parent st st' enough e
        walked =
      let visit = walk_sels-Among fl a vars doc n v enough among parent d st st' e walked in
      let below = visit.below in
      omega (
        arith,
        walk-deep reaches n v _ visit.before visit.after enough visit.at_visited visit.walked,
        below,
      )
  walk-deep (in_spread {d = d} {name = name} {frag = frag} among found reaches) n v parent st st'
        enough e walked =
      let visit = walk_sels-Among fl a vars doc n v enough among parent d st st' e walked in
      let (k, mid, less, inside, same) =
        spread_at-entered fl a vars doc n v name d visit.before visit.after frag found enough
          visit.at_visited visit.walked in
      let below = visit.below in
      omega (
        arith,
        walk-deep reaches k (name ∷ v) frag.on_type (entered name visit.before) mid less
            (ap (λ u. name ∷ u) visit.at_visited) inside,
        below,
        same,
      )

over_mono : (o : Option ℤ) (m n : ℕ) → m ≤ n → Analyzer.over o n ≡ false → Analyzer.over o m ≡ false
over_mono none m n h e = refl
over_mono (some (pos k)) m n h e = ground arith
over_mono (some (negsuc k)) m n h e = ground arith

module _ {F : Type 0} (fl : Floats F) (a : Analyzer F) where
  check_limits-ok :
      (kind : PrincipalKind) (c c' : Analyzer.Cost)
      → Analyzer.check_limits fl a kind c ≡ ok c'
      → (Analyzer.over (a.limits.max_depth kind) c.depth ≡ false)
        × (Analyzer.over (a.limits.max_complexity kind) c.complexity ≡ false)
        × (c ≡ c')
  unfolding Analyzer.check_limits
  check_limits-ok kind c c' e = ground arith

  depth-discounted :
      (persisted : Bool) (c : Analyzer.Cost)
      → (Analyzer.discounted fl a persisted c).depth ≡ c.depth
  unfolding Analyzer.discounted
  depth-discounted persisted c = ground arith

  operation_within :
      (doc : Document) (vars : List (Str × Any F)) (kind : PrincipalKind) (persisted : Bool)
      (c : Analyzer.Cost) (op : Operation) {e : ℕ}
      → Analyzer.analyze_operation fl a doc vars kind persisted op ≡ ok c
      → Reaches doc op.sels 1 e
      → (e ≤ c.depth)
        × (Analyzer.over (a.limits.max_depth kind) e ≡ false)
        × (Analyzer.over (a.limits.max_complexity kind) c.complexity ≡ false)
  unfolding Analyzer.analyze_operation
  operation_within doc vars kind persisted c op admitted reaches =
      let start = Analyzer.no_cost fl a in
      let parent = Analyzer.root_type fl a op.kind in
      let (st, walked, checked) =
        >>=-ok (Analyzer.walk fl a vars doc op.sels parent 1 start)
          (λ st. Analyzer.check_limits fl a kind (Analyzer.discounted fl a persisted st.cost))
          admitted in
      let (shallow, cheap, same) =
        check_limits-ok kind (Analyzer.discounted fl a persisted st.cost) c checked in
      let counted : (Analyzer.discounted fl a persisted st.cost).depth ≡ c.depth =
        ap Analyzer.Cost.depth same in
      let deep =
        walk-deep fl a vars doc reaches _ [] parent start st (fresh-le-length doc.fragments) refl
          walked in
      let known = depth-discounted persisted st.cost in
      (
        omega arith,
        over_mono (a.limits.max_depth kind) _ _ (omega arith) shallow,
        ap (λ x. Analyzer.over (a.limits.max_complexity kind) x.complexity) (sym same) ∙ cheap,
      )

  -- A query that is admitted keeps to the depth limit of its principal's kind, if there is one: no
  -- path through the fields and fragments of the chosen operation leads deeper, introspection left
  -- aside. The depth that is returned is no less than any path's, and the complexity that is
  -- returned is within its limit.
  pub analyze_document_within :
      (doc : Document) (op_name : Str) (vars : List (Str × Any F)) (kind : PrincipalKind)
      (persisted : Bool) (c : Analyzer.Cost) (op : Operation) (e : ℕ)
      → Analyzer.analyze_document fl a doc op_name vars kind persisted ≡ ok c
      → Analyzer.pick_operation doc op_name ≡ ok op
      → Reaches doc op.sels 1 e
      → (e ≤ c.depth)
        × (Analyzer.over (a.limits.max_depth kind) e ≡ false)
        × (Analyzer.over (a.limits.max_complexity kind) c.complexity ≡ false)
  unfolding Analyzer.analyze_document
  analyze_document_within doc op_name vars kind persisted c op e admitted picked reaches =
      operation_within doc vars kind persisted c op (rw (picked) at admitted) reaches
