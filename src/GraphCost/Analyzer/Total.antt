-- ===== src/GraphCost/Analyzer/Total.antt =====
-- The end of analyzer.go's walk.
use gitscale.Common.{ℕ, ◌≢◌, refl, Bool, List, [], ◌∷◌, not, ◌&&◌, match_rule}
use gitscale.Common.Str.{Str, Str_eq}
use gitscale.GraphCost.{
  ParseError, Operation, Result, ok, failed, out_of_fuel, Ensures, holds, rejected, Ensures-if,
  Ensures-bind, Ensures-fueled, Selections, Document,
}
use gitscale.GraphCost.Lexer.{is_empty}
use gitscale.GraphCost.Parser.{parse_query}
use gitscale.GraphCost.Parser.Total.{parse_query_terminates}
use gitscale.GraphCost.Weights.{Floats, PrincipalKind, Analyzer, Any}
use gitscale.GraphCost.Analyzer
use gitscale.GraphCost.Analyzer.{Walked, Walk, fragment_cycle}
use gitscale.GraphCost.Analyzer.Grown.{
  fresh-le-length, WalkOk, deepen-Grown, after-WalkOk, walk_loop-WalkOk, spread_at-WalkOk,
}

pick_from-Ensures :
    (name : Str) (ops : List Operation) → Ensures (λ _. Unit) (Analyzer.pick_from name ops)
unfolding Analyzer.pick_from
pick_from-Ensures name [] = rejected
pick_from-Ensures name (op ∷ []) =
    Ensures-if (not (is_empty name) && (not (Str_eq op.name name) && not (is_empty op.name)))
      (λ _. rejected) (λ _. holds tt)
pick_from-Ensures name (op ∷ op' ∷ ops) =
    Ensures-if (is_empty name) (λ _. rejected)
      λ _.
        match_rule (Ensures (λ _. Unit)) (Analyzer.find_operation name (op ∷ op' ∷ ops))
          (λ _. rejected) λ found _. holds tt

module _ {F : Type 0} (fl : Floats F) (a : Analyzer F) where
  -- The walk of a whole operation, as Analyze starts it.
  pub walk-WalkOk :
      (vars : List (Str × Any F)) (doc : Document) (sels : Selections) (parent : Str) (d : ℕ)
      → WalkOk [] (Analyzer.walk fl a vars doc sels parent d)
  walk-WalkOk vars doc sels parent d = after-WalkOk fl a vars (Analyzer.deepen d) (deepen-Grown d) (
      walk_loop-WalkOk fl a vars [] _
        (λ name d'. spread_at-WalkOk fl a vars doc _ [] name d' (fresh-le-length doc.fragments))
        sels parent d)

  check_limits-Ensures :
      (kind : PrincipalKind) (c : Analyzer.Cost)
      → Ensures (λ _. Unit) (Analyzer.check_limits fl a kind c)
  unfolding Analyzer.check_limits
  check_limits-Ensures kind c =
      Ensures-if (Analyzer.over (a.limits.max_depth kind) c.depth) (λ _. rejected)
        λ _.
          Ensures-if (Analyzer.over (a.limits.max_complexity kind) c.complexity) (λ _. rejected)
            λ _. holds tt

  analyze_document-Ensures :
      (doc : Document) (op_name : Str) (vars : List (Str × Any F)) (kind : PrincipalKind)
      (persisted : Bool)
      → Ensures (λ _. Unit) (Analyzer.analyze_document fl a doc op_name vars kind persisted)
  unfolding Analyzer.analyze_document Analyzer.analyze_operation
  analyze_document-Ensures doc op_name vars kind persisted =
      Ensures-bind (pick_from-Ensures op_name doc.operations) λ op _.
        Ensures-bind
          (walk-WalkOk vars doc op.sels (Analyzer.root_type fl a op.kind) 1 (Analyzer.no_cost fl a)
            refl)
          λ st _. check_limits-Ensures kind (Analyzer.discounted fl a persisted st.cost)

  -- The analyzer comes to a cost or an error on any query, also on one whose fragments name each
  -- other in a cycle: no more spreads are open at one time than the document has fragments.
  pub analyze_terminates :
      (src op_name : Str) (vars : List (Str × Any F)) (kind : PrincipalKind) (persisted : Bool)
      → Analyzer.analyze fl a src op_name vars kind persisted ≢ out_of_fuel
  unfolding Analyzer.analyze
  analyze_terminates src op_name vars kind persisted =
      by_outcome (parse_query src) (parse_query_terminates src)
    where
      by_outcome :
          (r : Result ParseError Document)
          → r ≢ out_of_fuel
          → elim r [
            | ok doc ↦ Analyzer.analyze_document fl a doc op_name vars kind persisted
            | failed e ↦ failed (Analyzer.unparsed e)
            | out_of_fuel ↦ out_of_fuel
          ]
            ≢ out_of_fuel
      by_outcome (ok doc) h =
          Ensures-fueled (analyze_document-Ensures doc op_name vars kind persisted)
      by_outcome (failed e) h = cc
      by_outcome out_of_fuel h = absurd (h refl)
