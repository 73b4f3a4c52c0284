-- ===== src/GraphCost/Analyzer.antt =====
-- analyzer.go: the walk over a parsed document, and the limits on what it costs. The sums stand
-- without the width of `int`: a walk of 2^63 fields ends in no one's lifetime.
mod Grown
pub mod Total
pub mod Visits
pub mod Depth
pub mod Doubling
pub mod Multiplier
use gitscale.Common.{
  ℕ, zero, suc, ◌+◌, ◌*◌, ◌/◌, Bool, true, false, ◌&&◌, ◌||◌, not, Option, none, some, List, [],
  ◌∷◌, length, ltb, leb, ◌==◌, if◌then◌else◌,
}
use gitscale.Common.Int.{ℤ, pos, pos_part, leb_ℤ}
use gitscale.Common.Map.{lookup}
use gitscale.Common.Str.{Str, Str-discrete, Str_eq, codes, has_prefix}
use gitscale.GraphCost.{
  ParseError, Result, ok, failed, out_of_fuel, ◌>>=◌, ArgValue, OperationKind, op_query,
  op_mutation, Selections, Selection, Field, Operation, Fragment, Document, no_selections, select,
  sel_field, sel_fragment_spread, sel_inline_fragment, field,
}
use gitscale.GraphCost.Lexer.{is_empty}
use gitscale.GraphCost.Parser.{parse_query}
use gitscale.GraphCost.Weights.{
  Floats, PrincipalKind, Limits, Analyzer, Any, weight_for, child_type, multiplier,
}

pub record Cost : Type 0 where
  pub depth : ℕ
  pub complexity : ℕ

unfoldable pub parse_cost : Cost → ℕ
parse_cost c = if ltb (c.complexity / 10) 20 then 20 else c.complexity / 10

pub data AnalyzeError : Type 0 where
  unparsed : ParseError → AnalyzeError
  depth_exceeded cost_budget_exceeded : Cost → AnalyzeError
  unknown_operation fragment_cycle fragment_not_defined : Str → AnalyzeError
  ambiguous_operation : AnalyzeError

-- The names that `visited` holds as true.
abbrev Names : Type 0
Names = List Str

abbrev pub mem_Str : Str → List Str → Bool
mem_Str n [] = false
mem_Str n (m ∷ ms) = Str_eq m n || mem_Str n ms

unfoldable pub remove : Str → List Str → List Str
remove n [] = []
remove n (m ∷ ms) = let rest = remove n ms in if Str_eq m n then rest else m ∷ rest

-- What the walk changes: `*c` and `visited`.
pub record Walked : Type 0 where
  pub cost : Cost
  pub visited : List Str

abbrev pub Walk : Type 0
Walk = Result AnalyzeError Walked

-- `if d > c.Depth`
abbrev pub deepen : ℕ → Walked → Walked
deepen d st = record st {
  cost = record {
    depth = if ltb st.cost.depth d then d else st.cost.depth;
    complexity = st.cost.complexity;
  };
}

abbrev pub charge : ℕ → Walked → Walked
charge n st = record st {
  cost = record { depth = st.cost.depth; complexity = st.cost.complexity + n };
}

abbrev pub has_selections : Selections → Bool
has_selections no_selections = false
has_selections (select s rest) = true

module _ {F : Type 0} (fl : Floats F) (a : Analyzer F) (vars : List (Str × Any F)) where
  unfoldable pub field_cost : Str → Str → List (Str × ArgValue) → ℕ
  field_cost parent name args =
      let w = weight_for a.weights parent name in
      w.weight * pos_part (multiplier fl a.limits args vars w.multipliers)

  -- The loop of `walk`. What it does with a fragment spread is an argument, as the fragment's
  -- selections are no part of these.
  module _ (spread : Str → ℕ → Walked → Walk) where
    unfoldable mutual
      pub walk_loop : Selections → Str → ℕ → Walked → Walk
      walk_loop no_selections parent d st = ok st
      walk_loop (select s rest) parent d st =
          walk_selection s parent d st >>= λ st'. walk_loop rest parent d st'

      pub walk_selection : Selection → Str → ℕ → Walked → Walk
      walk_selection (sel_field f) parent d st = walk_field f parent d st
      walk_selection (sel_inline_fragment on_type sels) parent d st =
          walk_loop sels (if is_empty on_type then parent else on_type) d (deepen d st)
      walk_selection (sel_fragment_spread name) parent d st = spread name d st

      pub walk_field : Field → Str → ℕ → Walked → Walk
      walk_field (field name alias args directives sels) parent d st =
          let charged = charge (field_cost parent name args) st in
          let below = walk_loop sels (child_type parent name) (suc d) (deepen (suc d) charged) in
          if has_prefix name (codes "__")
          then ok st
          else if has_selections sels
          then below
          else ok charged

  abbrev pub walk_sels : (Str → ℕ → Walked → Walk) → Selections → Str → ℕ → Walked → Walk
  walk_sels spread sels parent d st = walk_loop spread sels parent d (deepen d st)

  module _ (doc : Document) where
    -- The case of a fragment spread, whose walk of the fragment is `walk_fragment`.
    unfoldable pub walk_spread :
        (walk_fragment : Fragment → ℕ → Walked → Walk) → Str → ℕ → Walked → Walk
    walk_spread walk_fragment name d st =
        if mem_Str name st.visited
        then failed (fragment_cycle name)
        else elim (lookup Str-discrete name doc.fragments) [
          | none ↦ failed (fragment_not_defined name)
          | some frag ↦
              (walk_fragment frag d (record st { visited = name ∷ st.visited }) >>= λ st'.
              ok (record st' { visited = remove name st'.visited }))
        ]

    -- The fuel counts the spreads that are open at one time.
    unfoldable pub spread_at : ℕ → Str → ℕ → Walked → Walk
    spread_at zero = walk_spread (λ frag d st. out_of_fuel)
    spread_at (suc n) =
        walk_spread (λ frag d st. walk_sels (spread_at n) frag.sels frag.on_type d st)

    abbrev pub walk : Selections → Str → ℕ → Walked → Walk
    walk sels parent d st = walk_sels (spread_at (length doc.fragments)) sels parent d st

abbrev pub find_operation : Str → List Operation → Option Operation
find_operation name [] = none
find_operation name (op ∷ ops) =
    let rest = find_operation name ops in if Str_eq op.name name then some op else rest

unfoldable pub pick_from : Str → List Operation → Result AnalyzeError Operation
pick_from name [] = failed (unknown_operation [])
pick_from name (op ∷ []) =
    if not (is_empty name) && (not (Str_eq op.name name) && not (is_empty op.name))
    then failed (unknown_operation name)
    else ok op
pick_from name (op ∷ op' ∷ ops) =
    if is_empty name
    then failed ambiguous_operation
    else elim (find_operation name (op ∷ op' ∷ ops)) [
      | none ↦ failed (unknown_operation name)
      | some found ↦ ok found
    ]

abbrev pub pick_operation : Document → Str → Result AnalyzeError Operation
pick_operation doc name = pick_from name doc.operations

-- A limit that is absent, zero or negative is not enforced.
abbrev pub over : Option ℤ → ℕ → Bool
over none n = false
over (some m) n = leb_ℤ (pos 1) m && not (leb_ℤ (pos n) m)

module _ {F : Type 0} (fl : Floats F) (a : Analyzer F) where
  abbrev pub root_type : OperationKind → Str
  root_type op_query = a.root_query
  root_type op_mutation = a.root_mut

  unfoldable pub discounted : Bool → Cost → Cost
  discounted persisted c =
      if persisted && fl.is_positive a.limits.persisted_discount
      then record c { complexity = fl.scale c.complexity a.limits.persisted_discount }
      else c

  unfoldable pub check_limits : PrincipalKind → Cost → Result AnalyzeError Cost
  check_limits kind c =
      if over (a.limits.max_depth kind) c.depth
      then failed (depth_exceeded c)
      else if over (a.limits.max_complexity kind) c.complexity
      then failed (cost_budget_exceeded c)
      else ok c

  abbrev pub no_cost : Walked
  no_cost = record { cost = record { depth = 0; complexity = 0 }; visited = [] }

  -- Analyze after pickOperation.
  unfoldable pub analyze_operation :
      Document → List (Str × Any F) → PrincipalKind → Bool → Operation → Result AnalyzeError Cost
  analyze_operation doc vars kind persisted op =
      walk fl a vars doc op.sels (root_type op.kind) 1 no_cost >>= λ st.
      check_limits kind (discounted persisted st.cost)

  unfoldable pub analyze_document :
      Document → Str → List (Str × Any F) → PrincipalKind → Bool → Result AnalyzeError Cost
  analyze_document doc op_name vars kind persisted =
      pick_operation doc op_name >>= λ op. analyze_operation doc vars kind persisted op

  unfoldable pub analyze :
      Str → Str → List (Str × Any F) → PrincipalKind → Bool → Result AnalyzeError Cost
  analyze src op_name vars kind persisted = elim (parse_query src) [
    | ok doc ↦ analyze_document doc op_name vars kind persisted
    | failed e ↦ failed (unparsed e)
    | out_of_fuel ↦ out_of_fuel
  ]
