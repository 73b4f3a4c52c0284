-- ===== src/GraphCost/Tests.antt =====
-- Runs of the GraphQL cost check, and its theorems at concrete queries.
use gitscale.Common.{
  ℕ, zero, suc, ◌^◌, ◌*◌, ◌/◌, ◌+◌, ◌≤◌, ◌≡◌, ◌≢◌, refl, ◌⊎◌, Bool, true, false, List, [], ◌∷◌,
  some, none, length, ltb, ℕ_discrete,
}
use gitscale.Common.Int.{pos, negsuc, ◌≤ℤ◌}
use gitscale.Common.Map.{lookup}
use gitscale.Common.Str.{Str, codes, Str-discrete, has_prefix}
use gitscale.GraphCost.{
  Document, Operation, Fragment, Selections, ok, out_of_fuel, op_query, no_selections, select,
  sel_field, field, sel_fragment_spread,
}
use gitscale.GraphCost.Lexer
use gitscale.GraphCost.Parser
use gitscale.GraphCost.Parser.Total.{parse_query_terminates}
use gitscale.GraphCost.Weights
use gitscale.GraphCost.Weights.{
  Floats, Analyzer, new_analyzer, default_limits, default_field_weights, float64, principal_human,
}
use gitscale.GraphCost.Analyzer
use gitscale.GraphCost.Analyzer.Total.{analyze_terminates}
use gitscale.GraphCost.Analyzer.Visits.{first}
use gitscale.GraphCost.Analyzer.Depth.{Reaches, here, in_field, in_spread, analyze_document_within}
use gitscale.GraphCost.Analyzer.Doubling.{doubling, spread_of, walk-doubling}
use gitscale.GraphCost.Analyzer.Multiplier.{multiplier-bounds}

-- Numbers in percent.
abbrev percent : Floats ℕ
percent = record {
  half = 50;
  is_positive = λ x. ltb 0 x;
  scale = λ c x. (c * x + 99) / 100;
  truncate = λ x. pos (x / 100);
}

abbrev standard : Analyzer ℕ
standard = new_analyzer (default_limits percent) default_field_weights

atoi_reads : Lexer.atoi (codes "-12") ≡ some (negsuc 11)
unfolding Lexer.atoi Lexer.digits_from
atoi_reads = refl

-- 2^63 is no int64, so the argument is taken for absent.
atoi_overflows : Lexer.atoi (codes "9223372036854775808") ≡ none
unfolding Lexer.atoi Lexer.digits_from
atoi_overflows = refl

abbrev cyclic_query : Str
cyclic_query =
    codes
      "query Q($n: Int = 3) { r: repository(id: \"a\\\"b\", first: $n) { ...F } } fragment F on Repository { ...G } fragment G on Repository { ...F }"

parse_query_terminates_example : Parser.parse_query cyclic_query ≢ out_of_fuel
parse_query_terminates_example = parse_query_terminates cyclic_query

analyze_terminates_example :
    Analyzer.analyze percent standard cyclic_query (codes "Q") [] principal_human false
    ≢ out_of_fuel
analyze_terminates_example =
    analyze_terminates percent standard cyclic_query (codes "Q") [] principal_human false

abbrev plain : Str → Selections → Selections
plain name sels = select (sel_field (field name [] [] [] sels)) no_selections

-- `query { repository { ...F } } fragment F on Repository { owner { name } }`
abbrev owner_fragment : Fragment
owner_fragment = record {
  name = codes "F";
  on_type = codes "Repository";
  sels = plain (codes "owner") (plain (codes "name") no_selections);
}

abbrev owner_query : Operation
owner_query = record {
  kind = op_query;
  name = [];
  sels = plain (codes "repository") (select (sel_fragment_spread (codes "F")) no_selections);
}

abbrev owner_document : Document
owner_document = record {
  operations = owner_query ∷ [];
  fragments = (codes "F", owner_fragment) ∷ [];
}

owner_parses :
    Parser.parse_query
      (codes "query { repository { ...F } } fragment F on Repository { owner { name } }")
    ≡ ok owner_document
unfolding Parser.parse_query_at Parser.definitions_from Parser.parse_definition
    Parser.parse_operation Parser.parse_fragment Parser.kind_for Parser.selections_from
    Parser.parse_selection Parser.parse_dots Parser.parse_field Parser.parse_alias
    Parser.parse_selection_set Parser.parse_args Parser.args_from Parser.directives Lexer.skip_ws_in
    Lexer.ident_from Lexer.expect has_prefix Str-discrete ℕ_discrete gitscale.Common.Map.insert
owner_parses = refl

owner_admitted :
    Analyzer.analyze_document percent standard owner_document [] [] principal_human true
    ≡ ok (record { depth = 3; complexity = 2 })
unfolding Analyzer.analyze_document Analyzer.analyze_operation Analyzer.pick_from Analyzer.walk_loop
    Analyzer.spread_at Analyzer.walk_spread Analyzer.field_cost Analyzer.check_limits
    Analyzer.discounted Analyzer.remove Weights.weight_for Weights.child_type Weights.multiplier
    Weights.multiplier_loop Weights.int_arg lookup has_prefix Str-discrete ℕ_discrete
owner_admitted = refl

owner-Reaches : Reaches owner_document owner_query.sels 1 3
unfolding has_prefix lookup Str-discrete ℕ_discrete
owner-Reaches = in_field first refl refl (in_spread first refl (in_field first refl refl here))

owner_picked : Analyzer.pick_operation owner_document [] ≡ ok owner_query
unfolding Analyzer.pick_from
owner_picked = refl

analyze_document_within_example :
    (3 ≤ 3)
    × (Analyzer.over (some (pos 10)) 3 ≡ false)
    × (Analyzer.over (some (pos 1000)) 2 ≡ false)
analyze_document_within_example =
    analyze_document_within percent standard owner_document [] [] principal_human true
      (record { depth = 3; complexity = 2 }) owner_query 3 owner_admitted owner_picked owner-Reaches

multiplier-bounds_example :
    let made = standard.limits in
    let m =
      Weights.multiplier percent made
        ((codes "first", record { int_value = some (pos 1000); raw = codes "1000" }) ∷ [])
        []
        (codes "first" ∷ []) in
    (pos 1 ≤ℤ m) × ((m ≤ℤ made.max_first) ⊎ (m ≡ made.default_first))
multiplier-bounds_example =
    multiplier-bounds percent (default_limits percent) default_field_weights
      ((codes "first", record { int_value = some (pos 1000); raw = codes "1000" }) ∷ []) []
      (codes "first" ∷ [])

walk-doubling_example :
    (st : Analyzer.Walked) × (Analyzer.walk percent standard []
        (doubling 41)
        (spread_of 40 no_selections)
        (codes "Query")
        1
        (Analyzer.no_cost percent standard)
      ≡ ok st)
    × (st.cost.complexity ≡ 2 ^ 40)
    × (length (doubling 41).fragments ≡ 41)
walk-doubling_example = walk-doubling percent (default_limits percent) [] 40 (codes "Query")
