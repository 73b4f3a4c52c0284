-- ===== src/GraphCost/Parser.antt =====
-- The grammar of parser.go, by recursive descent over what is left of the input. No call returns to
-- a structural part of its input, so each turn of a loop costs a unit of fuel.
mod Arguments
mod Fields
pub mod Total
use gitscale.Common.{
  ℕ, zero, suc, Bool, true, false, ◌&&◌, ◌||◌, not, Option, none, some, List, [], ◌∷◌, ◌++◌, length,
  drop, ◌==◌, if◌then◌else◌,
}
use gitscale.Common.Map.{insert}
use gitscale.Common.Str.{Str, Str-discrete, Str_eq, codes, has_prefix}
use gitscale.GraphCost.{
  ParseError, Result, ok, failed, out_of_fuel, ◌>>=◌, ArgValue, OperationKind, op_query,
  op_mutation, Selections, Selection, Field, Operation, Fragment, Document, no_selections, select,
  sel_field, sel_fragment_spread, sel_inline_fragment, field, trailing_input,
  subscriptions_unsupported, expected_definition, no_operations, fragment_without_name,
  fragment_without_on, fragment_without_type, unclosed_selection_set, no_field_name,
  no_field_name_after_alias, unclosed_args, no_arg_name, no_value, unexpected_token,
  unexpected_character,
}
use gitscale.GraphCost.Lexer.{
  Outcome, peek, tail, is_empty, span, skip_ws, is_digit, read_ident, expect, read_string,
  skip_balanced, read_number,
}

-- What comes after a `@` or a name, if it is in parentheses.
abbrev skip_args : ℕ → Str → Outcome Str
skip_args f s = if peek s == b'(' then skip_balanced f b'(' b')' s else ok s

-- The loops over directives, which differ in what they keep of the names.
unfoldable pub directives : ℕ → Str → Outcome (List Str × Str)
directives zero s = out_of_fuel
directives (suc f) s =
    let (name, rest) = read_ident (tail s) in
    let more = skip_args f (skip_ws rest) >>= λ after.
    directives f (skip_ws after) >>= λ (names, end). ok (name ∷ names, end) in
    if peek s == b'@' then more else ok ([], s)

abbrev raw_value : Str → ArgValue
raw_value s = record { int_value = none; raw = s }

unfoldable pub parse_value_at : ℕ → Str → Outcome (ArgValue × Str)
parse_value_at f s =
    if is_empty s
    then failed no_value
    else if peek s == b'$'
    then ok (raw_value (b'$' ∷ (read_ident (tail s)).0), (read_ident (tail s)).1)
    else if peek s == b'"'
    then (read_string s >>= λ rest. ok (raw_value (span s rest), rest))
    else if peek s == b'['
    then (skip_balanced f b'[' b']' s >>= λ rest. ok (raw_value (span s rest), rest))
    else if peek s == b'{'
    then (skip_balanced f b'{' b'}' s >>= λ rest. ok (raw_value (span s rest), rest))
    else if peek s == b'-' || is_digit (peek s)
    then ok (read_number s)
    else if is_empty (read_ident s).0
    then failed (unexpected_character (peek s))
    else ok (raw_value (read_ident s).0, (read_ident s).1)

abbrev pub parse_value : ℕ → Str → Outcome (ArgValue × Str)
parse_value f s = parse_value_at f (skip_ws s)

-- The loop of parseArgs.
unfoldable pub args_from : ℕ → List (Str × ArgValue) → Str → Outcome (List (Str × ArgValue) × Str)
args_from zero into s = out_of_fuel
args_from (suc f) into s =
    let (name, rest) = read_ident (skip_ws s) in
    let more = expect b':' (skip_ws rest) >>= λ after_colon.
    parse_value f (skip_ws after_colon) >>= λ (val, end).
    args_from f (insert Str-discrete name val into) end in
    if is_empty (skip_ws s)
    then failed unclosed_args
    else if peek (skip_ws s) == b')'
    then ok (into, tail (skip_ws s))
    else if is_empty name
    then failed no_arg_name
    else more

unfoldable pub parse_args : ℕ → List (Str × ArgValue) → Str → Outcome (List (Str × ArgValue) × Str)
parse_args f into s = expect b'(' s >>= λ rest. args_from f into rest

-- parseSelectionSet, whose loop is `loop`.
unfoldable pub parse_selection_set :
    (loop : Str → Outcome (Selections × Str)) → Str → Outcome (Selections × Str)
parse_selection_set loop s = expect b'{' s >>= λ rest. loop rest

-- parseField's alias: the alias, the name and what follows them.
unfoldable pub parse_alias : Str → Str → Outcome (Str × Str × Str)
parse_alias name s =
    if peek s == b':'
    then (if is_empty (read_ident (skip_ws (tail s))).0
        then failed no_field_name_after_alias
        else ok
            (name, (read_ident (skip_ws (tail s))).0, skip_ws (read_ident (skip_ws (tail s))).1))
    else ok ([], name, s)

unfoldable pub parse_field :
    ℕ → (loop : Str → Outcome (Selections × Str)) → Str → Outcome (Field × Str)
parse_field f loop s =
    let (first, rest) = read_ident s in
    if is_empty first
    then failed no_field_name
    else (parse_alias first (skip_ws rest) >>= λ (alias, name, s₁).
        (if peek s₁ == b'(' then parse_args f [] s₁ else ok ([], s₁)) >>= λ (args, s₂).
        directives f (skip_ws s₂) >>= λ (names, s₃).
        (if peek s₃ == b'{' then parse_selection_set loop s₃ else ok (no_selections, s₃))
        >>= λ (sels, s₄). ok (field name alias args names sels, s₄))

-- What follows the three dots: the selection and the rest.
unfoldable pub parse_dots :
    ℕ → (loop : Str → Outcome (Selections × Str)) → Str → Outcome (Selection × Str)
parse_dots f loop s =
    let (ident, rest) = read_ident (skip_ws s) in
    let (type_name, after_type) = read_ident rest in
    if Str_eq ident (codes "on")
    then (directives f (skip_ws after_type) >>= λ (_, s₁).
        parse_selection_set loop s₁ >>= λ (sels, s₂). ok (sel_inline_fragment type_name sels, s₂))
    else ok (sel_fragment_spread ident, rest)

-- One turn of parseSelectionSet's loop on a selection.
unfoldable pub parse_selection :
    ℕ → (loop : Str → Outcome (Selections × Str)) → Str → Outcome (Selection × Str)
parse_selection f loop s =
    if has_prefix s (codes "...")
    then parse_dots f loop (drop 3 s)
    else (parse_field f loop s >>= λ (f, rest). ok (sel_field f, rest))

-- The loop of parseSelectionSet.
unfoldable pub selections_from : ℕ → Str → Outcome (Selections × Str)
selections_from zero s = out_of_fuel
selections_from (suc f) s =
    let more = parse_selection f (λ t. selections_from f t) (skip_ws s) >>= λ (sel, rest).
    selections_from f rest >>= λ (sels, end). ok (select sel sels, end) in
    if is_empty (skip_ws s)
    then failed unclosed_selection_set
    else if peek (skip_ws s) == b'}'
    then ok (no_selections, tail (skip_ws s))
    else more

unfoldable pub parse_operation : ℕ → OperationKind → Str → Outcome (Operation × Str)
parse_operation f kind s =
    let (name, rest) = read_ident s in
    skip_args f (skip_ws rest) >>= λ s₁. directives f (skip_ws s₁) >>= λ (_, s₂).
    parse_selection_set (λ t. selections_from f t) s₂ >>= λ (sels, s₃).
    ok (record { kind = kind; name = name; sels = sels }, s₃)

unfoldable pub parse_fragment : ℕ → Str → Outcome (Fragment × Str)
parse_fragment f s =
    let (name, s₁) = read_ident s in
    let (on, s₂) = read_ident s₁ in
    let (on_type, s₃) = read_ident s₂ in
    if is_empty name
    then failed fragment_without_name
    else if not (Str_eq on (codes "on"))
    then failed fragment_without_on
    else if is_empty on_type
    then failed fragment_without_type
    else (parse_selection_set (λ t. selections_from f t) s₃ >>= λ (sels, end).
        ok (record { name = name; on_type = on_type; sels = sels }, end))

unfoldable pub kind_for : Str → OperationKind
kind_for kw = if Str_eq kw (codes "mutation") then op_mutation else op_query

-- One turn of ParseQuery's loop: the document so far with the next definition.
unfoldable pub parse_definition : ℕ → Document → Str → Outcome (Document × Str)
parse_definition f doc s =
    let (kw, rest) = read_ident s in
    if Str_eq kw (codes "query") || Str_eq kw (codes "mutation")
    then (parse_operation f (kind_for kw) rest >>= λ (op, end).
        ok (record doc { operations = doc.operations ++ op ∷ [] }, end))
    else if Str_eq kw (codes "subscription")
    then failed subscriptions_unsupported
    else if Str_eq kw (codes "fragment")
    then (parse_fragment f rest >>= λ (frag, end).
        ok (record doc { fragments = insert Str-discrete frag.name frag doc.fragments }, end))
    else if is_empty kw
    then failed expected_definition
    else failed (unexpected_token kw)

-- The loop of ParseQuery.
unfoldable pub definitions_from : ℕ → Document → Str → Outcome Document
definitions_from zero doc s = out_of_fuel
definitions_from (suc f) doc s =
    let more =
      parse_definition f doc s >>= λ (doc', rest). definitions_from f doc' (skip_ws rest) in
    if not (is_empty s)
    then more
    else if is_empty doc.operations
    then failed no_operations
    else ok doc

abbrev shorthand : Selections → Document
shorthand sels = record {
  operations = record { kind = op_query; name = []; sels = sels } ∷ [];
  fragments = [];
}

abbrev pub fuel_for : Str → ℕ
fuel_for s = suc (length s)

unfoldable pub parse_query_at : ℕ → Str → Outcome Document
parse_query_at f s =
    if peek s == b'{'
    then (parse_selection_set (λ t. selections_from f t) s >>= λ (sels, rest).
        if is_empty (skip_ws rest) then ok (shorthand sels) else failed trailing_input)
    else definitions_from f (record { operations = []; fragments = [] }) s

abbrev pub parse_query : Str → Outcome Document
parse_query src = parse_query_at (fuel_for src) (skip_ws src)
