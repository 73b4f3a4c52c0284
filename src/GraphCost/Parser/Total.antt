-- ===== src/GraphCost/Parser/Total.antt =====
-- The fuel of parser.go's parser.
use gitscale.Common.{
  ℕ, zero, suc, ◌≤◌, ◌<◌, ◌≡◌, ◌≢◌, refl, true, false, ◌||◌, not, [], ◌∷◌, length, ◌==◌, arith,
}
use gitscale.Common.Str.{Str, Str_eq, codes}
use gitscale.GraphCost.{
  out_of_fuel, Ensures, holds, rejected, Ensures-if, Ensures-bind, Ensures-fueled, OperationKind,
  Document,
}
use gitscale.GraphCost.Lexer.{peek, is_empty, skip_ws, read_ident}
use gitscale.GraphCost.Lexer.Lengths.{skip_ws-le, read_ident-le, read_ident-lt}
use gitscale.GraphCost.Parser.{
  parse_operation, parse_fragment, kind_for, parse_definition, definitions_from, fuel_for,
  parse_query_at, parse_query,
}
use gitscale.GraphCost.Parser.Arguments.{skip_args-Ensures, directives-Ensures}
use gitscale.GraphCost.Parser.Fields.{parse_selection_set-Ensures, selections_from-Ensures}

word-named : (kw : Str) (c : ℕ) (w : Str) → Str_eq kw (c ∷ w) ≡ true → is_empty kw ≡ false
word-named [] c w e = ground arith
word-named (d ∷ kw) c w e = refl

module _ (f : ℕ) where
  parse_operation-Ensures :
      (kind : OperationKind) (s : Str)
      → length s < f
      → Ensures (λ r. length r.1 < length s) (parse_operation f kind s)
  unfolding parse_operation
  parse_operation-Ensures kind s h =
      let (name, rest) = read_ident s in
      let name_le = read_ident-le s in
      let spaced = skip_ws-le rest in
      Ensures-bind (skip_args-Ensures f (skip_ws rest) (omega arith)) λ s₁ k₁.
        let spaced₁ = skip_ws-le s₁ in
        Ensures-bind (directives-Ensures f (skip_ws s₁) (omega arith)) λ (names, s₂) k₂.
          Ensures-bind
            (parse_selection_set-Ensures f _ (selections_from-Ensures f) s₂ (omega arith))
            λ (sels, s₃) k₃. holds (omega arith)

  parse_fragment-Ensures :
      (s : Str) → length s ≤ f → Ensures (λ r. length r.1 < length s) (parse_fragment f s)
  unfolding parse_fragment
  parse_fragment-Ensures s h =
      let (name, s₁) = read_ident s in
      let (on, s₂) = read_ident s₁ in
      let (on_type, s₃) = read_ident s₂ in
      let k₁ = read_ident-le s in
      let k₂ = read_ident-le s₁ in
      let k₃ = read_ident-le s₂ in
      Ensures-if (is_empty name) (λ _. rejected)
        λ _.
          Ensures-if (not (Str_eq on (codes "on"))) (λ _. rejected)
            λ _.
              Ensures-if (is_empty on_type) (λ _. rejected)
                λ _.
                  Ensures-bind
                    (parse_selection_set-Ensures f _ (selections_from-Ensures f) s₃ (omega arith))
                    λ (sels, end) k₄. holds (omega arith)

  parse_definition-Ensures :
      (doc : Document) (s : Str)
      → length s ≤ f
      → Ensures (λ r. length r.1 < length s) (parse_definition f doc s)
  unfolding parse_definition
  parse_definition-Ensures doc s h =
      let (kw, rest) = read_ident s in
      Ensures-if (Str_eq kw (codes "query") || Str_eq kw (codes "mutation"))
        (λ e.
          let short = read_ident-lt s (operation-named kw e) in
          Ensures-bind (parse_operation-Ensures (kind_for kw) rest (omega arith))
            λ (op, end) k. holds (omega arith))
        λ _.
          Ensures-if (Str_eq kw (codes "subscription")) (λ _. rejected)
            λ _.
              Ensures-if (Str_eq kw (codes "fragment"))
                (λ e.
                  let short = read_ident-lt s (word-named kw _ _ e) in
                  Ensures-bind (parse_fragment-Ensures rest (omega arith))
                    λ (frag, end) k. holds (omega arith))
                λ _. Ensures-if (is_empty kw) (λ _. rejected) λ _. rejected
    where
      operation-named :
          (kw : Str)
          → (Str_eq kw (codes "query") || Str_eq kw (codes "mutation")) ≡ true
          → is_empty kw ≡ false
      operation-named [] e = ground arith
      operation-named (c ∷ kw) e = refl

definitions_from-Ensures :
    (f : ℕ) (doc : Document) (s : Str)
    → length s < f
    → Ensures (λ _. Unit) (definitions_from f doc s)
unfolding definitions_from
definitions_from-Ensures zero doc s h = absurd (omega arith)
definitions_from-Ensures (suc f) doc s h =
    Ensures-if (not (is_empty s))
      (λ _. Ensures-bind (parse_definition-Ensures f doc s (omega arith)) λ (doc', rest) k.
        definitions_from-Ensures f doc' (skip_ws rest) (omega (arith, skip_ws-le rest)))
      λ _. Ensures-if (is_empty doc.operations) (λ _. rejected) λ _. holds tt

-- The parser comes to a document or an error on any input: no loop of it runs for more turns than
-- the input has bytes, and one more.
pub parse_query_terminates : (src : Str) → parse_query src ≢ out_of_fuel
unfolding parse_query_at
parse_query_terminates src = Ensures-fueled parsed
  where
    fueled : length (skip_ws src) < fuel_for src
    fueled = omega (arith, skip_ws-le src)

    parsed : Ensures (λ _. Unit) (parse_query src)
    parsed =
        Ensures-if (peek (skip_ws src) == b'{')
          (λ _.
            Ensures-bind
              (parse_selection_set-Ensures (fuel_for src) _ (selections_from-Ensures (fuel_for src))
                (skip_ws src) (omega (arith, fueled)))
              λ (sels, rest) k. Ensures-if (is_empty (skip_ws rest)) (λ _. holds tt) λ _. rejected)
          λ _. definitions_from-Ensures (fuel_for src) _ (skip_ws src) fueled
