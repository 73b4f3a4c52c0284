-- ===== src/GraphCost/Parser/Fields.antt =====
-- The fuel of the loop over selections (parser.go).
use gitscale.Common.{ℕ, zero, suc, ◌≤◌, ◌<◌, ◌≡◌, true, [], ◌∷◌, length, drop, ◌==◌, arith}
use gitscale.Common.Str.{Str, Str_eq, codes, has_prefix}
use gitscale.GraphCost.{
  Ensures, holds, rejected, Ensures-if, Ensures-bind, Ensures-weaken, Selections,
}
use gitscale.GraphCost.Lexer.{Outcome, peek, tail, is_empty, skip_ws, read_ident}
use gitscale.GraphCost.Lexer.Lengths.{
  length-drop-le, tail-lt, peek-lt, skip_ws-le, read_ident-le, read_ident-lt, expect-Ensures,
}
use gitscale.GraphCost.Parser.{
  parse_selection_set, parse_alias, parse_field, parse_dots, parse_selection, selections_from,
}
use gitscale.GraphCost.Parser.Arguments.{directives-Ensures, parse_args-Ensures}

drop_dots-lt : (s : Str) → has_prefix s (codes "...") ≡ true → length (drop 3 s) < length s
unfolding has_prefix
drop_dots-lt [] e = cc
drop_dots-lt (c ∷ s) e = omega (arith, length-drop-le 2 s)

-- The loop of parseSelectionSet, on input below a bound.
abbrev LoopOk : ℕ → (Str → Outcome (Selections × Str)) → Type 0
LoopOk n loop = (s : Str) → length s < n → Ensures (λ r. length r.1 < length s) (loop s)

module _ (f : ℕ) (loop : Str → Outcome (Selections × Str)) (loop_ok : LoopOk f loop) where
  pub parse_selection_set-Ensures :
      (s : Str) → length s ≤ f → Ensures (λ r. length r.1 < length s) (parse_selection_set loop s)
  unfolding parse_selection_set
  parse_selection_set-Ensures s h =
      Ensures-bind (expect-Ensures b'{' s)
        λ rest k. Ensures-weaken (loop_ok rest (omega arith)) λ r m. omega arith

  parse_alias-Ensures :
      (name : Str) (s : Str) → Ensures (λ r. length r.2 ≤ length s) (parse_alias name s)
  unfolding parse_alias
  parse_alias-Ensures name s =
      let t = skip_ws (tail s) in
      let spaced = skip_ws-le (tail s) in
      let spaced₁ = skip_ws-le (read_ident t).1 in
      let ident = read_ident-le t in
      Ensures-if (peek s == b':')
        (λ colon.
          let short = peek-lt s 57 colon in
          Ensures-if (is_empty (read_ident t).0) (λ _. rejected) λ _. holds (omega arith))
        (λ _. holds (omega arith))

  parse_field-Ensures :
      (s : Str) → length s ≤ f → Ensures (λ r. length r.1 < length s) (parse_field f loop s)
  unfolding parse_field
  parse_field-Ensures s h =
      let (first, rest) = read_ident s in
      let spaced = skip_ws-le rest in
      Ensures-if (is_empty first) (λ _. rejected)
        λ named.
          let named_lt = read_ident-lt s named in
          Ensures-bind (parse_alias-Ensures first (skip_ws rest)) λ (alias, name, s₁) k₁.
            Ensures-bind
              (Ensures-if {P = λ r. length r.1 ≤ length s₁} (peek s₁ == b'(')
                (λ _. parse_args-Ensures f [] s₁ (omega arith)) (λ _. holds (omega arith)))
              λ (args, s₂) k₂.
                let spaced₂ = skip_ws-le s₂ in
                Ensures-bind (directives-Ensures f (skip_ws s₂) (omega arith)) λ (names, s₃) k₃.
                  Ensures-bind
                    (Ensures-if {P = λ r. length r.1 ≤ length s₃} (peek s₃ == b'{')
                      (λ _.
                        Ensures-weaken (parse_selection_set-Ensures s₃ (omega arith))
                          λ r m. omega arith)
                      (λ _. holds (omega arith)))
                    λ (sels, s₄) k₄. holds (omega arith)

  parse_dots-Ensures :
      (s : Str) → length s < f → Ensures (λ r. length r.1 ≤ length s) (parse_dots f loop s)
  unfolding parse_dots
  parse_dots-Ensures s h =
      let (ident, rest) = read_ident (skip_ws s) in
      let (type_name, after_type) = read_ident rest in
      let spaced = skip_ws-le s in
      let ident_le = read_ident-le (skip_ws s) in
      let type_le = read_ident-le rest in
      let spaced₁ = skip_ws-le after_type in
      Ensures-if (Str_eq ident (codes "on"))
        (λ _.
          Ensures-bind (directives-Ensures f (skip_ws after_type) (omega arith)) λ (names, s₁) k₁.
            Ensures-bind (parse_selection_set-Ensures s₁ (omega arith))
              λ (sels, s₂) k₂. holds (omega arith))
        (λ _. holds (omega arith))

  parse_selection-Ensures :
      (s : Str) → length s ≤ f → Ensures (λ r. length r.1 < length s) (parse_selection f loop s)
  unfolding parse_selection
  parse_selection-Ensures s h =
      Ensures-if (has_prefix s (codes "..."))
        (λ dots.
          let short = drop_dots-lt s dots in
          Ensures-weaken (parse_dots-Ensures (drop 3 s) (omega arith)) λ r m. omega arith)
        (λ _. Ensures-bind (parse_field-Ensures s h) λ (fd, rest) k. holds k)

pub selections_from-Ensures : (f : ℕ) → LoopOk f (λ s. selections_from f s)
unfolding selections_from
selections_from-Ensures zero s h = absurd (omega arith)
selections_from-Ensures (suc f) s h =
    let t = skip_ws s in
    let spaced = skip_ws-le s in
    Ensures-if (is_empty t) (λ _. rejected)
      λ some_left.
        Ensures-if (peek t == b'}') (λ _. holds (omega (arith, tail-lt t some_left)))
          λ _.
            Ensures-bind
              (parse_selection-Ensures f (λ u. selections_from f u) (selections_from-Ensures f) t
                (omega arith))
              λ (sel, rest) k.
                Ensures-bind (selections_from-Ensures f rest (omega arith))
                  λ (sels, end) m. holds (omega arith)
