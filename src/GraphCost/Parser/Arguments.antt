-- ===== src/GraphCost/Parser/Arguments.antt =====
-- The fuel of the loops over directives and arguments (parser.go).
use gitscale.Common.{ℕ, zero, suc, ◌≤◌, ◌<◌, ◌||◌, List, length, ◌==◌, arith}
use gitscale.Common.Map.{insert}
use gitscale.Common.Str.{Str, Str-discrete}
use gitscale.GraphCost.{
  Ensures, holds, rejected, Ensures-if, Ensures-bind, Ensures-weaken, ArgValue,
}
use gitscale.GraphCost.Lexer.{peek, tail, is_empty, skip_ws, is_digit, read_ident}
use gitscale.GraphCost.Lexer.Lengths.{
  tail-lt, peek-lt, skip_ws-le, read_ident-le, read_ident-lt, expect-Ensures, read_string-Ensures,
  skip_balanced-Ensures, read_number-lt,
}
use gitscale.GraphCost.Parser.{skip_args, directives, parse_value_at, args_from, parse_args}

pub skip_args-Ensures :
    (f : ℕ) (s : Str) → length s < f → Ensures (λ r. length r ≤ length s) (skip_args f s)
skip_args-Ensures f s h =
    Ensures-if (peek s == b'(')
      (λ _. Ensures-weaken (skip_balanced-Ensures f b'(' b')' s h) λ r k. omega arith)
      (λ _. holds (omega arith))

pub directives-Ensures :
    (f : ℕ) (s : Str) → length s < f → Ensures (λ r. length r.1 ≤ length s) (directives f s)
unfolding directives
directives-Ensures zero s h = absurd (omega arith)
directives-Ensures (suc f) s h =
    Ensures-if (peek s == b'@')
      (λ at.
        let name_read = read_ident-le (tail s) in
        let spaced = skip_ws-le (read_ident (tail s)).1 in
        let short = peek-lt s 63 at in
        Ensures-bind (skip_args-Ensures f (skip_ws (read_ident (tail s)).1) (omega arith))
          λ after k.
            Ensures-bind (directives-Ensures f (skip_ws after) (omega (arith, skip_ws-le after)))
              λ (names, end) m. holds (omega (arith, skip_ws-le after)))
      (λ _. holds (omega arith))

parse_value_at-Ensures :
    (f : ℕ) (s : Str) → length s < f → Ensures (λ r. length r.1 < length s) (parse_value_at f s)
unfolding parse_value_at
parse_value_at-Ensures f s h =
    Ensures-if (is_empty s) (λ _. rejected)
      λ some_left.
        Ensures-if (peek s == b'$')
          (λ _. holds (omega (arith, read_ident-le (tail s), tail-lt s some_left)))
          λ _.
            Ensures-if (peek s == b'"')
              (λ _. Ensures-bind (read_string-Ensures s some_left) λ rest k. holds k)
              λ _.
                Ensures-if (peek s == b'[')
                  (λ _. Ensures-bind (skip_balanced-Ensures f b'[' b']' s h) λ rest k. holds k)
                  λ _.
                    Ensures-if (peek s == b'{')
                      (λ _. Ensures-bind (skip_balanced-Ensures f b'{' b'}' s h) λ rest k. holds k)
                      λ _.
                        Ensures-if (peek s == b'-' || is_digit (peek s))
                          (λ number. holds (read_number-lt s some_left number))
                          λ _.
                            Ensures-if (is_empty (read_ident s).0) (λ _. rejected)
                              λ named. holds (read_ident-lt s named)

args_from-Ensures :
    (f : ℕ) (into : List (Str × ArgValue)) (s : Str)
    → length s < f
    → Ensures (λ r. length r.1 < length s) (args_from f into s)
unfolding args_from
args_from-Ensures zero into s h = absurd (omega arith)
args_from-Ensures (suc f) into s h =
    let t = skip_ws s in
    let (name, rest) = read_ident t in
    let spaced = skip_ws-le s in
    Ensures-if (is_empty t) (λ _. rejected)
      λ some_left.
        Ensures-if (peek t == b')') (λ _. holds (omega (arith, tail-lt t some_left)))
          λ _.
            Ensures-if (is_empty name) (λ _. rejected)
              λ named.
                let named_lt = read_ident-lt t named in
                let spaced₁ = skip_ws-le rest in
                Ensures-bind (expect-Ensures b':' (skip_ws rest)) λ after_colon k.
                  let spaced₂ = skip_ws-le after_colon in
                  let spaced₃ = skip_ws-le (skip_ws after_colon) in
                  Ensures-bind
                    (parse_value_at-Ensures f (skip_ws (skip_ws after_colon)) (omega arith))
                    λ (val, end) m.
                      Ensures-weaken
                        (args_from-Ensures f (insert Str-discrete name val into) end (omega arith))
                        λ r n. omega arith

pub parse_args-Ensures :
    (f : ℕ) (into : List (Str × ArgValue)) (s : Str)
    → length s ≤ f
    → Ensures (λ r. length r.1 ≤ length s) (parse_args f into s)
unfolding parse_args
parse_args-Ensures f into s h =
    Ensures-bind (expect-Ensures b'(' s)
      λ rest k. Ensures-weaken (args_from-Ensures f into rest (omega arith)) λ r m. omega arith
