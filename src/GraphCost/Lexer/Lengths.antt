-- ===== src/GraphCost/Lexer/Lengths.antt =====
-- What the lexer (parser.go) leaves of its input.
use gitscale.Common.{
  ℕ, zero, suc, ◌+◌, ◌-◌, ◌≤◌, ◌<◌, ◌≡◌, refl, Bool, true, false, ◌||◌, List, [], ◌∷◌, length, drop,
  if_rule, match_rule, arith, if◌then◌else◌, ◌&&◌, not, ◌==◌,
}
use gitscale.Common.Str.{Str, codes, has_prefix}
use gitscale.GraphCost.{
  ArgValue, Ensures, holds, rejected, Ensures-if, Ensures-bind, Ensures-weaken,
}
use gitscale.GraphCost.Lexer.{
  is_space, is_ident, is_digit, peek, tail, is_empty, skip_ws, skip_ws_in, ident_from, read_ident,
  expect, index, string_from, read_string, balanced_from, skip_balanced, skip_digits, read_number,
}

pub length-drop-le : {A : Type 0} (n : ℕ) (xs : List A) → length (drop n xs) ≤ length xs
length-drop-le zero xs = omega arith
length-drop-le (suc n) [] = omega arith
length-drop-le (suc n) (x ∷ xs) = omega (arith, length-drop-le n xs)

length-drop-lt : (n : ℕ) (s : Str) → is_empty s ≡ false → 0 < n → length (drop n s) < length s
length-drop-lt zero s e h = absurd (omega arith)
length-drop-lt (suc n) [] e h = cc
length-drop-lt (suc n) (c ∷ s) e h = omega (arith, length-drop-le n s)

pub tail-lt : (s : Str) → is_empty s ≡ false → length (tail s) < length s
tail-lt [] e = cc
tail-lt (c ∷ s) e = omega arith

pub peek-lt : (s : Str) (c : ℕ) → (peek s == suc c) ≡ true → length (tail s) < length s
peek-lt [] c e = ground arith
peek-lt (d ∷ s) c e = omega arith

-- A bound on an `if`, branch by branch.
le-if :
    (b : Bool) (n : ℕ) (s t : Str) → length s ≤ n → length t ≤ n → length (if b then s else t) ≤ n
le-if true n s t p q = p
le-if false n s t p q = q

skip_ws_in-le : (comment : Bool) (s : Str) → length (skip_ws_in comment s) ≤ length s
unfolding skip_ws_in
skip_ws_in-le comment [] = omega arith
skip_ws_in-le comment (c ∷ s) =
    let a = skip_ws_in-le true s in
    let b = skip_ws_in-le false s in
    le-if comment _ _ _ (le-if (c == 10) _ _ _ (omega arith) (omega arith))
      (le-if (is_space c) _ _ _ (omega arith) (le-if (c == b'#') _ _ _ (omega arith) (omega arith)))

pub skip_ws-le : (s : Str) → length (skip_ws s) ≤ length s
skip_ws-le s = skip_ws_in-le false s

ident_from-length : (s : Str) → length (ident_from s).0 + length (ident_from s).1 ≡ length s
unfolding ident_from
ident_from-length [] = refl
ident_from-length (c ∷ s) =
    if_rule (λ (r : Str × Str). length r.0 + length r.1 ≡ suc (length s)) (is_ident c)
      (λ _. omega (arith, ident_from-length s)) (λ _. omega arith)

pub read_ident-le : (s : Str) → length (read_ident s).1 ≤ length s
read_ident-le s = omega (arith, ident_from-length (skip_ws s), skip_ws-le s)

pub read_ident-lt :
    (s : Str) → is_empty (read_ident s).0 ≡ false → length (read_ident s).1 < length s
read_ident-lt s named =
    omega (arith, ident_from-length (skip_ws s), skip_ws-le s, tail-lt (read_ident s).0 named)

pub expect-Ensures : (c : ℕ) (s : Str) → Ensures (λ r. length r < length s) (expect c s)
unfolding expect
expect-Ensures c s =
    Ensures-if (not (is_empty (skip_ws s)) && peek (skip_ws s) == c)
      (λ e.
        holds
          (omega (arith, skip_ws-le s, tail-lt (skip_ws s) (nonempty (is_empty (skip_ws s)) _ e))))
      (λ _. rejected)
  where
    nonempty : (b d : Bool) → (not b && d) ≡ true → b ≡ false
    nonempty true d e = cc
    nonempty false d e = refl

string_from-Ensures : (s : Str) → Ensures (λ r. length r ≤ length s) (string_from s)
unfolding string_from
string_from-Ensures [] = rejected
string_from-Ensures (c ∷ []) =
    Ensures-if (c == b'\\') (λ _. rejected)
      λ _. Ensures-if (c == b'"') (λ _. holds (omega arith)) (λ _. rejected)
string_from-Ensures (c ∷ d ∷ s) =
    Ensures-if (c == b'\\') (λ _. Ensures-weaken (string_from-Ensures s) λ r h. omega arith)
      λ _.
        Ensures-if (c == b'"') (λ _. holds (omega arith))
          λ _. Ensures-weaken (string_from-Ensures (d ∷ s)) λ r h. omega arith

pub read_string-Ensures :
    (s : Str) → is_empty s ≡ false → Ensures (λ r. length r < length s) (read_string s)
unfolding read_string
read_string-Ensures s e =
    Ensures-if (has_prefix s (codes "\"\"\""))
      (λ _.
        match_rule (Ensures (λ r. length r < length s)) (index (drop 3 s) (codes "\"\"\""))
          (λ _. rejected) λ i _. holds (length-drop-lt (3 + i + 3) s e (omega arith)))
      λ _. Ensures-weaken (string_from-Ensures (tail s)) λ r h. omega (arith, tail-lt s e)

balanced_from-Ensures :
    (f opening closing depth : ℕ) (s : Str)
    → length s < f
    → Ensures (λ r. length r < length s) (balanced_from f opening closing depth s)
unfolding balanced_from
balanced_from-Ensures zero o c n s h = absurd (omega arith)
balanced_from-Ensures (suc f) o c n [] h = rejected
balanced_from-Ensures (suc f) o c n (x ∷ s) h =
    let next : (m : ℕ) → Ensures (λ r. length r < suc (length s)) (balanced_from f o c m s) =
      λ m. Ensures-weaken (balanced_from-Ensures f o c m s (omega arith)) λ r k. omega arith in
    Ensures-if (x == o) (λ _. next (suc n))
      λ _.
        Ensures-if (x == c)
          (λ _. Ensures-if (n - 1 == 0) (λ _. holds (omega arith)) (λ _. next (n - 1)))
          λ _.
            Ensures-if (x == b'"')
              (λ _. Ensures-bind (read_string-Ensures (x ∷ s) refl) λ rest short.
                Ensures-weaken (balanced_from-Ensures f o c n rest (omega arith))
                  λ r k. omega arith)
              (λ _. next n)

pub skip_balanced-Ensures :
    (f opening closing : ℕ) (s : Str)
    → length s < f
    → Ensures (λ r. length r < length s) (skip_balanced f opening closing s)
unfolding skip_balanced
skip_balanced-Ensures f o c s h =
    Ensures-if (peek s == o) (λ _. balanced_from-Ensures f o c 0 s h) (λ _. rejected)

skip_digits-le : (s : Str) → length (skip_digits s) ≤ length s
unfolding skip_digits
skip_digits-le [] = omega arith
skip_digits-le (c ∷ s) =
    let a = skip_digits-le s in le-if (is_digit c) _ _ _ (omega arith) (omega arith)

skip_digits-lt :
    (s : Str) → is_empty s ≡ false → is_digit (peek s) ≡ true → length (skip_digits s) < length s
unfolding skip_digits
skip_digits-lt [] e d = cc
skip_digits-lt (c ∷ s) e d =
    if_rule (λ (r : Str). length r < suc (length s)) (is_digit c)
      (λ _. omega (arith, skip_digits-le s)) (λ no. cc)

tail-le : (s : Str) → length (tail s) ≤ length s
tail-le [] = omega arith
tail-le (c ∷ s) = omega arith

whole-lt :
    (s : Str)
    → is_empty s ≡ false
    → (minus : Bool) → (minus || is_digit (peek s)) ≡ true
    → length (skip_digits (if minus then tail s else s)) < length s
whole-lt s e true h = omega (arith, skip_digits-le (tail s), tail-lt s e)
whole-lt s e false h = skip_digits-lt s e h

pub read_number-lt :
    (s : Str)
    → is_empty s ≡ false
    → (peek s == b'-' || is_digit (peek s)) ≡ true
    → length (read_number s).1 < length s
unfolding read_number
read_number-lt s e h =
    let whole = skip_digits (if peek s == b'-' then tail s else s) in
    let short = whole-lt s e (peek s == b'-') h in
    if_rule (λ (r : ArgValue × Str). length r.1 < length s) (peek whole == b'.')
      (λ _. omega (arith, short, skip_digits-le (tail whole), tail-le whole)) (λ _. short)
