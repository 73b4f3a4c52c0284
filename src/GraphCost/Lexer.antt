-- ===== src/GraphCost/Lexer.antt =====
-- The tokens of parser.go. The parser's state is what `src` holds from `pos` on: nothing where `pos`
-- is at its end or, after a backslash, beyond it.
pub mod Lengths
use gitscale.Common.{
  ℕ, zero, suc, ◌+◌, ◌-◌, ◌*◌, ◌^◌, Bool, true, false, ◌&&◌, ◌||◌, not, Option, none, some, List,
  [], ◌∷◌, ◌++◌, length, take, drop, leb, ltb, ◌==◌, if◌then◌else◌,
}
use gitscale.Common.Int.{ℤ, pos, negsuc}
use gitscale.Common.Str.{Str, codes, has_prefix}
use gitscale.GraphCost.{
  ParseError, Result, ok, failed, out_of_fuel, ◌>>=◌, ArgValue, expected, unbalanced,
  unterminated_block_string, unterminated_string,
}

abbrev pub Outcome : Type 0 → Type 0
Outcome A = Result ParseError A

-- 0 at the end of the input, as in the source.
abbrev pub peek : Str → ℕ
peek [] = 0
peek (c ∷ s) = c

abbrev pub tail : Str → Str
tail [] = []
tail (c ∷ s) = s

abbrev pub is_empty {ℓ} : {A : Type ℓ} → List A → Bool
is_empty [] = true
is_empty (c ∷ s) = false

-- What lies between a position and a later one.
abbrev pub span : Str → Str → Str
span s rest = take (length s - length rest) s

abbrev pub is_space : ℕ → Bool
is_space c = c == b' ' || (c == 9 || (c == 10 || (c == 13 || c == b',')))

-- `comment` holds in the inner loop, which a line's end leaves for the outer one to skip.
unfoldable pub skip_ws_in : (comment : Bool) → Str → Str
skip_ws_in comment [] = []
skip_ws_in comment (c ∷ s) =
    let outside = skip_ws_in false s in
    let inside = skip_ws_in true s in
    if comment
    then (if c == 10 then outside else inside)
    else if is_space c
    then outside
    else if c == b'#'
    then inside
    else c ∷ s

abbrev pub skip_ws : Str → Str
skip_ws s = skip_ws_in false s

abbrev pub is_digit : ℕ → Bool
is_digit c = leb b'0' c && leb c b'9'

abbrev pub is_ident : ℕ → Bool
is_ident c = (leb b'a' c && leb c b'z') || ((leb b'A' c && leb c b'Z') || (is_digit c || c == b'_'))

-- The loop of readIdent: the name and what follows it.
unfoldable pub ident_from : Str → Str × Str
ident_from [] = ([], [])
ident_from (c ∷ s) =
    let (name, rest) = ident_from s in if is_ident c then (c ∷ name, rest) else ([], c ∷ s)

abbrev pub read_ident : Str → Str × Str
read_ident s = ident_from (skip_ws s)

unfoldable pub expect : ℕ → Str → Outcome Str
expect c s =
    if not (is_empty (skip_ws s)) && peek (skip_ws s) == c
    then ok (tail (skip_ws s))
    else failed (expected c)

-- strings.Index
unfoldable pub index : Str → Str → Option ℕ
index [] p = if has_prefix [] p then some 0 else none
index (c ∷ s) p =
    let later = index s p in
    if has_prefix (c ∷ s) p then some 0 else elim later [ none ↦ none | some i ↦ some (suc i) ]

-- The loop of readString after the opening quote.
unfoldable pub string_from : Str → Outcome Str
string_from [] = failed unterminated_string
string_from (c ∷ []) =
    if c == b'\\'
    then failed unterminated_string
    else if c == b'"'
    then ok []
    else failed unterminated_string
string_from (c ∷ d ∷ s) =
    let escaped = string_from s in
    let next = string_from (d ∷ s) in
    if c == b'\\' then escaped else if c == b'"' then ok (d ∷ s) else next

unfoldable pub read_string : Str → Outcome Str
read_string s =
    if has_prefix s (codes "\"\"\"")
    then elim (index (drop 3 s) (codes "\"\"\"")) [
      | none ↦ failed unterminated_block_string
      | some e ↦ ok (drop (3 + e + 3) s)
    ]
    else string_from (tail s)

-- The loop of skipBalanced. A string may be skipped in one turn, so each turn costs a unit of fuel.
unfoldable pub balanced_from : ℕ → (opening closing depth : ℕ) → Str → Outcome Str
balanced_from zero opening closing depth s = out_of_fuel
balanced_from (suc f) opening closing depth [] = failed (unbalanced opening closing)
balanced_from (suc f) opening closing depth (c ∷ s) =
    let deeper = balanced_from f opening closing (suc depth) s in
    let higher = balanced_from f opening closing (depth - 1) s in
    let after_string = read_string (c ∷ s) >>= λ rest. balanced_from f opening closing depth rest in
    let next = balanced_from f opening closing depth s in
    if c == opening
    then deeper
    else if c == closing
    then (if depth - 1 == 0 then ok s else higher)
    else if c == b'"'
    then after_string
    else next

unfoldable pub skip_balanced : ℕ → (opening closing : ℕ) → Str → Outcome Str
skip_balanced f opening closing s =
    if peek s == opening then balanced_from f opening closing 0 s else failed (expected opening)

unfoldable pub skip_digits : Str → Str
skip_digits [] = []
skip_digits (c ∷ s) = let rest = skip_digits s in if is_digit c then rest else c ∷ s

-- The digits' value, or none where there is another byte.
unfoldable pub digits_from : ℕ → Str → Option ℕ
digits_from n [] = some n
digits_from n (c ∷ s) =
    let rest = digits_from (n * 10 + (c - b'0')) s in if is_digit c then rest else none

abbrev pub unsigned : Str → Option ℕ
unsigned [] = none
unsigned (c ∷ s) = digits_from 0 (c ∷ s)

-- strconv.Atoi, whose int has 64 bits.
unfoldable pub atoi : Str → Option ℤ
atoi s =
    let number = unsigned (if peek s == b'-' || peek s == b'+' then tail s else s) in
    elim number [
      | none ↦ none
      | some n ↦
          (if peek s == b'-'
            then (if leb n (2 ^ 63) then some (negate n) else none)
            else if ltb n (2 ^ 63)
            then some (pos n)
            else none)
    ]
  where
    negate : ℕ → ℤ
    negate zero = pos 0
    negate (suc n) = negsuc n

abbrev pub after_fraction : Str → Str
after_fraction s = skip_digits (tail s)

unfoldable pub read_number : Str → ArgValue × Str
read_number s =
    let whole = skip_digits (if peek s == b'-' then tail s else s) in
    if peek whole == b'.'
    then (record { int_value = none; raw = span s (after_fraction whole) }, after_fraction whole)
    else (record { int_value = atoi (span s whole); raw = span s whole }, whole)
