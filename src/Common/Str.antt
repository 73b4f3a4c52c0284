-- ===== src/Common/Str.antt =====
-- Go's `string` and `[]byte`: the list of its bytes.
use Prim.Native.Char.{code}
use Prim.Native.String.{String}
use mathlib.Core.List.{reverse}
use gitscale.Common.{
  ℕ, zero, suc, ◌*◌, ◌/◌, ◌%◌, ◌^◌, ◌≡◌, refl, Bool, true, false, List, [], ◌∷◌, ℕ_discrete, ◌==◌,
  leb, if◌then◌else◌,
}

abbrev pub Str : Type 0
Str = List ℕ

-- A Go literal. The source's are ASCII, so their code points are their bytes.
abbrev pub codes : String → Str
codes String.[] = []
codes (String.◌∷◌ c s) = code c ∷ codes s

unfoldable pub Str-discrete : Discrete Str
unfolding ℕ_discrete
Str-discrete = hlevel ℕ_discrete

abbrev pub Str_eq : Str → Str → Bool
Str_eq a b = elim (Str-discrete a b) [ yes _ ↦ true | no _ ↦ false ]

literals_differ : Str_eq (codes "branch") (codes "branchy") ≡ false
unfolding Str-discrete
literals_differ = refl

-- Go's `<=` on strings: byte by byte, a prefix first.
unfoldable pub leb_Str : Str → Str → Bool
leb_Str [] _ = true
leb_Str (_ ∷ _) [] = false
leb_Str (a ∷ s) (b ∷ t) = let rest = leb_Str s t in if a == b then rest else leb a b

-- strings.HasPrefix
unfoldable pub has_prefix : Str → Str → Bool
has_prefix s [] = true
has_prefix [] (_ ∷ _) = false
has_prefix (a ∷ s) (b ∷ p) = let rest = has_prefix s p in if a == b then rest else false

-- strings.HasSuffix
unfoldable pub has_suffix : Str → Str → Bool
unfolding has_prefix
has_suffix s p = has_prefix (reverse s) (reverse p)

-- Go's `%` and shifts on an unsigned value, most significant byte first, in `k` bytes.
unfoldable pub big_endian : ℕ → ℕ → Str
big_endian zero n = []
big_endian (suc k) n = (n / 2 ^ (8 * k) % 256) ∷ big_endian k n

-- sort.Strings over the keys of a map, with the entries carried along.
module _ {A : Type 0} where
  pub insert_sorted : Str × A → List (Str × A) → List (Str × A)
  insert_sorted e [] = e ∷ []
  insert_sorted (k, v) ((j, w) ∷ es) =
      let rest = insert_sorted (k, v) es in
      if leb_Str k j then (k, v) ∷ (j, w) ∷ es else (j, w) ∷ rest

  unfoldable pub sort_keys : List (Str × A) → List (Str × A)
  unfolding insert_sorted leb_Str
  sort_keys [] = []
  sort_keys (e ∷ es) = insert_sorted e (sort_keys es)
