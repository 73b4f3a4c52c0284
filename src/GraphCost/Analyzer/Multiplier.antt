-- ===== src/GraphCost/Analyzer/Multiplier.antt =====
-- The multiplier of a paginated field (analyzer.go, walkField).
use gitscale.Common.{
  ℕ, zero, suc, ◌≡◌, refl, true, ◌&&◌, not, List, [], ◌∷◌, ◌⊎◌, inl, inr, if_rule, arith,
}
use gitscale.Common.Int.{ℤ, pos, negsuc, leb_ℤ, ◌≤ℤ◌}
use gitscale.Common.Str.{Str}
use gitscale.GraphCost.{ArgValue}
use gitscale.GraphCost.Lexer.{is_empty}
use gitscale.GraphCost.Weights.{
  Floats, Limits, FieldWeights, Any, new_analyzer, or_default, int_arg, multiplier_loop, multiplier,
}

leb_ℤ→le : (x y : ℤ) → leb_ℤ x y ≡ true → x ≤ℤ y
leb_ℤ→le x y e = ground arith

or_default-pos : (n : ℤ) (d : ℕ) → pos 1 ≤ℤ or_default n (suc d)
or_default-pos (pos zero) d = omega arith
or_default-pos (pos (suc n)) d = ground arith
or_default-pos (negsuc n) d = ground arith

module _ {F : Type 0} (fl : Floats F) where
  abbrev Within : ℤ → ℤ → Type 0
  Within top v = (pos 1 ≤ℤ v) × (v ≤ℤ top)

  multiplier_loop-Within :
      (top : ℤ) (args : List (Str × ArgValue)) (vars : List (Str × Any F)) (names : List Str)
      → pos 1 ≤ℤ top
      → Within top (multiplier_loop fl top args vars names)
  unfolding multiplier_loop
  multiplier_loop-Within top args vars [] h = (omega arith, h)
  multiplier_loop-Within top args vars (name ∷ names) h =
      let v = int_arg fl args name vars in
      if_rule (Within top) (leb_ℤ (pos 1) v)
        (λ positive.
          if_rule (Within top) (leb_ℤ v top)
            (λ small. (leb_ℤ→le (pos 1) v positive, leb_ℤ→le v top small)) (λ _. (h, omega arith)))
        (λ _. multiplier_loop-Within top args vars names h)

  -- Whatever the arguments and the variables of a query are, zero, negative, too large or no
  -- numbers at all, an analyzer that New made scales a field by at least 1, and by at most
  -- MaxFirst or exactly DefaultFirst.
  pub multiplier-bounds :
      (lim : Limits F) (w : FieldWeights) (args : List (Str × ArgValue)) (vars : List (Str × Any F))
      (names : List Str)
      → let made = (new_analyzer lim w).limits in
        let m = multiplier fl made args vars names in
        (pos 1 ≤ℤ m) × ((m ≤ℤ made.max_first) ⊎ (m ≡ made.default_first))
  unfolding multiplier
  multiplier-bounds lim w args vars names =
      let made = (new_analyzer lim w).limits in
      if_rule (λ m. (pos 1 ≤ℤ m) × ((m ≤ℤ made.max_first) ⊎ (m ≡ made.default_first)))
        (not (is_empty names) && _) (λ _. (or_default-pos lim.default_first 19, inr refl))
        (λ _.
          let (low, high) =
            multiplier_loop-Within made.max_first args vars names
              (or_default-pos lim.max_first 99) in
          (low, inl high))
