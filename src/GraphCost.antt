-- ===== src/GraphCost.antt =====
-- The pre-execution cost check of GraphQL queries (plane/application/graphql/cost): the documents
-- that parser.go reads and analyzer.go walks, and the outcome of both.
pub mod Lexer
pub mod Parser
pub mod Weights
pub mod Analyzer
mod Tests
use mathlib.Core.Path.{subst}
use gitscale.Common.{ℕ, ◌≡◌, refl, ◌≢◌, Bool, true, false, if◌then◌else◌, Option, List}
use gitscale.Common.Int.{ℤ}
use gitscale.Common.Str.{Str}

-- What wraps ErrParse. The message's offset is left out.
pub data ParseError : Type 0 where
  trailing_input subscriptions_unsupported expected_definition no_operations : ParseError
  fragment_without_name fragment_without_on fragment_without_type : ParseError
  unclosed_selection_set no_field_name no_field_name_after_alias : ParseError
  unclosed_args no_arg_name no_value unterminated_block_string unterminated_string : ParseError
  unexpected_token : Str → ParseError
  expected unexpected_character : ℕ → ParseError
  unbalanced : ℕ → ℕ → ParseError

-- `out_of_fuel` has no counterpart in the program.
pub data Result (E A : Type 0) : Type 0 where
  ok : A → Result E A
  failed : E → Result E A
  out_of_fuel : Result E A

module _ {E A B : Type 0} where
  infixl 5 ◌>>=◌
  abbrev pub ◌>>=◌ : Result E A → (A → Result E B) → Result E B
  ok a >>= f = f a
  failed e >>= f = failed e
  out_of_fuel >>= f = out_of_fuel

module _ {E A : Type 0} where
  -- The run kept within its fuel, and `P` holds of its value if it has one.
  pub data Ensures (P : A → Type 0) : Result E A → Type 0 where
    holds : {a : A} → P a → Ensures P (ok a)
    rejected : {e : E} → Ensures P (failed e)

pub data OperationKind : Type 0 where
  op_query op_mutation : OperationKind

pub record ArgValue : Type 0 where
  pub int_value : Option ℤ
  pub raw : Str

-- A Selection with its FragmentRef, and a list of them.
mutual
  pub data Selections : Type 0 where
    no_selections : Selections
    select : Selection → Selections → Selections

  pub data Selection : Type 0 where
    sel_field : Field → Selection
    sel_fragment_spread : (name : Str) → Selection
    sel_inline_fragment : (on_type : Str) (sels : Selections) → Selection

  pub data Field : Type 0 where
    field :
        (name alias : Str) (args : List (Str × ArgValue)) (directives : List Str)
        (sels : Selections)
        → Field

pub record Operation : Type 0 where
  pub kind : OperationKind
  pub name : Str
  pub sels : Selections

pub record Fragment : Type 0 where
  pub name : Str
  pub on_type : Str
  pub sels : Selections

pub record Document : Type 0 where
  pub operations : List Operation
  pub fragments : List (Str × Fragment)

module _ {E A : Type 0} {P : A → Type 0} where
  pub Ensures-ok : {r : Result E A} {a : A} → Ensures P r → r ≡ ok a → P a
  Ensures-ok (holds h) e = subst P (cc) h
  Ensures-ok rejected e = cc

  pub Ensures-fueled : {r : Result E A} → Ensures P r → r ≢ out_of_fuel
  Ensures-fueled (holds h) = cc
  Ensures-fueled rejected = cc

  pub Ensures-if :
      (b : Bool) {x y : Result E A}
      → (b ≡ true → Ensures P x)
      → (b ≡ false → Ensures P y)
      → Ensures P (if b then x else y)
  Ensures-if true hx hy = hx refl
  Ensures-if false hx hy = hy refl

  pub Ensures-bind :
      {B : Type 0} {Q : B → Type 0} {r : Result E A} {f : A → Result E B}
      → Ensures P r
      → ((a : A) → P a → Ensures Q (f a))
      → Ensures Q (r >>= f)
  Ensures-bind (holds {a} h) k = k a h
  Ensures-bind rejected k = rejected

  pub Ensures-weaken :
      {Q : A → Type 0} {r : Result E A} → Ensures P r → ((a : A) → P a → Q a) → Ensures Q r
  Ensures-weaken (holds {a} h) k = holds (k a h)
  Ensures-weaken rejected k = rejected

module _ {E A B : Type 0} where
  -- Both halves of a sequence that ends well end well.
  pub >>=-ok :
      (r : Result E A) (f : A → Result E B) {b : B}
      → (r >>= f) ≡ ok b
      → (a : A) × (r ≡ ok a) × (f a ≡ ok b)
  >>=-ok (ok a) f e = (a, refl, e)
  >>=-ok (failed x) f e = cc
  >>=-ok out_of_fuel f e = cc
