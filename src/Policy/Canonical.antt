-- ===== src/Policy/Canonical.antt =====
-- Canonical JSON (CanonicalPayload and canonicalize in audit.go, CanonicalActionsJSON in plan.go).
-- `encoding/json` is the record `Codec`.
use mathlib.Core.Option
use gitscale.Common.{ℕ, Option, none, some, List, [], ◌∷◌, ◌++◌, map}
use gitscale.Common.Str.{Str, codes, sort_keys}
use gitscale.Policy.Types.{Action}

-- What json.Unmarshal yields into `any`. A scalar is known by a number; an object's fields stand in
-- one of the orders in which `range` may visit the Go map.
mutual
  pub data Json : Type 0 where
    scalar : ℕ → Json
    arr : Items → Json
    obj : Fields → Json

  pub data Items : Type 0 where
    nil : Items
    cons : Json → Items → Items

  pub data Fields : Type 0 where
    end : Fields
    member : Str → Json → Fields → Fields

pub record Codec : Type 0 where
  pub unmarshal : Str → Option Json
  pub marshal_scalar : ℕ → Option Str
  pub marshal_key : Str → Option Str
  pub marshal_actions : List Action → Option Str

infixl 5 ◌>>=◌
abbrev ◌>>=◌ : {A B : Type 0} → Option A → (A → Option B) → Option B
none >>= f = none
some a >>= f = f a

unfoldable pub join : List Str → Str
join [] = []
join (s ∷ []) = s
join (s ∷ t ∷ ss) = s ++ b',' ∷ join (t ∷ ss)

unfoldable pub wrap_array : List Str → Str
unfolding join
wrap_array ss = b'[' ∷ (join ss ++ b']' ∷ [])

-- The keys are sorted, and each member is written as key, colon, value.
unfoldable pub wrap_object : List (Str × Str) → Str
unfolding join sort_keys
wrap_object ms = b'{' ∷ (join (map (λ m. m.1) (sort_keys ms)) ++ b'}' ∷ [])

unfoldable mutual
  unfolding wrap_array wrap_object

  pub canonicalize : Codec → Json → Option Str
  canonicalize c (scalar v) = c.marshal_scalar v
  canonicalize c (arr xs) = Option.map wrap_array (canonical_items c xs)
  canonicalize c (obj fs) = Option.map wrap_object (canonical_members c fs)

  pub canonical_items : Codec → Items → Option (List Str)
  canonical_items c nil = some []
  canonical_items c (cons x xs) = do s ← canonicalize c x; ss ← canonical_items c xs; some (s ∷ ss)

  -- Each member under its key, before sorting.
  pub canonical_members : Codec → Fields → Option (List (Str × Str))
  canonical_members c end = some []
  canonical_members c (member k v fs) = do
    kj ← c.marshal_key k
    vj ← canonicalize c v
    ms ← canonical_members c fs
    some ((k, kj ++ b':' ∷ vj) ∷ ms)

unfoldable pub canonical_payload : Codec → Str → Option Str
unfolding canonicalize canonical_items canonical_members
canonical_payload c [] = some (codes "null")
canonical_payload c (b ∷ bs) = do v ← c.unmarshal (b ∷ bs); canonicalize c v

-- One action with its fields in the order of their keys.
canon_action : Action → Action
unfolding sort_keys
canon_action a = record a { fields = sort_keys a.fields }

unfoldable pub canonical_actions_json : Codec → List Action → Option Str
unfolding canon_action
canonical_actions_json c acts = c.marshal_actions (map canon_action acts)
