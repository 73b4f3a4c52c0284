-- ===== src/GraphCost/Weights.antt =====
-- The configuration of analyzer.go, and what one field costs by it. `float64` is a type `F` with
-- the operations that the code uses.
use gitscale.Common.{
  ℕ, Bool, ◌&&◌, not, Option, none, some, List, [], ◌∷◌, length, ltb, ◌==◌, if◌then◌else◌,
}
use gitscale.Common.Int.{ℤ, pos, leb_ℤ}
use gitscale.Common.Map.{lookup}
use gitscale.Common.Str.{Str, Str-discrete, codes}
use gitscale.GraphCost.{ArgValue}
use gitscale.GraphCost.Lexer.{peek, tail, is_empty, atoi}

-- `scale c d` is int(math.Ceil(float64(c) * d)), and `truncate x` is int(x).
pub record Floats (F : Type 0) : Type 0 where
  pub half : F
  pub is_positive : F → Bool
  pub scale : ℕ → F → ℕ
  pub truncate : F → ℤ

pub data PrincipalKind : Type 0 where
  principal_unknown principal_human principal_agent : PrincipalKind

-- A kind that a map does not have is `none`.
pub record Limits (F : Type 0) : Type 0 where
  pub max_depth : PrincipalKind → Option ℤ
  pub max_complexity : PrincipalKind → Option ℤ
  pub persisted_discount : F
  pub default_first : ℤ
  pub max_first : ℤ

abbrev pub default_max_depth : PrincipalKind → Option ℤ
default_max_depth principal_unknown = none
default_max_depth principal_human = some (pos 10)
default_max_depth principal_agent = some (pos 8)

abbrev pub default_max_complexity : PrincipalKind → Option ℤ
default_max_complexity principal_unknown = none
default_max_complexity principal_human = some (pos 1000)
default_max_complexity principal_agent = some (pos 5000)

abbrev pub default_limits : {F : Type 0} → Floats F → Limits F
default_limits fl = record {
  max_depth = default_max_depth;
  max_complexity = default_max_complexity;
  persisted_discount = fl.half;
  default_first = pos 20;
  max_first = pos 100;
}

pub record Weight : Type 0 where
  pub weight : ℕ
  pub multipliers : List Str

pub record FieldWeights : Type 0 where
  pub default : ℕ
  pub per_type : List (Str × List (Str × Weight))

abbrev flat : ℕ → Weight
flat n = record { weight = n; multipliers = [] }

abbrev paged : ℕ → Weight
paged n = record { weight = n; multipliers = codes "first" ∷ [] }

abbrev pub default_field_weights : FieldWeights
default_field_weights = record {
  default = 1;
  per_type =
      (
        codes "Query",
        (codes "repository", flat 1)
            ∷ (codes "user", flat 1)
            ∷ (codes "agent", flat 1)
            ∷ (codes "pullRequest", flat 2)
            ∷ (codes "organization", flat 1)
            ∷ [],
      )
      ∷ (
        codes "Repository",
        (codes "owner", flat 1) ∷ (codes "pullRequests", paged 2) ∷ (codes "issues", paged 2) ∷ [],
      )
      ∷ (codes "Organization", (codes "members", paged 2) ∷ [])
      ∷ (
        codes "Mutation",
        (codes "createPullRequest", flat 10)
            ∷ (codes "createAgent", flat 10)
            ∷ (codes "updateAgentPermissions", flat 10)
            ∷ [],
      )
      ∷ [];
}

pub record Analyzer (F : Type 0) : Type 0 where
  pub limits : Limits F
  pub weights : FieldWeights
  pub root_query : Str
  pub root_mut : Str

-- New
abbrev pub or_default : ℤ → ℕ → ℤ
or_default n d = if leb_ℤ n (pos 0) then pos d else n

abbrev pub new_analyzer : {F : Type 0} → Limits F → FieldWeights → Analyzer F
new_analyzer lim w = record {
  limits = record lim {
    default_first = or_default lim.default_first 20;
    max_first = or_default lim.max_first 100;
  };
  weights = w;
  root_query = codes "Query";
  root_mut = codes "Mutation";
}

abbrev pub child_types : List (Str × List (Str × Str))
child_types =
    (
      codes "Query",
      (codes "repository", codes "Repository")
          ∷ (codes "user", codes "User")
          ∷ (codes "agent", codes "Agent")
          ∷ (codes "pullRequest", codes "PullRequest")
          ∷ (codes "organization", codes "Organization")
          ∷ [],
    )
    ∷ (
      codes "Repository",
      (codes "owner", codes "User")
          ∷ (codes "pullRequests", codes "PullRequestConnection")
          ∷ (codes "issues", codes "IssueConnection")
          ∷ (codes "defaultBranch", codes "Ref")
          ∷ [],
    )
    ∷ (codes "Organization", (codes "members", codes "UserConnection") ∷ [])
    ∷ (
      codes "PullRequestConnection",
      (codes "nodes", codes "PullRequest") ∷ (codes "pageInfo", codes "PageInfo") ∷ [],
    )
    ∷ (
      codes "IssueConnection",
      (codes "nodes", codes "Issue") ∷ (codes "pageInfo", codes "PageInfo") ∷ [],
    )
    ∷ (
      codes "UserConnection",
      (codes "nodes", codes "User") ∷ (codes "pageInfo", codes "PageInfo") ∷ [],
    )
    ∷ (codes "PullRequest", (codes "author", codes "User") ∷ [])
    ∷ (
      codes "Mutation",
      (codes "createPullRequest", codes "CreatePullRequestPayload")
          ∷ (codes "createAgent", codes "CreateAgentPayload")
          ∷ (codes "updateAgentPermissions", codes "UpdateAgentPermissionsPayload")
          ∷ [],
    )
    ∷ (codes "CreatePullRequestPayload", (codes "pullRequest", codes "PullRequest") ∷ [])
    ∷ (codes "CreateAgentPayload", (codes "agent", codes "Agent") ∷ [])
    ∷ (codes "UpdateAgentPermissionsPayload", (codes "agent", codes "Agent") ∷ [])
    ∷ []

-- A map of maps read at two keys.
abbrev lookup_two : {V : Type 0} → Str → Str → List (Str × List (Str × V)) → Option V
lookup_two k j m = elim (lookup Str-discrete k m) [
  | none ↦ none
  | some inner ↦ lookup Str-discrete j inner
]

unfoldable pub weight_for : FieldWeights → Str → Str → Weight
weight_for w parent name = elim (lookup_two parent name w.per_type) [
  | none ↦ record { weight = w.default; multipliers = [] }
  | some x ↦ x
]

unfoldable pub child_type : Str → Str → Str
child_type parent name = elim (lookup_two parent name child_types) [
  | none ↦ codes "_unknown_"
  | some t ↦ t
]

-- The values of `vars` that coerceInt tells apart. int64 and int are of one width.
pub data Any (F : Type 0) : Type 0 where
  int int32 int64 : ℤ → Any F
  float64 : F → Any F
  json_number : Str → Any F
  other : Any F

abbrev or_zero : Option ℤ → ℤ
or_zero none = pos 0
or_zero (some n) = n

module _ {F : Type 0} (fl : Floats F) where
  unfoldable pub coerce_int : Any F → ℤ
  coerce_int (int n) = n
  coerce_int (int32 n) = n
  coerce_int (int64 n) = n
  coerce_int (float64 x) = fl.truncate x
  coerce_int (json_number s) = or_zero (atoi s)
  coerce_int other = pos 0

  -- A nil `vars` is the empty map.
  unfoldable pub int_arg : List (Str × ArgValue) → Str → List (Str × Any F) → ℤ
  int_arg args name vars = elim (lookup Str-discrete name args) [
    | none ↦ pos 0
    | some v ↦ elim v.int_value [
      | some n ↦ n
      | none ↦
          (if ltb 1 (length v.raw) && peek v.raw == b'$'
            then elim (lookup Str-discrete (tail v.raw) vars) [
              | none ↦ pos 0
              | some x ↦ coerce_int x
            ]
            else or_zero (atoi v.raw))
    ]
  ]

  abbrev is_pos : ℤ → Bool
  is_pos n = leb_ℤ (pos 1) n

  -- walkField's loop over the multipliers, which the first positive argument ends.
  unfoldable pub multiplier_loop : ℤ → List (Str × ArgValue) → List (Str × Any F) → List Str → ℤ
  multiplier_loop max_first args vars [] = pos 1
  multiplier_loop max_first args vars (name ∷ names) =
      let rest = multiplier_loop max_first args vars names in
      let v = int_arg args name vars in
      if is_pos v then (if leb_ℤ v max_first then v else max_first) else rest

  unfoldable pub multiplier : Limits F → List (Str × ArgValue) → List (Str × Any F) → List Str → ℤ
  multiplier lim args vars names =
      if not (is_empty names) && leb_ℤ (int_arg args (first names) vars) (pos 0)
      then lim.default_first
      else multiplier_loop lim.max_first args vars names
    where
      first : List Str → Str
      first [] = []
      first (n ∷ ns) = n
