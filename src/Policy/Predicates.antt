-- ===== src/Policy/Predicates.antt =====
-- Which rule fires (predicates.go). `path.Match` is an argument: `none` is ErrBadPattern.
use mathlib.Core.List.{reverse}
use gitscale.Common.{
  Bool, true, false, ◌&&◌, ◌||◌, Option, none, some, List, [], ◌∷◌, length, drop, if◌then◌else◌,
}
use gitscale.Common.Int.{ℤ, pos, leb_ℤ}
use gitscale.Common.Map.{lookup}
use gitscale.Common.Str.{Str, Str-discrete, Str_eq, codes, has_prefix, has_suffix}
use gitscale.Policy.Types.{
  PredicateKind, pr_merge, force_push, production_deploy, bulk_action, agent_default, other_kind,
  ProposerKind, is_agent, Rule, Action,
}

-- Reading a Go map of strings: an absent key reads acts "".
unfoldable pub field : Str → List (Str × Str) → Str
unfolding lookup Str-discrete
field k m = elim (lookup Str-discrete k m) [ none ↦ [] | some v ↦ v ]

abbrev pub is_blank : Str → Bool
is_blank [] = true
is_blank (_ ∷ _) = false

-- One action under matchByField: `continue`, or one of the two returns of true.
abbrev pub action_has_field : Str → Str → Str → Action → Bool
action_has_field kind key want a =
    Str_eq a.kind kind && (is_blank want || Str_eq (field key a.fields) want)

unfoldable pub match_by_field : List Action → Str → Str → Str → Bool
unfolding field
match_by_field [] kind key want = false
match_by_field (a ∷ acts) kind key want =
    action_has_field kind key want a || match_by_field acts kind key want

abbrev pub said_yes : Option Bool → Bool
said_yes none = false
said_yes (some b) = b

-- strings.TrimSuffix(pattern, "*"), used where the pattern ends in "/*".
unfoldable pub trim_star : Str → Str
unfolding has_suffix
trim_star p = if has_suffix p (codes "*") then reverse (drop 1 (reverse p)) else p

-- The three returns of true of matchByPattern for an action's field `v`.
unfoldable pub pattern_matches : (Str → Str → Option Bool) → Str → Str → Bool
unfolding has_suffix has_prefix trim_star
pattern_matches path_match pattern v =
    is_blank pattern
    || said_yes (path_match pattern v)
    || has_suffix pattern (codes "/*") && has_prefix v (trim_star pattern)

unfoldable pub match_by_pattern : (Str → Str → Option Bool) → List Action → Str → Str → Str → Bool
unfolding pattern_matches field
match_by_pattern path_match [] kind key pattern = false
match_by_pattern path_match (a ∷ acts) kind key pattern =
    Str_eq a.kind kind && pattern_matches path_match pattern (field key a.fields)
    || match_by_pattern path_match acts kind key pattern

match_threshold : Option ℤ → List Action → Bool
match_threshold none acts = false
match_threshold (some t) acts = leb_ℤ t (pos (length acts))

-- The switch of matchRule on the rule's kind.
match_kind : (Str → Str → Option Bool) → PredicateKind → Rule → List Action → ProposerKind → Bool
unfolding match_by_field match_by_pattern field match_threshold
match_kind path_match pr_merge r acts who =
    match_by_field acts (codes "pr_merge") (codes "branch") (field (codes "branch") r.match)
match_kind path_match force_push r acts who =
    match_by_pattern path_match acts (codes "force_push") (codes "ref")
      (field (codes "ref_pattern") r.match)
match_kind path_match production_deploy r acts who =
    match_by_field acts (codes "production_deploy") (codes "environment")
      (field (codes "environment") r.match)
match_kind path_match bulk_action r acts who = match_threshold r.threshold acts
match_kind path_match agent_default r acts who = is_agent who
match_kind path_match (other_kind _) r acts who = false

unfoldable pub match_rule : (Str → Str → Option Bool) → Rule → List Action → ProposerKind → Bool
unfolding match_kind
match_rule path_match r acts who = match_kind path_match r.kind r acts who
