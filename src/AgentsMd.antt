-- ===== src/AgentsMd.antt =====
-- The Never rules of AGENTS.md on a push (plane/application/agentsmd): policy.go, evaluate.go and
-- merge.go. path.Match is an argument, `none` being its error.
pub mod Union
mod Tests
use gitscale.Common.{
  ℕ, zero, suc, ◌+◌, ◌/◌, ◌%◌, Bool, true, false, ◌||◌, ◌&&◌, not, Option, none, some, List, [],
  ◌∷◌, ◌++◌, drop, take, ◌-◌, length, if◌then◌else◌,
}
use gitscale.Common.Int.{ℤ, pos, negsuc, leb_ℤ}
use gitscale.Common.Str.{Str, Str_eq, codes, has_prefix, has_suffix}

-- The names of version 1, and any other name.
pub data PredicateName : Type 0 where
  force_push_to_branch delete_branch push_to_branch modify_path push_binary_over_size :
      PredicateName
  unknown_name : Str → PredicateName

abbrev pub name_text : PredicateName → Str
name_text force_push_to_branch = codes "force_push_to_branch"
name_text delete_branch = codes "delete_branch"
name_text push_to_branch = codes "push_to_branch"
name_text modify_path = codes "modify_path"
name_text push_binary_over_size = codes "push_binary_over_size"
name_text (unknown_name s) = s

pub record PredicateSelector : Type 0 where
  pub branch_glob : Str
  pub path_glob : Str
  pub max_bytes : ℤ

pub record NeverPredicate : Type 0 where
  pub name : PredicateName
  pub selector : PredicateSelector

pub record AgentsPolicy : Type 0 where
  pub schema_version : Str
  pub empty : Bool
  pub never : List NeverPredicate

pub record RefUpdate : Type 0 where
  pub ref_name : Str
  pub old_oid : Str
  pub new_oid : Str

-- `none` is an error.
pub record FileResolver : Type 0 where
  pub changed : Str → Str → Option (List Str)
  pub size : Str → Str → Option ℤ
  pub is_fast_forward : Str → Str → Option Bool

-- The texts of a Violation's reason, by what they name.
pub data Reason : Type 0 where
  deletion_blocked push_blocked force_push_blocked : (branch glob : Str) → Reason
  path_blocked : (path glob : Str) → Reason
  blob_too_large : (path : Str) (size limit : ℤ) → Reason

pub record Violation : Type 0 where
  pub predicate : NeverPredicate
  pub ref_name : Str
  pub reason : Reason

abbrev pub zero_oid : Str
zero_oid = codes "0000000000000000000000000000000000000000"

abbrev heads : Str
heads = codes "refs/heads/"

unfoldable pub branch_name : Str → Str
branch_name r = if has_prefix r heads then drop (length heads) r else r

module _ (path_match : Str → Str → Option Bool) where
  abbrev matched : Option Bool → Bool
  matched none = false
  matched (some b) = b

  unfoldable pub glob_match : Str → Str → Bool
  glob_match [] name = false
  glob_match (c ∷ glob) name = matched (path_match (c ∷ glob) name)

  unfoldable pub branch_matches : Str → Str → Bool
  branch_matches glob r =
      if has_prefix r heads then glob_match glob (drop (length heads) r) else false

  -- strings.TrimSuffix of a glob that ends so
  abbrev without_stars : Str → Str
  without_stars glob = take (length glob - 3) glob

  unfoldable pub path_matches : Str → Str → Bool
  path_matches glob p =
      if has_suffix glob (codes "/**")
      then (Str_eq p (without_stars glob) || has_prefix p (without_stars glob ++ codes "/"))
      else if Str_eq glob (codes "**")
      then true
      else matched (path_match glob p)

  -- The loop over the changed paths: the first that matches.
  unfoldable pub first_path : Str → List Str → Option Reason
  first_path glob [] = none
  first_path glob (p ∷ ps) =
      let rest = first_path glob ps in
      if path_matches glob p then some (path_blocked p glob) else rest

  -- The loop over their sizes; the outer `none` is an error.
  unfoldable pub first_large : FileResolver → Str → ℤ → List Str → Option (Option Reason)
  first_large files oid limit [] = some none
  first_large files oid limit (p ∷ ps) =
      let rest = first_large files oid limit ps in
      elim (files.size oid p) [
        | none ↦ none
        | some sz ↦ (if leb_ℤ sz limit then rest else some (some (blob_too_large p sz limit)))
      ]

  -- The outer `none` is an error, the inner one no match.
  unfoldable pub match_predicate :
      NeverPredicate → RefUpdate → Option FileResolver → Option (Option Reason)
  match_predicate pred upd files = by_name pred.name
    where
      branch : Str
      branch = branch_name upd.ref_name

      glob : Str
      glob = pred.selector.branch_glob

      on_branch : Option (Option Reason) → Option (Option Reason)
      on_branch r = if branch_matches glob upd.ref_name then r else some none

      by_name : PredicateName → Option (Option Reason)
      by_name delete_branch = on_branch (
          if Str_eq upd.new_oid zero_oid
          then some (some (deletion_blocked branch glob))
          else some none)
      by_name push_to_branch = on_branch (some (some (push_blocked branch glob)))
      by_name force_push_to_branch = on_branch (
          if Str_eq upd.old_oid zero_oid || Str_eq upd.new_oid zero_oid
          then some none
          else elim files [
            | none ↦ none
            | some fs ↦ elim (fs.is_fast_forward upd.old_oid upd.new_oid) [
              | none ↦ none
              | some true ↦ some none
              | some false ↦ some (some (force_push_blocked branch glob))
            ]
          ])
      by_name modify_path = elim files [
        | none ↦ none
        | some fs ↦ elim (fs.changed upd.old_oid upd.new_oid) [
          | none ↦ none
          | some paths ↦ some (first_path pred.selector.path_glob paths)
        ]
      ]
      by_name push_binary_over_size = elim files [
        | none ↦ none
        | some fs ↦ elim (fs.changed upd.old_oid upd.new_oid) [
          | none ↦ none
          | some paths ↦ first_large fs upd.new_oid pred.selector.max_bytes paths
        ]
      ]
      by_name (unknown_name s) = some none

  abbrev add_violation :
      NeverPredicate → RefUpdate → Option Reason → List Violation → List Violation
  add_violation pred upd none vs = vs
  add_violation pred upd (some r) vs =
      record { predicate = pred; ref_name = upd.ref_name; reason = r } ∷ vs

  -- The inner loop of Evaluate, over the updates.
  unfoldable pub match_updates :
      Option FileResolver → NeverPredicate → List RefUpdate → Option (List Violation)
  match_updates files pred [] = some []
  match_updates files pred (upd ∷ upds) = elim (match_predicate pred upd files) [
    | none ↦ none
    | some m ↦ elim (match_updates files pred upds) [
      | none ↦ none
      | some vs ↦ some (add_violation pred upd m vs)
    ]
  ]

  unfoldable pub match_all :
      Option FileResolver → List RefUpdate → List NeverPredicate → Option (List Violation)
  match_all files upds [] = some []
  match_all files upds (p ∷ ps) = elim (match_updates files p upds) [
    | none ↦ none
    | some vs ↦ elim (match_all files upds ps) [ none ↦ none | some ws ↦ some (vs ++ ws) ]
  ]

  unfoldable pub evaluate :
      Option AgentsPolicy → List RefUpdate → Option FileResolver → Option (List Violation)
  evaluate none upds files = some []
  evaluate (some policy) upds files =
      if policy.empty then some [] else match_all files upds policy.never

-- A number's decimal digits, least significant first, on fuel.
abbrev digits_of : ℕ → ℕ → Str
digits_of zero n = []
digits_of (suc f) zero = []
digits_of (suc f) (suc n) = (b'0' + suc n % 10) ∷ digits_of f (suc n / 10)

abbrev backwards : Str → Str → Str
backwards [] acc = acc
backwards (c ∷ s) acc = backwards s (c ∷ acc)

-- itoa64, without its overflow at the least int64.
unfoldable pub itoa64 : ℤ → Str
itoa64 (pos zero) = codes "0"
itoa64 (pos (suc n)) = backwards (digits_of 19 (suc n)) []
itoa64 (negsuc n) = b'-' ∷ backwards (digits_of 19 (suc n)) []

unfoldable pub key : NeverPredicate → Str
key p =
    name_text p.name
    ++ b'|'
      ∷ (p.selector.branch_glob
          ++ b'|' ∷ (p.selector.path_glob ++ b'|' ∷ itoa64 p.selector.max_bytes))

unfoldable pub has_key : Str → List Str → Bool
has_key k [] = false
has_key k (j ∷ js) = Str_eq j k || has_key k js

-- The loops of Merge, one after the other; `seen` is the set of keys.
unfoldable pub keep_new : List Str → List NeverPredicate → List NeverPredicate
keep_new seen [] = []
keep_new seen (p ∷ ps) =
    let dropped = keep_new seen ps in
    let kept = keep_new (key p ∷ seen) ps in if has_key (key p) seen then dropped else p ∷ kept

abbrev pub rules_of : Option AgentsPolicy → List NeverPredicate
rules_of none = []
rules_of (some policy) = if policy.empty then [] else policy.never

abbrev pub is_empty : List NeverPredicate → Bool
is_empty [] = true
is_empty (p ∷ ps) = false

unfoldable pub merge : Option AgentsPolicy → Option AgentsPolicy → AgentsPolicy
merge org repo =
    let never = keep_new [] (rules_of org ++ rules_of repo) in
    record { schema_version = codes "gitscale/v1"; empty = is_empty never; never = never }
