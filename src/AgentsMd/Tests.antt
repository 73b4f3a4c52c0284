-- ===== src/AgentsMd/Tests.antt =====
-- Policies of an organisation and a repository on a push.
use mathlib.Core.Option
use gitscale.Common.{
  length, ℕ, ◌≡◌, refl, ap, arith, ◌↔◌, Bool, false, Option, none, some, List, [], ◌∷◌, ◌++◌, here,
  there, ℕ_discrete,
}
use gitscale.Common.Int.{pos}
use gitscale.Common.Str.{Str, Str_eq, codes, has_prefix, Str-discrete}
use gitscale.AgentsMd.{
  NeverPredicate, AgentsPolicy, RefUpdate, evaluate, merge, rules_of, key, delete_branch,
  push_to_branch, PredicateName, zero_oid, keep_new, has_key, match_all, match_updates,
  match_predicate, branch_matches, branch_name, glob_match, itoa64,
}
use gitscale.AgentsMd.Union.{Keyed, evaluate-merge}

-- A matcher of names without wildcards.
abbrev literal : Str → Str → Option Bool
literal glob name = some (Str_eq glob name)

abbrev never : PredicateName → Str → NeverPredicate
never name glob = record {
  name = name;
  selector = record { branch_glob = glob; path_glob = []; max_bytes = pos 0 };
}

abbrev policy : List NeverPredicate → Option AgentsPolicy
policy rules = some (record { schema_version = codes "gitscale/v1"; empty = false; never = rules })

abbrev org : Option AgentsPolicy
org = policy (never delete_branch (codes "main") ∷ [])

abbrev repo : Option AgentsPolicy
repo = policy (never push_to_branch (codes "main") ∷ [])

abbrev push : RefUpdate
push = record { ref_name = codes "refs/heads/dev"; old_oid = codes "a1"; new_oid = codes "b2" }

abbrev deletion : RefUpdate
deletion = record { ref_name = codes "refs/heads/main"; old_oid = codes "a1"; new_oid = zero_oid }

abbrev first_byte : Str → ℕ
first_byte [] = 0
first_byte (c ∷ s) = c

rules-Keyed : Keyed (rules_of org ++ rules_of repo)
unfolding key
rules-Keyed p q here here e = refl
rules-Keyed p q here (there here) e = absurd (omega (arith, ap first_byte e))
rules-Keyed p q (there here) here e = absurd (omega (arith, ap first_byte e))
rules-Keyed p q (there here) (there here) e = refl
rules-Keyed p q here (there (there c)) e = elim c [ ]
rules-Keyed p q (there here) (there (there c)) e = elim c [ ]
rules-Keyed p q (there (there c)) d e = elim c [ ]

-- The organisation's rule blocks a deletion under the merged policy.
deletion_is_blocked :
    Option.map length (evaluate literal (some (merge org repo)) (deletion ∷ []) none) ≡ some 2
unfolding evaluate merge keep_new key has_key match_all match_updates match_predicate branch_matches
    branch_name glob_match has_prefix Str-discrete ℕ_discrete itoa64
deletion_is_blocked = refl

evaluate-merge_example : (evaluate literal (some (merge org repo)) (push ∷ []) none ≡ some []) ↔ (
    (evaluate literal org (push ∷ []) none ≡ some [])
    × (evaluate literal repo (push ∷ []) none ≡ some []))
evaluate-merge_example = evaluate-merge literal org repo (push ∷ []) none rules-Keyed
