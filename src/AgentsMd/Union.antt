-- ===== src/AgentsMd/Union.antt =====
-- Merged policies (merge.go) under Evaluate (evaluate.go).
use mathlib.Core.Path.{subst}
use gitscale.Common.{
  ◌≡◌, refl, sym, ◌∙◌, ◌↔◌, inl, inr, Bool, true, false, Option, none, some, List, [], ◌∷◌, ◌++◌,
  map, All, All-append, Contains, here, there, Bool-cases, if_rule, if◌then◌else◌, arith,
}
use gitscale.Common.Str.{Str, Str_eq}
use gitscale.AgentsMd.{
  NeverPredicate, AgentsPolicy, RefUpdate, FileResolver, Violation, match_updates, match_all,
  evaluate, key, has_key, keep_new, rules_of, is_empty, merge,
}

All-Contains : {A : Type 0} (P : A → Type 0) {x : A} {xs : List A} → Contains x xs → All P xs → P x
All-Contains P here a = a.0
All-Contains P (there c) a = All-Contains P c a.1

All-split : {A : Type 0} (P : A → Type 0) (xs ys : List A) → All P (xs ++ ys) → All P xs × All P ys
All-split P [] ys a = (tt, a)
All-split P (x ∷ xs) ys a = let (l, r) = All-split P xs ys a.1 in ((a.0, l), r)

Str_eq→eq : (s t : Str) → Str_eq s t ≡ true → s ≡ t
Str_eq→eq s t e = ground arith

has_key-Contains :
    (k : Str) (ps : List NeverPredicate)
    → has_key k (map key ps) ≡ true
    → (q : NeverPredicate) × Contains q ps × (key q ≡ k)
unfolding has_key
has_key-Contains k [] e = cc
has_key-Contains k (p ∷ ps) e = elim (Bool-cases (Str_eq (key p) k)) [
  | inl same ↦ (p, here, Str_eq→eq (key p) k same)
  | inr other ↦ let (q, c, same) = has_key-Contains k ps (rw (other) at e) in (q, there c, same)
]

-- Among these rules the keys tell the rules apart.
abbrev pub Keyed : List NeverPredicate → Type 0
Keyed l = (p q : NeverPredicate) → Contains p l → Contains q l → key p ≡ key q → p ≡ q

module _ (Q : NeverPredicate → Type 0) where
  All-keep_new : (seen : List Str) (ps : List NeverPredicate) → All Q ps → All Q (keep_new seen ps)
  unfolding keep_new
  All-keep_new seen [] a = tt
  All-keep_new seen (p ∷ ps) a =
      if_rule (λ (l : List NeverPredicate). All Q l) (has_key (key p) seen)
        (λ _. All-keep_new seen ps a.1) (λ _. (a.0, All-keep_new (key p ∷ seen) ps a.1))

  keep_new-All :
      (l : List NeverPredicate)
      → Keyed l
      → (seen ps : List NeverPredicate) → ((p : NeverPredicate) → Contains p ps → Contains p l)
      → ((p : NeverPredicate) → Contains p seen → Contains p l)
      → All Q seen
      → All Q (keep_new (map key seen) ps)
      → All Q ps
  unfolding keep_new
  keep_new-All l keyed seen [] in_l seen_l old kept = tt
  keep_new-All l keyed seen (p ∷ ps) in_l seen_l old kept =
      elim (Bool-cases (has_key (key p) (map key seen))) [
        | inl dup ↦
            let (q, c, same) = has_key-Contains (key p) seen dup in
            let found = keyed q p (seen_l q c) (in_l p here) same in
            (
              subst Q found (All-Contains Q c old),
              keep_new-All l keyed seen ps (λ r d. in_l r (there d)) seen_l old
                  (subst
                    (λ b. All Q (
                      if b
                      then keep_new (map key seen) ps
                      else p ∷ keep_new (key p ∷ map key seen) ps))
                    dup kept),
            )
        | inr new ↦
            let kept' =
              subst
                (λ b. All Q (
                  if b then keep_new (map key seen) ps else p ∷ keep_new (key p ∷ map key seen) ps))
                new kept in
            (
              kept'.0,
              keep_new-All l keyed (p ∷ seen) ps (λ r d. in_l r (there d))
                  (among (in_l p here) seen_l) (kept'.0, old) kept'.1,
            )
      ]
    where
      among :
          Contains p l
          → ((r : NeverPredicate) → Contains r seen → Contains r l)
          → (r : NeverPredicate) → Contains r (p ∷ seen)
          → Contains r l
      among at_l others r here = at_l
      among at_l others r (there d) = others r d

module _ (path_match : Str → Str → Option Bool) (files : Option FileResolver)
    (upds : List RefUpdate) where
  abbrev Quiet : NeverPredicate → Type 0
  Quiet p = match_updates path_match files p upds ≡ some []

  both-empty :
      (o o' : Option (List Violation))
      → elim o [ none ↦ none | some vs ↦ elim o' [ none ↦ none | some ws ↦ some (vs ++ ws) ] ]
        ≡ some []
      → (o ≡ some []) × (o' ≡ some [])
  both-empty none o' e = cc
  both-empty (some vs) none e = cc
  both-empty (some []) (some ws) e = (refl, e)
  both-empty (some (v ∷ vs)) (some ws) e = cc

  joined :
      (o o' : Option (List Violation))
      → o ≡ some []
      → o' ≡ some []
      → elim o [ none ↦ none | some vs ↦ elim o' [ none ↦ none | some ws ↦ some (vs ++ ws) ] ]
        ≡ some []
  joined none o' e e' = cc
  joined (some vs) none e e' = cc
  joined (some []) (some ws) e e' = e'
  joined (some (v ∷ vs)) (some ws) e e' = cc

  match_all-All :
      (ps : List NeverPredicate) → match_all path_match files upds ps ≡ some [] → All Quiet ps
  unfolding match_all
  match_all-All [] e = tt
  match_all-All (p ∷ ps) e =
      let (now_quiet, rest) = both-empty _ _ e in (now_quiet, match_all-All ps rest)

  All-match_all :
      (ps : List NeverPredicate) → All Quiet ps → match_all path_match files upds ps ≡ some []
  unfolding match_all
  All-match_all [] a = refl
  All-match_all (p ∷ ps) a = joined _ _ a.0 (All-match_all ps a.1)

  evaluate-rules :
      (policy : Option AgentsPolicy)
      → evaluate path_match policy upds files ≡ match_all path_match files upds (rules_of policy)
  unfolding evaluate match_all
  evaluate-rules none = refl
  evaluate-rules (some policy) = by_empty policy.empty
    where
      by_empty :
          (b : Bool)
          → (if b then some [] else match_all path_match files upds policy.never)
            ≡ match_all path_match files upds (if b then [] else policy.never)
      by_empty true = refl
      by_empty false = refl

  evaluate-merge_rules :
      (org repo : Option AgentsPolicy)
      → evaluate path_match (some (merge org repo)) upds files
        ≡ match_all path_match files upds (keep_new [] (rules_of org ++ rules_of repo))
  unfolding evaluate merge match_all
  evaluate-merge_rules org repo = by_rules (keep_new [] (rules_of org ++ rules_of repo))
    where
      by_rules :
          (ps : List NeverPredicate)
          → (if is_empty ps then some [] else match_all path_match files upds ps)
            ≡ match_all path_match files upds ps
      by_rules [] = refl
      by_rules (p ∷ ps) = refl

-- A push passes the merged policy, with no violation and no error, just where it passes the
-- organisation's policy and the repository's: a repository's file takes nothing from its
-- organisation's rules, and a rule that is dropped as a duplicate is enforced by the one it repeats.
-- It has the condition that the keys tell the rules apart.
pub evaluate-merge :
    (path_match : Str → Str → Option Bool) (org repo : Option AgentsPolicy) (upds : List RefUpdate)
    (files : Option FileResolver)
    → Keyed (rules_of org ++ rules_of repo)
    → (evaluate path_match (some (merge org repo)) upds files ≡ some []) ↔ (
        (evaluate path_match org upds files ≡ some [])
        × (evaluate path_match repo upds files ≡ some []))
evaluate-merge path_match org repo upds files keyed = (
  (λ e.
      let kept =
        match_all-All path_match files upds _
          (sym (evaluate-merge_rules path_match files upds org repo) ∙ e) in
      let (of_org, of_repo) =
        All-split Q (rules_of org) (rules_of repo)
          (keep_new-All Q rules keyed [] rules (λ p c. c) (λ p c. elim c [ ]) tt kept) in
      (
        evaluate-rules path_match files upds org ∙ All-match_all path_match files upds _ of_org,
        evaluate-rules path_match files upds repo ∙ All-match_all path_match files upds _ of_repo,
      )),
  λ (of_org, of_repo).
      evaluate-merge_rules path_match files upds org repo
      ∙ All-match_all path_match files upds _ (
          All-keep_new Q [] rules (
            All-append Q (rules_of org) (rules_of repo)
              (match_all-All path_match files upds _
                (sym (evaluate-rules path_match files upds org) ∙ of_org))
              (match_all-All path_match files upds _
                (sym (evaluate-rules path_match files upds repo) ∙ of_repo)))),
)
  where
    Q : NeverPredicate → Type 0
    Q = Quiet path_match files upds

    rules : List NeverPredicate
    rules = rules_of org ++ rules_of repo
