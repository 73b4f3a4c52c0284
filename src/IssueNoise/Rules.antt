-- ===== src/IssueNoise/Rules.antt =====
-- The rules of RuleScorer (rules/*.go) and its registry. A backend is a function whose `none` is an
-- error, and a nil backend is `none`. The regular expression, the runes of a string and
-- unicode.IsLetter are the record `Text`.
use gitscale.Common.{
  ℕ, suc, ◌≡◌, ◌≢◌, ap, ◌∙◌, All, arith, if_rule, match_rule, ◌*◌, Bool, not, ◌&&◌, ◌||◌, Option,
  none, some, List, [], ◌∷◌, ◌==◌, length, ltb, leb, if◌then◌else◌,
}
use mathlib.Core.Path.{subst}
use mathlib.Core.Option.{some-injective}
use gitscale.Common.Str.{Str, codes}
use gitscale.IssueNoise.{
  Float64, Detail, no_detail, body_length, link_count, letter_ratio, reporter_count,
  reputation_below, violation_count, top_candidate, IssueDraft,
}
use gitscale.IssueNoise.Scorer.{
  Rule, RuleResult, Category, category_spam, category_low_quality, category_duplicate,
}

pub record Text : Type 0 where
  pub url_count : Str → ℕ
  pub runes : Str → List ℕ
  pub is_letter : ℕ → Bool

-- ReporterRateCounter, ReputationLookup, AgentsMDViolationCounter, DuplicateSearcher
pub record Backends (F : Type 0) : Type 0 where
  pub rate_counter : Option (ℕ → Option ℕ)
  pub reputation_lookup : Option (ℕ → Option F)
  pub violation_counter : Option (ℕ → ℕ → Option ℕ)
  pub duplicate_searcher : Option (ℕ → Str → ℕ → Option (List (ℕ × F)))

abbrev pub length_floor : ℕ
length_floor = 30

abbrev pub length_ceiling : ℕ
length_ceiling = 50 * 1024

abbrev pub reporter_rate_threshold : ℕ
reporter_rate_threshold = 20

abbrev pub violation_threshold : ℕ
violation_threshold = 3

abbrev pub duplicate_max_k : ℕ
duplicate_max_k = 3

abbrev pub min_ascii_letters : ℕ
min_ascii_letters = 5

module _ {F : Type 0} (fl : Float64 F) where
  -- Result{}
  abbrev pub no_signal : RuleResult F
  no_signal = record {
    signal = record { name = []; weight = fl.zero; detail = no_detail };
    category = category_spam;
    duplicate_of = none;
  }

  abbrev pub fires : Category → Str → F → Detail F → RuleResult F
  fires category name weight detail = record {
    signal = record { name = name; weight = weight; detail = detail };
    category = category;
    duplicate_of = none;
  }

  -- Length
  unfoldable pub length_rule : Rule F
  length_rule d =
      let n = length d.body in
      if leb length_floor n && leb n length_ceiling
      then some no_signal
      else some (fires category_low_quality (codes "length") (fl.ratio 40 100) (body_length n))

  -- LinkDensity
  unfoldable pub link_density : Text → Rule F
  link_density txt d =
      let n = length d.body in
      let links = txt.url_count d.body in
      if ltb n 20
      then some no_signal
      else if links == 0
      then some no_signal
      else if fl.lt (fl.ratio links n) (fl.ratio 10 100)
      then some no_signal
      else some (fires category_spam (codes "link_density") (fl.ratio 30 100) (link_count links n))

  -- The loop of Language: the letters below 128, and all letters.
  unfoldable pub count_letters : Text → List ℕ → ℕ × ℕ
  count_letters txt [] = (0, 0)
  count_letters txt (r ∷ rs) =
      let (ascii, total) = count_letters txt rs in
      if not (txt.is_letter r)
      then (ascii, total)
      else if ltb r 128
      then (suc ascii, suc total)
      else (ascii, suc total)

  -- Language
  unfoldable pub language : Text → Rule F
  unfolding count_letters
  language txt d =
      let (ascii, total) = count_letters txt (txt.runes d.body) in
      let foreign = fl.sub fl.one (fl.ratio ascii total) in
      if length d.body == 0
      then some no_signal
      else if total == 0
      then some no_signal
      else if fl.lt foreign (fl.ratio 60 100) || leb min_ascii_letters ascii
      then some no_signal
      else some (
          fires category_low_quality (codes "language") (fl.ratio 20 100)
            (letter_ratio ascii foreign))

  -- ReporterRate
  unfoldable pub reporter_rate : Backends F → Rule F
  reporter_rate b d = elim b.rate_counter [
    | none ↦ some no_signal
    | some counter ↦ elim (counter d.reporter_id) [
      | none ↦ some no_signal
      | some n ↦
          if ltb n reporter_rate_threshold
          then some no_signal
          else some
              (fires category_spam (codes "reporter_rate") (fl.ratio 50 100) (reporter_count n))
    ]
  ]

  -- Reputation
  unfoldable pub reputation : Backends F → Rule F
  reputation b d = elim b.reputation_lookup [
    | none ↦ some no_signal
    | some lookup ↦ elim (lookup d.reporter_id) [
      | none ↦ some no_signal
      | some score ↦
          if fl.lt score (fl.ratio 10 100)
          then some (
              fires category_spam (codes "reputation") (fl.ratio 50 100)
                (reputation_below score (fl.ratio 10 100)))
          else if fl.lt score (fl.ratio 30 100)
          then some (
              fires category_low_quality (codes "reputation") (fl.ratio 25 100)
                (reputation_below score (fl.ratio 30 100)))
          else some no_signal
    ]
  ]

  -- AgentsMDViolations
  unfoldable pub agents_md_violations : Backends F → Rule F
  agents_md_violations b d = elim b.violation_counter [
    | none ↦ some no_signal
    | some counter ↦ elim (counter d.reporter_id d.repo_id) [
      | none ↦ some no_signal
      | some n ↦
          if ltb n violation_threshold
          then some no_signal
          else some (
              fires category_spam (codes "agentsmd_violations") (fl.ratio 40 100)
                (violation_count n))
    ]
  ]

  -- The first candidate that is not the issue itself, of the first two.
  unfoldable pub top_of : ℕ → List (ℕ × F) → Option (ℕ × F)
  top_of id [] = none
  top_of id (c ∷ []) = if c.0 == id then none else some c
  top_of id (c ∷ c' ∷ cs) = if c.0 == id then some c' else some c

  -- Duplicate, the only rule that returns an error.
  unfoldable pub duplicate_rule : Backends F → Rule F
  unfolding top_of
  duplicate_rule b d = elim b.duplicate_searcher [
    | none ↦ some no_signal
    | some search ↦
        if ltb (length d.body) 30
        then some no_signal
        else elim (search d.repo_id d.body duplicate_max_k) [
          | none ↦ none
          | some cands ↦ elim (top_of d.id cands) [
            | none ↦ some no_signal
            | some (id, score) ↦
                some
                  (record (fires category_duplicate (codes "duplicate_vespa") score
                    (top_candidate id score)) { duplicate_of = some id })
          ]
        ]
  ]

  -- NewRuleScorer
  unfoldable pub default_rules : Text → Backends F → List (Rule F)
  unfolding length_rule link_density language reporter_rate reputation agents_md_violations
      duplicate_rule
  default_rules txt b =
      link_density txt
      ∷ length_rule
      ∷ language txt
      ∷ reporter_rate b
      ∷ reputation b
      ∷ agents_md_violations b
      ∷ duplicate_rule b
      ∷ []

  -- The searcher names no issue twice.
  abbrev pub Distinct : List (ℕ × F) → Type 0
  Distinct [] = Unit
  Distinct (c ∷ cs) = All (λ x. x.0 ≢ c.0) cs × Distinct cs

  top_of-ne :
      (id : ℕ) (cs : List (ℕ × F)) (c : ℕ × F) → Distinct cs → top_of id cs ≡ some c → c.0 ≢ id
  unfolding top_of
  top_of-ne id [] c ok e = absurd (cc)
  top_of-ne id (x ∷ []) c ok e = ground arith
  top_of-ne id (x ∷ y ∷ cs) c ok e = ground arith

  -- The duplicate rule never links an issue to itself, provided that the searcher names no issue
  -- twice.
  pub duplicate_rule-ne :
      (b : Backends F) (d : IssueDraft) (search : ℕ → Str → ℕ → Option (List (ℕ × F)))
      (cands : List (ℕ × F)) (r : RuleResult F) (j : ℕ)
      → b.duplicate_searcher ≡ some search
      → search d.repo_id d.body duplicate_max_k ≡ some cands
      → Distinct cands
      → duplicate_rule b d ≡ some r
      → r.duplicate_of ≡ some j
      → j ≢ d.id
  unfolding duplicate_rule
  duplicate_rule-ne b d search cands r j known found ok =
      rw (known, found, duplicate_rule)
        (if_rule P (ltb (length d.body) 30) (λ _. silent)
          (λ _.
            match_rule P (top_of d.id cands) (λ _. silent)
              (λ c t e q.
                subst (λ k. k ≢ d.id) (some-injective c.0 j (ap linked e ∙ q))
                  (top_of-ne d.id cands c ok t))))
    where
      linked : Option (RuleResult F) → Option ℕ
      linked none = none
      linked (some y) = y.duplicate_of

      P : Option (RuleResult F) → Type 0
      P o = o ≡ some r → r.duplicate_of ≡ some j → j ≢ d.id

      silent : P (some no_signal)
      silent e q = absurd (let z = ap linked e in cc)
