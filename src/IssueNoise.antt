-- ===== src/IssueNoise.antt =====
-- Issue-noise routing (plane/application/issuenoise): the verdicts of decide.go, the data of
-- scorer.go, store.go, events.go and rules/doc.go. `float64` is a type `F` with the operations and
-- literals that the code uses.
pub mod Scorer
pub mod Rules
pub mod Router
pub mod Stub
mod Tests
use gitscale.Common.{ℕ, ◌*◌, ◌≡◌, Bool, true, false, not, Option, List, if◌then◌else◌}
use gitscale.Common.Str.{Str, codes}
use gitscale.Cache.{seconds}

-- `lt` is Go's `<`, and `ge` its `>=`; `ratio m n` is the quotient of two integers.
pub record Float64 (F : Type 0) : Type 0 where
  pub zero : F
  pub one : F
  pub add : F → F → F
  pub sub : F → F → F
  pub lt : F → F → Bool
  pub ge : F → F → Bool
  pub is_zero : F → Bool
  pub ratio : ℕ → ℕ → F

-- What IEEE 754 says of comparing 0 and 1, and of two numbers, neither of which is NaN. A number is
-- what is at least itself: a comparison with NaN is false.
pub record OrderOk {F : Type 0} (fl : Float64 F) : Type 0 where
  pub zero_zero : fl.ge fl.zero fl.zero ≡ true
  pub one_zero : fl.ge fl.one fl.zero ≡ true
  pub one_one : fl.ge fl.one fl.one ≡ true
  pub not_lt :
      (x y : F) → fl.ge x x ≡ true → fl.ge y y ≡ true → fl.lt x y ≡ false → fl.ge x y ≡ true

pub data Verdict : Type 0 where
  unknown normal low_quality duplicate spam : Verdict

-- Verdict.String
unfoldable pub verdict_name : Verdict → Str
verdict_name normal = codes "normal"
verdict_name low_quality = codes "low_quality"
verdict_name duplicate = codes "duplicate"
verdict_name spam = codes "spam"
verdict_name unknown = codes "unknown"

-- What fmt.Sprintf makes of a rule's numbers, which nothing reads back, is the numbers.
pub data Detail (F : Type 0) : Type 0 where
  no_detail : Detail F
  body_length : ℕ → Detail F
  link_count : ℕ → ℕ → Detail F
  letter_ratio : ℕ → F → Detail F
  reporter_count : ℕ → Detail F
  reputation_below : F → F → Detail F
  violation_count : ℕ → Detail F
  top_candidate : ℕ → F → Detail F

pub record Signal (F : Type 0) : Type 0 where
  pub name : Str
  pub weight : F
  pub detail : Detail F

pub record Score (F : Type 0) : Type 0 where
  pub spam_score : F
  pub low_quality_score : F
  pub duplicate_score : F
  pub duplicate_of : Option ℕ
  pub signals : List (Signal F)
  pub scorer_version : Str

pub record IssueDraft : Type 0 where
  pub id : ℕ
  pub repo_id : ℕ
  pub reporter_id : ℕ
  pub title : Str
  pub body : Str
  pub created_at : ℕ

pub record Thresholds (F : Type 0) : Type 0 where
  pub spam_floor : F
  pub low_quality_floor : F
  pub duplicate_floor : F
  pub hold_ttl : ℕ

pub data IssueState : Type 0 where
  open_issue held auto_closed_spam closed : IssueState

-- Decision, a row of issue_noise_decisions.
pub record NoiseDecision (F : Type 0) : Type 0 where
  pub decision_id : ℕ
  pub issue_id : ℕ
  pub repo_id : ℕ
  pub reporter_id : ℕ
  pub verdict : Verdict
  pub score : Score F
  pub decided_at : ℕ
  pub decided_by : Option ℕ

-- The payloads of the two events: RoutingDecidedPayload, by the decision whose fields it repeats and
-- the enforce flag, and ReleasedPayload.
pub data Payload (F : Type 0) : Type 0 where
  routing_decided : NoiseDecision F → Bool → Payload F
  released : ℕ → ℕ → ℕ → ℕ → Payload F

module _ {F : Type 0} (fl : Float64 F) where
  -- clamp01
  unfoldable pub clamp01 : F → F
  clamp01 x = if fl.lt x fl.zero then fl.zero else if fl.lt fl.one x then fl.one else x

  -- DefaultThresholds
  unfoldable pub default_thresholds : Thresholds F
  default_thresholds = record {
    spam_floor = fl.ratio 700 1000;
    low_quality_floor = fl.ratio 400 1000;
    duplicate_floor = fl.ratio 850 1000;
    hold_ttl = seconds (14 * 24 * 3600);
  }

  -- Decide
  unfoldable pub decide : Score F → Thresholds F → Verdict
  decide s t =
      if fl.ge s.spam_score t.spam_floor
      then spam
      else if fl.ge s.duplicate_score t.duplicate_floor
      then duplicate
      else if fl.ge s.low_quality_score t.low_quality_floor
      then low_quality
      else normal

-- stateForVerdict
unfoldable pub state_for_verdict : Verdict → Bool → IssueState
state_for_verdict _ false = open_issue
state_for_verdict spam true = auto_closed_spam
state_for_verdict low_quality true = held
state_for_verdict duplicate true = held
state_for_verdict _ true = open_issue
