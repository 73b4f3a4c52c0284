-- ===== src/Policy/Env.antt =====
-- What the engine calls and does not implement: SHA-256, `encoding/json`, `path.Match`.
use gitscale.Common.{ℕ, Bool, Option}
use gitscale.Common.Int.{ℤ}
use gitscale.Common.Str.{Str}
use gitscale.Policy.Canonical.{Codec}
use gitscale.Policy.Types.{ProposerKind}

-- The maps that memservice.go serialises into audit payloads, one constructor for each literal.
pub data Payload : Type 0 where
  submission : ℕ → ℤ → Str → ProposerKind → Payload
  expiry_window_elapsed : Payload
  rejection : ℤ → Str → Payload
  approval : ℤ → ℕ → Payload
  approve_partial : ℤ → ℕ → Payload
  denied : ℤ → Str → Payload
  ladder_exhausted : ℤ → Payload
  fell_back : ℤ → ℤ → Payload
  notified_next : ℤ → ℤ → Payload

-- `wall_clock` is time.Now, which AppendRow reads when the service's clock gave the zero time.
pub record Env : Type 0 where
  pub codec : Codec
  pub sha256 : Str → Str
  pub path_match : Str → Str → Option Bool
  pub marshal_payload : Payload → Str
  pub wall_clock : ℕ
