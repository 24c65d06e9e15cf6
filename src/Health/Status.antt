-- ===== src/Health/Status.antt =====
-- internal/health/probe.go: Status, UplinkState, ProbeConfig.
use warp_router.Prelude.{ℤ, String, Bool, true, false, Eq, ◌≡◌, ◌↔◌, arith}

pub data Status : Type 0 where
  unknown healthy degraded down : Status

-- `==` and `!=` on the constants.
abbrev pub status_beq : Status → Status → Bool
status_beq unknown unknown = true
status_beq healthy healthy = true
status_beq degraded degraded = true
status_beq down down = true
status_beq _ _ = false

pub status_beq_iff : (a b : Status) → (status_beq a b ≡ true) ↔ (a ≡ b)
status_beq_iff a b = ground arith

instance abbrev pub status_eq : Eq Status
status_eq = record { equals = status_beq; equals_iff = status_beq_iff }

-- Status.String
unfoldable pub to_string : Status → String
to_string healthy = "healthy"
to_string degraded = "degraded"
to_string down = "down"
to_string unknown = "unknown"

-- Times and durations are nanosecond counts; the zero value of time.Time is 0.
pub record UplinkState : Type 0 where
  pub name : String
  pub target : String
  pub status : Status
  pub consecutive_fails : ℤ
  pub last_probe_time : ℤ
  pub last_success_time : ℤ
  pub last_latency : ℤ
  pub total_probes : ℤ
  pub total_failures : ℤ

pub record ProbeConfig : Type 0 where
  pub name : String
  pub target : String
  pub interval : ℤ
  pub timeout : ℤ
  pub failures : ℤ
