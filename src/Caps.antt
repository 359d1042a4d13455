-- ===== src/Caps.antt =====
-- The hard caps of a tool call, crates/cognis-mcp/src/caps.rs, and the gate between the stages of a
-- call, crates/cognis-mcp/src/server.rs. Durations and instants are nanoseconds; the reading of the
-- environment, f64 and the texts that show numbers are parameters.
pub mod Limiter
pub mod Clamps
pub mod Deadlines
pub mod Admission
mod Tests
use Prim.Native.String.{String}
use cognis.Base.{
  ℕ, ◌+◌, ◌-◌, ◌*◌, ◌^◌, min, Bool, true, false, ◌&&◌, ◌||◌, not, Option, none, some, ltb, leb,
  if◌then◌else◌, ◌>>=◌, ℤ, pos, clamp, as_i64, as_unsigned,
}
use cognis.McpError.{McpError, invalid_argument, timeout}

pub record Caps : Type 0 where
  pub max_k : ℕ
  pub max_depth : ℕ
  pub max_tokens : ℕ
  pub min_tokens : ℕ
  pub max_resolve_ids : ℕ
  pub max_concurrency : ℕ
  pub soft_timeout : ℕ
  pub hard_timeout : ℕ

abbrev pub second : ℕ
second = 1000000000

abbrev pub default : Caps
default = record {
  max_k = 50;
  max_depth = 8;
  max_tokens = 32000;
  min_tokens = 500;
  max_resolve_ids = 50;
  max_concurrency = 16;
  soft_timeout = 5 * second;
  hard_timeout = 10 * second;
}

-- The standard library's part: a variable that is text, trimming, the reading of an f64, its tests,
-- and `Duration::from_secs_f64`, `none` where it panics.
pub record Std (F : Type 0) : Type 0 where
  pub var : String → Option String
  pub trim : String → String
  pub parse : String → Option F
  pub is_finite : F → Bool
  pub is_negative : F → Bool
  pub from_secs_f64 : F → Option ℕ

module _ {F : Type 0} (std : Std F) where
  unfoldable pub duration_of : F → Option (Option ℕ)
  duration_of secs =
      if not (std.is_finite secs) || std.is_negative secs
      then some none
      else elim (std.from_secs_f64 secs) [ none ↦ none | some d ↦ some (some d) ]

  -- The outer `none` is the panic.
  unfoldable pub env_duration_secs : String → Option (Option ℕ)
  unfolding duration_of
  env_duration_secs name = elim (std.var name) [
    | none ↦ some none
    | some raw ↦ elim (std.parse (std.trim raw)) [ none ↦ some none | some s ↦ duration_of s ]
  ]

  abbrev pub with_soft : Option ℕ → Caps → Caps
  with_soft none c = c
  with_soft (some d) c = record c { soft_timeout = d }

  abbrev pub with_hard : Option ℕ → Caps → Caps
  with_hard none c = c
  with_hard (some d) c = record c { hard_timeout = d }

  unfoldable pub from_env : Option Caps
  unfolding env_duration_secs
  from_env = do
    soft ← env_duration_secs "COGNIS_MCP_SOFT_TIMEOUT_S"
    hard ← env_duration_secs "COGNIS_MCP_HARD_TIMEOUT_S"
    some (with_hard hard (with_soft soft default))

-- `none` is the panic of `clamp`.
abbrev pub cast : ℕ → Option ℤ → Option ℕ
cast w none = none
cast w (some x) = some (as_unsigned w x)

unfoldable pub clamp_k : Caps → ℤ → Option ℕ
clamp_k c k = cast 64 (clamp k (pos 1) (as_i64 c.max_k))

unfoldable pub clamp_depth : Caps → ℤ → Option ℕ
clamp_depth c depth = cast 8 (clamp depth (pos 1) (pos c.max_depth))

unfoldable pub clamp_tokens : Caps → ℤ → Option ℕ
clamp_tokens c tokens = cast 32 (clamp tokens (pos c.min_tokens) (pos c.max_tokens))

-- A tool's `Result`.
pub data Outcome (A : Type 0) : Type 0 where
  ok : A → Outcome A
  err : McpError → Outcome A

-- The texts of `format!`.
pub record Texts : Type 0 where
  pub too_many_ids : ℕ → String
  pub hard_exceeded : String → ℕ → ℕ → String
  pub soft_exceeded : String → ℕ → ℕ → String
  pub cancelled : String → String
  pub at_capacity : ℕ → String → String

pub data StageDecision : Type 0 where
  continue truncate : StageDecision

pub record Deadline : Type 0 where
  pub started : ℕ
  pub soft : ℕ
  pub hard : ℕ

abbrev pub start : ℕ → Caps → Deadline
start now c = record { started = now; soft = c.soft_timeout; hard = c.hard_timeout }

-- `Instant::elapsed`, 0 for an instant that is not past.
abbrev pub elapsed : ℕ → Deadline → ℕ
elapsed now d = now - d.started

abbrev pub max_duration : ℕ
max_duration = 2 ^ 64 * second - 1

abbrev pub saturating_add : ℕ → ℕ → ℕ
saturating_add a b = min (a + b) max_duration

-- What the gate reads of the context of a call, and the flag that it sets.
pub record ToolCtx : Type 0 where
  pub deadline : Deadline
  pub is_cancelled : Bool
  pub truncated : Bool
  pub simulated_elapsed : ℕ

unfoldable pub add_elapsed : ℕ → ToolCtx → ToolCtx
add_elapsed extra c = record c { simulated_elapsed = saturating_add c.simulated_elapsed extra }

abbrev pub observed_elapsed : ℕ → ToolCtx → ℕ
observed_elapsed now c = saturating_add (elapsed now c.deadline) c.simulated_elapsed

module _ (texts : Texts) where
  unfoldable pub check_resolve_ids : Caps → ℕ → Outcome (Unit {0})
  check_resolve_ids c count =
      if ltb c.max_resolve_ids count
      then err (invalid_argument (texts.too_many_ids c.max_resolve_ids))
      else ok tt

  unfoldable pub check : ℕ → Deadline → String → Bool → Outcome (Unit {0})
  check now d tool enforce_soft =
      let spent = elapsed now d in
      if ltb d.hard spent
      then err (timeout (texts.hard_exceeded tool spent d.hard))
      else if enforce_soft && ltb d.soft spent
      then err (timeout (texts.soft_exceeded tool spent d.soft))
      else ok tt

  unfoldable pub stage_gate : ℕ → String → ToolCtx → Outcome StageDecision × ToolCtx
  stage_gate now tool c =
      let spent = observed_elapsed now c in
      if c.is_cancelled
      then (err (timeout (texts.cancelled tool)), c)
      else if leb c.deadline.hard spent
      then (err (timeout (texts.hard_exceeded tool spent c.deadline.hard)), c)
      else if leb c.deadline.soft spent
      then (ok truncate, record c { truncated = true })
      else (ok continue, c)
