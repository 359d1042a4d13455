-- ===== src/Caps/Limiter.antt =====
-- The limiter of concurrent tool calls, crates/cognis-mcp/src/caps.rs, one atomic access per step.
use Prim.Native.String.{String}
use cognis.Base.{
  ℕ, zero, suc, ◌+◌, ◌-◌, ◌^◌, Bool, true, false, ◌||◌, not, List, [], ◌∷◌, Option, none, some,
  ◌==◌, leb, if◌then◌else◌,
}
use cognis.McpError.{McpError, timeout}
use cognis.Caps.{Texts}

-- Where a call stands: not yet admitted, in the loop with `current`, holding a slot that counts or
-- does not, or refused.
pub data Call : Type 0 where
  idle : Call
  trying : ℕ → Call
  holding : Bool → Call
  refused : McpError → Call

-- `acquire` up to its loop: the load of the counter `in_flight`.
unfoldable pub begin : ℕ → ℕ → Call
begin bound in_flight = if bound == 0 then holding false else trying in_flight

module _ (texts : Texts) where
  -- One turn of the loop; `spurious` is the weak exchange's failure on an equal value.
  unfoldable pub attempt : ℕ → String → Bool → ℕ → ℕ → Call × ℕ
  attempt bound tool spurious current in_flight =
      if leb bound current
      then (refused (timeout (texts.at_capacity bound tool)), in_flight)
      else if spurious || not (in_flight == current)
      then (trying in_flight, in_flight)
      else (holding true, current + 1)

  -- A call that no other call disturbs, with the outcomes of its weak exchanges; `none` if these
  -- run out before the loop ends.
  unfoldable pub acquire_loop : ℕ → String → List Bool → ℕ → ℕ → Option (Call × ℕ)
  unfolding attempt
  acquire_loop bound tool [] current in_flight = none
  acquire_loop bound tool (s ∷ ss) current in_flight =
      let (call, n) = attempt bound tool s current in_flight in
      elim call [
        | trying c ↦ acquire_loop bound tool ss c n
        | idle ↦ some (idle, n)
        | holding b ↦ some (holding b, n)
        | refused e ↦ some (refused e, n)
      ]

-- `fetch_sub`, which wraps around.
unfoldable pub drop : Bool → ℕ → ℕ
drop false in_flight = in_flight
drop true zero = 2 ^ 64 - 1
drop true (suc in_flight) = in_flight
