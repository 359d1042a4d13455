-- ===== src/Caps/Deadlines.antt =====
-- The gate between two stages beside the check at a point in a stage.
use Prim.Native.String.{String}
use cognis.Base.{ℕ, ◌≤◌, ◌≡◌, Bool, arith}
use cognis.Caps.{Texts, max_duration, ToolCtx, ok, continue, check, stage_gate}

module _ (texts : Texts) where
  -- Where instants fit a duration, a gate that lets the next stage begin leaves the context alone, and at that time and at every
  -- earlier one the gate lets the stage begin and the check passes, the soft budget enforced or not.
  pub stage_gate-continue :
      (s t : ℕ) (tool : String) (flag : Bool) (c : ToolCtx)
      → s ≤ t
      → s ≤ max_duration
      → (stage_gate texts t tool c).0 ≡ ok continue
      → (stage_gate texts s tool c ≡ (ok continue, c))
        × (check texts s c.deadline tool flag ≡ ok tt)
  unfolding stage_gate check
  stage_gate-continue s t tool flag c h e = ground arith
