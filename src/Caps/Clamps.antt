-- ===== src/Caps/Clamps.antt =====
-- The clamps of the caller's numbers under every configuration the environment can give.
use cognis.Base.{
  ℕ, ◌≤◌, ◌≡◌, refl, min, max, Option, none, some, arith, ◌>>=◌, ℤ, pos, clamp, nonneg,
}
use cognis.Caps.{
  Caps, default, Std, from_env, with_soft, with_hard, env_duration_secs, clamp_k, clamp_depth,
  clamp_tokens,
}

clamp_lem :
    (x : ℤ) (lo hi : ℕ)
    → lo ≤ hi
    → clamp x (pos lo) (pos hi) ≡ some (pos (max lo (min (nonneg x) hi)))
clamp_lem x lo hi h = ground arith

-- The limits that no variable of the environment touches.
abbrev pub HasDefaultLimits : Caps → Type 0
HasDefaultLimits c =
    (c.max_k ≡ 50) × (c.max_depth ≡ 8) × (c.max_tokens ≡ 32000) × (c.min_tokens ≡ 500)

with_hard-limits :
    {F : Type 0} (std : Std F) (hard soft : Option ℕ)
    → HasDefaultLimits (with_hard std hard (with_soft std soft default))
with_hard-limits std none none = (refl, refl, refl, refl)
with_hard-limits std none (some s) = (refl, refl, refl, refl)
with_hard-limits std (some h) none = (refl, refl, refl, refl)
with_hard-limits std (some h) (some s) = (refl, refl, refl, refl)

chosen-limits :
    {F : Type 0} (std : Std F) (soft hard : Option (Option ℕ)) (c : Caps)
    → (soft >>= λ s. hard >>= λ h. some (with_hard std h (with_soft std s default))) ≡ some c
    → HasDefaultLimits c
chosen-limits std soft hard c e = ground (arith, e)

from_env-limits : {F : Type 0} (std : Std F) (c : Caps) → from_env std ≡ some c → HasDefaultLimits c
unfolding from_env
from_env-limits std c e =
    let both =
      chosen-limits std (env_duration_secs std "COGNIS_MCP_SOFT_TIMEOUT_S")
        (env_duration_secs std "COGNIS_MCP_HARD_TIMEOUT_S") c in
    both e

-- Where the environment is read without a panic, whatever durations it sets, a count, a depth and a
-- token budget that the caller gives, negative ones included, are clamped without a panic to 1..50,
-- 1..8 and 500..32000.
pub from_env-clamps :
    {F : Type 0} (std : Std F) (c : Caps) (k depth tokens : ℤ)
    → from_env std ≡ some c
    → (clamp_k c k ≡ some (max 1 (min (nonneg k) 50)))
      × (clamp_depth c depth ≡ some (max 1 (min (nonneg depth) 8)))
      × (clamp_tokens c tokens ≡ some (max 500 (min (nonneg tokens) 32000)))
unfolding clamp_k clamp_depth clamp_tokens
from_env-clamps std c k depth tokens e =
    let (a, b, m, n) = from_env-limits std c e in ground (arith, a, b, m, n)
