-- ===== src/Caps/Tests.antt =====
-- Tests of the caps and the limiter, and their theorems at concrete inputs.
use text.Mathlib.Text.{◌==◌ as str_eq}
use cognis.Base.{ℕ, ◌≡◌, refl, true, false, [], ◌∷◌, none, some, pos, negsuc, ◌*◌, if◌then◌else◌}
use cognis.McpError.{timeout, is_retryable, new as new_error, invalid_argument_code}
use cognis.Caps.{
  default, Std, from_env, clamp_k, clamp_depth, clamp_tokens, Texts, start, ToolCtx, ok, truncate,
  stage_gate, check_resolve_ids,
}
use cognis.Caps.Limiter.{idle, trying, holding, begin, attempt}
use cognis.Caps.Clamps.{from_env-clamps}
use cognis.Caps.Admission.{
  Limiter, beginning, attempting, Reach, here, next, IsValid, new, Reach-new-IsValid,
}

-- Seconds are whole numbers here, and the soft variable is set.
abbrev std : Std ℕ
std = record {
  var = λ name. if str_eq name "COGNIS_MCP_SOFT_TIMEOUT_S" then some "1" else none;
  trim = λ s. s;
  parse = λ s. some 1;
  is_finite = λ x. true;
  is_negative = λ x. false;
  from_secs_f64 = λ x. some (1000000000 * x);
}

abbrev texts : Texts
texts = record {
  too_many_ids = λ n. "too many ids";
  hard_exceeded = λ t a b. "hard";
  soft_exceeded = λ t a b. "soft";
  cancelled = λ t. "cancelled";
  at_capacity = λ n t. "full";
}

abbrev ctx : ToolCtx
ctx = record {
  deadline = start 100 default;
  is_cancelled = false;
  truncated = false;
  simulated_elapsed = 0;
}

retryable_full : is_retryable (timeout "full") ≡ true
unfolding is_retryable
retryable_full = refl

retryable_default : is_retryable (new_error invalid_argument_code "x") ≡ false
unfolding is_retryable
retryable_default = refl

negative_k : clamp_k default (negsuc 4) ≡ some 1
unfolding clamp_k
negative_k = refl

crossed_bounds : clamp_tokens (record default { min_tokens = 40000 }) (pos 7) ≡ none
unfolding clamp_tokens
crossed_bounds = refl

too_many : check_resolve_ids texts default 50 ≡ ok tt
unfolding check_resolve_ids
too_many = refl

soft_gate : (stage_gate texts 5000000100 "search" ctx).0 ≡ ok truncate
unfolding stage_gate
soft_gate = refl

from_env-clamps_example :
    (clamp_k (record default { soft_timeout = 1000000000 }) (pos 99) ≡ some 50)
    × (clamp_depth (record default { soft_timeout = 1000000000 }) (negsuc 0) ≡ some 1)
    × (clamp_tokens (record default { soft_timeout = 1000000000 }) (pos 8000) ≡ some 8000)
unfolding from_env
from_env-clamps_example =
    from_env-clamps std (record default { soft_timeout = 1000000000 }) (pos 99) (negsuc 0)
      (pos 8000) refl

-- Two calls on a limiter with one slot.
abbrev one_trying : Limiter
one_trying = record { in_flight = 0; calls = trying 0 ∷ idle ∷ [] }

abbrev one_holding : Limiter
one_holding = record { in_flight = 1; calls = holding true ∷ idle ∷ [] }

abbrev two_trying : Limiter
two_trying = record { in_flight = 1; calls = holding true ∷ trying 1 ∷ [] }

tries : Reach texts 1 (new 2) one_trying
unfolding begin
tries = next here (beginning [] (idle ∷ []) 0)

holds : Reach texts 1 (new 2) one_holding
unfolding attempt
holds = next tries (attempting [] (idle ∷ []) "search" false 0 0)

both : Reach texts 1 (new 2) two_trying
unfolding begin
both = next holds (beginning (holding true ∷ []) [] 1)

Reach-new-IsValid_example : IsValid texts 1 two_trying
Reach-new-IsValid_example = Reach-new-IsValid texts 1 2 both
