-- ===== src/Hits.antt =====
-- Retrieval hits, crates/cognis-core/src/hit.rs, and what the retrieval code takes from elsewhere:
-- f64 arithmetic and the rendering of a fused hit's reason and evidence.
pub mod Laws
pub mod Samples
use Prim.Native.Nat.{Ordering}
use Prim.Native.String.{String}
use cognis.Base.{ℕ, ◌≡◌, Bool, false, List, [], ◌∷◌, ◌||◌, Option, map}
use cognis.BtreeMap.{KeyOrd}

pub record Hit (K S E : Type 0) : Type 0 where
  pub symbol_id : K
  pub score : S
  pub layer : String
  pub reason : String
  pub evidence : E

-- f64. `partial_cmp` is `none` where an operand is NaN.
pub record Floats (S : Type 0) : Type 0 where
  pub zero : S
  pub one : S
  pub from_u32 : ℕ → S
  pub add : S → S → S
  pub div : S → S → S
  pub partial_cmp : S → S → Option Ordering

-- `format!` and `serde_json::json!` as `rrf_fuse` uses them.
pub record Rendering (S E : Type 0) : Type 0 where
  pub fused_reason : ℕ → S → String
  pub fused_evidence : ℕ → S → E

module _ {K S E : Type 0} where
  abbrev pub ids : List (Hit K S E) → List K
  ids = map (λ h. h.symbol_id)

module _ {K : Type 0} ⦃o : KeyOrd K⦄ where
  -- Membership in a list or hash set of ids.
  unfoldable pub member : K → List K → Bool
  member k [] = false
  member k (j ∷ js) = o.eq k j || member k js

  -- No id stands twice.
  abbrev pub IsDistinct : List K → Type 0
  IsDistinct [] = Unit
  IsDistinct (j ∷ js) = (member j js ≡ false) × IsDistinct js
