-- ===== src/Planner/Applied.antt =====
-- The batch of a plan, published.
use cognis.Base.{◌≡◌, Bool, true, false, ◌||◌, not, List, arith, ℕ}
use cognis.BtreeMap.{KeyOrd}
use cognis.Sqlite.{opened, on_disk, ok}
use cognis.Publish.{Symbol, PublishBatch, PublishReason, Store, PublishReceipt}
use cognis.Publish.Apply.{Setup, contains}
use cognis.Publish.Statements.{publish}
use cognis.Publish.Deleted.{holds_symbol}
use cognis.Publish.Cleared.{publish-symbol_deletes}
use cognis.Planner.Scan.{PlannedFile}
use cognis.Planner.Batch.{Queries, old_of, ids, build_batch}
use cognis.Planner.Stale.{build_batch-Partitioned}

deleted_if :
    (old deletes ups : Bool)
    → (not old || (deletes || ups)) ≡ true
    → old ≡ true
    → ups ≡ false
    → deletes ≡ true
deleted_if old deletes ups p q r = ground (arith, p, q, r)

-- After the batch of a plan is published, a symbol that a changed file had before and that no changed
-- file has now is in none of the tables, and no edge leaves it.
pub build_batch-publish :
    {K R V F J : Type 0} ⦃o : KeyOrd K⦄ (queries : Queries K R F J) (reason : PublishReason)
    (changed : List (K × PlannedFile K (Symbol K R))) (deleted : List K)
    (b : PublishBatch K R V F J) (setup : Setup V J) (d : Store K R V F J) (tick now : ℕ)
    (r : PublishReceipt K) (k : K)
    → build_batch queries reason changed deleted ≡ ok b
    → setup.unix_timestamp ≡ ok now
    → (publish setup b (opened d tick)).0 ≡ ok r
    → contains k (ids (old_of changed)) ≡ true
    → contains k (ids b.symbol_upserts) ≡ false
    → holds_symbol k (on_disk (publish setup b (opened d tick)).1) ≡ false
build_batch-publish queries reason changed deleted b setup d tick now r k e t p old new =
    let (parts, _, _, _) = build_batch-Partitioned queries reason changed deleted b k e in
    publish-symbol_deletes setup b d tick now r k t p (
      deleted_if (contains k (ids (old_of changed))) (contains k b.symbol_deletes)
        (contains k (ids b.symbol_upserts)) parts.1 old new)
