-- ===== src/Publish/Outcome.antt =====
-- What a publication leaves on disk: everything where it succeeds, nothing where it fails.
use Prim.Native.String.{String}
use cognis.Base.{ℕ, ◌≡◌, refl, sym, ap, ◌∙◌}
use cognis.BtreeMap.{KeyOrd}
use cognis.Sqlite.{Conn, opened, on_disk, Result, ok, err, with_write_txn}
use cognis.Sqlite.Effects.{with_write_txn-ok}
use cognis.Sqlite.Atomic.{with_write_txn-failed}
use cognis.Publish.{PublishBatch, Store, PublishReceipt}
use cognis.Publish.Apply.{Setup}
use cognis.Publish.Statements.{publish_body, publish}
use cognis.Publish.Published.{published, published_receipt, publish_body-Runs}

module _ {K R V F J : Type 0} ⦃o : KeyOrd K⦄ (setup : Setup V J) where
  pub timed :
      (b : PublishBatch K R V F J) (now : ℕ) (c : Conn (Store K R V F J))
      → setup.unix_timestamp ≡ ok now
      → publish setup b c ≡ with_write_txn setup.refuses (publish_body setup b now) c
  unfolding publish
  timed b now c e =
      ap
        (λ t. elim t [
          | err m ↦ (err m, c)
          | ok n ↦ with_write_txn setup.refuses (publish_body setup b n) c
        ])
        e

  -- A publication that succeeds has committed the change of the database that the batch stands for,
  -- with the paths of the batch classed by the file table before it, and its receipt is the one of
  -- that change. A successful publication does not see the value that stands for a missing
  -- generation row.
  pub publish-refines :
      (missing : ℕ × ℕ) (b : PublishBatch K R V F J) (d : Store K R V F J) (tick now : ℕ)
      (r : PublishReceipt K)
      → setup.unix_timestamp ≡ ok now
      → (publish setup b (opened d tick)).0 ≡ ok r
      → (r ≡ published_receipt setup missing b now d)
        × (on_disk (publish setup b (opened d tick)).1 ≡ published setup missing b now d)
  publish-refines missing b d tick now r t e =
      let q = timed b now (opened d tick) t in
      let (u, v) =
        with_write_txn-ok setup.refuses (publish_body setup b now) d tick r
          (publish_body-Runs setup missing b now) (sym (ap (λ x. x.0) q) ∙ e) in
      (u, ap (λ x. on_disk x.1) q ∙ v)

  pub untimed :
      (b : PublishBatch K R V F J) (message : String) (c : Conn (Store K R V F J))
      → setup.unix_timestamp ≡ err message
      → publish setup b c ≡ (err message, c)
  unfolding publish
  untimed b message c e =
      ap
        (λ t. elim t [
          | err m ↦ (err m, c)
          | ok n ↦ with_write_txn setup.refuses (publish_body setup b n) c
        ])
        e

  failed_at :
      (b : PublishBatch K R V F J) (d : Store K R V F J) (tick : ℕ) (message : String)
      (t : Result ℕ)
      → setup.unix_timestamp ≡ t
      → (publish setup b (opened d tick)).0 ≡ err message
      → on_disk (publish setup b (opened d tick)).1 ≡ d
  failed_at b d tick message (err m) t e = ap (λ x. on_disk x.1) (untimed b m (opened d tick) t)
  failed_at b d tick message (ok now) t e =
      let q = timed b now (opened d tick) t in
      ap (λ x. on_disk x.1) q
      ∙ with_write_txn-failed setup.refuses (publish_body setup b now) d tick message
          (publish_body-Runs setup (0, 0) b now).contained (sym (ap (λ x. x.0) q) ∙ e)

  -- A publication that fails, whichever statement is refused and whichever row stands in its way,
  -- leaves the database on disk as it was.
  pub publish-atomic :
      (b : PublishBatch K R V F J) (d : Store K R V F J) (tick : ℕ) (message : String)
      → (publish setup b (opened d tick)).0 ≡ err message
      → on_disk (publish setup b (opened d tick)).1 ≡ d
  publish-atomic b d tick message e = failed_at b d tick message setup.unix_timestamp refl e
