-- ===== src/EmbedQueue/Generation.antt =====
-- The generations across a drain.
use cognis.Base.{ℕ, ◌≡◌, refl, List, [], ◌⊎◌, inl, inr, arith}
use cognis.BtreeMap.{KeyOrd}
use cognis.ModelSlot.{SlotState}
use cognis.Sqlite.{opened, on_disk}
use cognis.EmbedQueue.{QueueRow, Db, delete_queue_row}
use cognis.EmbedQueue.Writes.{Setup, fail_row}
use cognis.EmbedQueue.Drain.{drain}
use cognis.EmbedQueue.Kept.{IsKept}
use cognis.EmbedQueue.Loop.{drain-Holds}

module _ {K V : Type 0} where
  -- The symbols and the source generation are as they were, and the semantic generation is too
  -- unless the queue is empty and it has caught up with the source.
  abbrev pub IsCaughtUp : Db K V → Db K V → Type 0
  IsCaughtUp d e =
      (e.symbols ≡ d.symbols)
      × (e.source_generation ≡ d.source_generation)
      × ((e.semantic_generation ≡ d.semantic_generation)
          ⊎ ((e.queue ≡ []) × (e.semantic_generation ≡ e.source_generation)))

module _ {K V M : Type 0} ⦃o : KeyOrd K⦄ (setup : Setup V M) where
  delete-none : (k : K) (q : List (QueueRow K)) → q ≡ [] → delete_queue_row k q ≡ []
  unfolding delete_queue_row
  delete-none k q e = ground (arith, e)

  fail-none :
      (row : QueueRow K) (message : _) (now : ℕ) (q : List (QueueRow K))
      → q ≡ []
      → fail_row setup row message now q ≡ []
  unfolding fail_row
  fail-none row message now q e = ground (arith, e)

  queue-IsCaughtUp :
      (d e : Db K V) (q : List (QueueRow K))
      → (e.queue ≡ [] → q ≡ [])
      → IsCaughtUp d e
      → IsCaughtUp d (record e { queue = q })
  queue-IsCaughtUp d e q f (a, b, inl s) = (a, b, inl s)
  queue-IsCaughtUp d e q f (a, b, inr (z, s)) = (a, b, inr (f z, s))

  IsCaughtUp-IsKept : (d : Db K V) → IsKept setup (IsCaughtUp d)
  IsCaughtUp-IsKept d = record {
    caught_up = λ now e z p. (p.0, p.1, inr (z, refl));
    removed = λ k e p. queue-IsCaughtUp d e (delete_queue_row k e.queue) (delete-none k e.queue) p;
    stored = λ vs e p. p;
    redimensioned = λ dim e p. p;
    recreated = λ dim e p. p;
    failed = λ row message now e p.
        queue-IsCaughtUp d e (fail_row setup row message now e.queue)
          (fail-none row message now e.queue) p;
  }

  -- Whatever SQLite refuses, a drain leaves committed symbols and the source generation as they were,
  -- and the committed semantic generation too, unless the committed queue is empty and the semantic
  -- generation has caught up with the source generation.
  pub drain-IsCaughtUp :
      (budget tick : ℕ) (slot : SlotState M) (d : Db K V)
      → IsCaughtUp d (on_disk (drain setup budget slot (opened d tick)).2)
  drain-IsCaughtUp budget tick slot d =
      (drain-Holds setup (IsCaughtUp d) (IsCaughtUp-IsKept d) budget slot (opened d tick)
        ((refl, refl, inl refl), (refl, refl, inl refl))).1
