-- ===== src/EmbedQueue.antt =====
-- The tables that the embedding queue's drainer works on, and its SQL statements,
-- crates/cognis-indexer/src/embed_queue.rs. A statement is the change that its SQL describes. Times are seconds, a text that orders rows is a
-- key, a vector is any type.
pub mod Writes
pub mod Drain
pub mod Kept
pub mod Loop
pub mod Generation
pub mod Rows
pub mod Atomic
mod Tests
use Prim.Native.String.{String}
use cognis.Base.{
  ℕ, zero, suc, ◌+◌, Bool, true, false, ◌||◌, ◌&&◌, not, List, [], ◌∷◌, ◌++◌, Option, none, some,
  ◌==◌, ltb, leb, length, take, min, if◌then◌else◌,
}
use cognis.BtreeMap.{KeyOrd, has, add}
use cognis.Sort.{sort_by}

pub record QueueRow (K : Type 0) : Type 0 where
  pub symbol_id : K
  pub file_path : K
  pub enqueued_at : ℕ
  pub attempts : ℕ
  pub next_attempt_at : ℕ
  pub last_error : Option String

-- What the embedder reads of a symbol.
pub record Symbol : Type 0 where
  pub qualified_name : String
  pub signature : Option String
  pub docstring : Option String
  pub body_excerpt : Option String

-- `symbols` pairs an id with its symbol; `vectors` are the rows of
-- `symbol_vec`, `dim` the stored dimension and `vec_dim` the width of the table where it has one.
pub record Db (K V : Type 0) : Type 0 where
  pub symbols : List (K × Symbol)
  pub queue : List (QueueRow K)
  pub vectors : List (K × V)
  pub source_generation : ℕ
  pub semantic_generation : ℕ
  pub updated_at : ℕ
  pub dim : ℕ
  pub is_vec0 : Bool
  pub vec_dim : Option ℕ

module _ {K : Type 0} ⦃o : KeyOrd K⦄ where
  -- `ORDER BY next_attempt_at, enqueued_at, symbol_id`
  abbrev pub comes_first : ℕ → ℕ → K → ℕ → ℕ → K → Bool
  comes_first a b k c d j = ltb a c || (a == c && (ltb b d || (b == d && (o.lt k j || o.eq k j))))

  abbrev pub first_row : QueueRow K → QueueRow K → Bool
  first_row r s =
      comes_first r.next_attempt_at r.enqueued_at r.symbol_id s.next_attempt_at s.enqueued_at
        s.symbol_id

  unfoldable pub due : ℕ → List (QueueRow K) → List (QueueRow K)
  due now [] = []
  due now (r ∷ rs) = if leb r.next_attempt_at now then r ∷ due now rs else due now rs

  unfoldable pub due_rows : ℕ → ℕ → List (QueueRow K) → List (QueueRow K)
  unfolding due
  due_rows now budget rs = take budget (sort_by first_row (due now rs))

  unfoldable pub delete_queue_row : K → List (QueueRow K) → List (QueueRow K)
  delete_queue_row k [] = []
  delete_queue_row k (r ∷ rs) =
      let rest = delete_queue_row k rs in if o.eq k r.symbol_id then rest else r ∷ rest

  -- `GROUP BY file_path`, with the least of both times.
  unfoldable pub add_group : QueueRow K → List (QueueRow K) → List (QueueRow K)
  add_group r [] = r ∷ []
  add_group r (g ∷ gs) =
      if o.eq r.file_path g.file_path
      then record g {
        next_attempt_at = min g.next_attempt_at r.next_attempt_at;
        enqueued_at = min g.enqueued_at r.enqueued_at;
      }
        ∷ gs
      else g ∷ add_group r gs

  unfoldable pub groups : List (QueueRow K) → List (QueueRow K) → List (QueueRow K)
  unfolding add_group
  groups gs [] = gs
  groups gs (r ∷ rs) = groups (add_group r gs) rs

  abbrev pub first_group : QueueRow K → QueueRow K → Bool
  first_group r s =
      comes_first r.next_attempt_at r.enqueued_at r.file_path s.next_attempt_at s.enqueued_at
        s.file_path

  -- The loop with the set `seen`.
  unfoldable pub unseen : List K → List (QueueRow K) → List K
  unseen seen [] = []
  unseen seen (r ∷ rs) =
      let rest = unseen (add r.file_path seen) rs in
      if has r.file_path seen then rest else r.file_path ∷ rest

  unfoldable pub pending_files : List (QueueRow K) → List K
  unfolding groups unseen
  pending_files rs = unseen [] (take 8 (sort_by first_group (groups [] rs)))
