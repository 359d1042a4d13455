-- ===== src/Sqlite.antt =====
-- A connection to SQLite as the store uses it: statements that SQLite may refuse, and the write
-- transaction of crates/cognis-store/src/lib.rs and crates/cognis-indexer/src/embed_queue.rs. A
-- statement is a change of the database, and a refused one changes nothing.
pub mod Transactions
pub mod Atomic
pub mod Effects
pub mod Success
use Prim.Native.String.{String}
use cognis.Base.{ℕ, suc, Option, none, some, List, [], ◌∷◌}

-- The connection: its view of the database, what stands committed while a transaction is open, and
-- the statements that it has made.
pub record Conn (D : Type 0) : Type 0 where
  pub view : D
  pub committed : Option D
  pub tick : ℕ

abbrev pub opened : {D : Type 0} → D → ℕ → Conn D
opened d tick = record { view = d; committed = none; tick = tick }

pub data Result (A : Type 0) : Type 0 where
  ok : A → Result A
  err : String → Result A

-- What another connection reads.
abbrev pub on_disk : {D : Type 0} → Conn D → D
on_disk c = elim c.committed [ none ↦ c.view | some d ↦ d ]

abbrev pub Io : Type 0 → Type 0 → Type 0
Io D A = Conn D → Result A × Conn D

-- The `?` operator on a call that has been made.
abbrev pub chain : {D A B : Type 0} → Result A × Conn D → (A → Io D B) → Result B × Conn D
chain (ok a, c) f = f a c
chain (err e, c) f = (err e, c)

infixl 5 ◌>>=◌ ◌>>◌
abbrev pub ◌>>=◌ : {D A B : Type 0} → Io D A → (A → Io D B) → Io D B
◌>>=◌ m f c = chain (m c) f

abbrev pub ◌>>◌ : {D A B : Type 0} → Io D A → Io D B → Io D B
m >> k = m >>= λ _. k

abbrev pub pure : {D A : Type 0} → A → Io D A
pure a c = (ok a, c)

abbrev pub fail : {D A : Type 0} → String → Io D A
fail message c = (err message, c)

-- A loop over a list of which each turn may fail.
unfoldable pub for_each : {D X : Type 0} → (X → Io D (Unit {0})) → List X → Io D (Unit {0})
for_each step [] = pure tt
for_each step (x ∷ xs) = step x >> for_each step xs

-- SQLite's answer to each statement: the text of an error, or none.
module _ {D : Type 0} (refuses : ℕ → Option String) where
  unfoldable pub query : {A : Type 0} → (D → A) → Io D A
  query f c =
      let c' = record c { tick = suc c.tick } in
      elim (refuses c.tick) [ some e ↦ (err e, c') | none ↦ (ok (f c.view), c') ]

  unfoldable pub execute : (D → D) → Io D (Unit {0})
  execute f c = elim (refuses c.tick) [
    | some e ↦ (err e, record c { tick = suc c.tick })
    | none ↦ (ok tt, record c { view = f c.view; tick = suc c.tick })
  ]

  -- A statement that tells the number of rows that it changed.
  unfoldable pub execute_count : (D → D) → (D → ℕ) → Io D ℕ
  execute_count f n c = elim (refuses c.tick) [
    | some e ↦ (err e, record c { tick = suc c.tick })
    | none ↦ (ok (n c.view), record c { view = f c.view; tick = suc c.tick })
  ]

  -- `Connection::prepare`
  abbrev pub prepare : Io D (Unit {0})
  prepare = query (λ d. tt)

  -- SQLite refuses a transaction inside another.
  unfoldable pub begin_immediate : Io D (Unit {0})
  begin_immediate c = elim c.committed [
    | some d ↦ (err "cannot start a transaction", record c { tick = suc c.tick })
    | none ↦ elim (refuses c.tick) [
      | some e ↦ (err e, record c { tick = suc c.tick })
      | none ↦ (ok tt, record c { committed = some c.view; tick = suc c.tick })
    ]
  ]

  -- A refused commit leaves the transaction open.
  unfoldable pub commit : Io D (Unit {0})
  commit c = elim (refuses c.tick) [
    | some e ↦ (err e, record c { tick = suc c.tick })
    | none ↦ (ok tt, record c { committed = none; tick = suc c.tick })
  ]

  -- The result is dropped by the source: a refused rollback leaves the transaction open.
  unfoldable pub rollback : Conn D → Conn D
  rollback c = elim (refuses c.tick) [
    | some e ↦ record c { tick = suc c.tick }
    | none ↦ record { view = on_disk c; committed = none; tick = suc c.tick }
  ]

  unfoldable pub finish : {A : Type 0} → Result A × Conn D → Result A × Conn D
  unfolding commit rollback
  finish (ok a, c) = chain (commit c) (λ _ c'. (ok a, c'))
  finish (err e, c) = (err e, rollback c)

  unfoldable pub with_write_txn : {A : Type 0} → Io D A → Io D A
  unfolding begin_immediate finish
  with_write_txn body c = chain (begin_immediate c) (λ _ c'. finish (body c'))
