-- ===== src/Sqlite/Atomic.antt =====
-- A write transaction that fails changes nothing that is committed.
use Prim.Native.String.{String}
use cognis.Base.{ℕ, ◌≡◌, refl, ◌∙◌, Bool, true, false, Option, some, arith, if◌then◌else◌}
use cognis.Sqlite.{
  Conn, opened, Result, ok, err, on_disk, Io, chain, query, execute, begin_immediate, commit,
  rollback, finish, with_write_txn,
}

-- The body neither ends the transaction nor opens one.
abbrev pub IsContained : {D A : Type 0} → Io D A → Type 0
IsContained {D} body = (c : Conn D) → (body c).1.committed ≡ c.committed

pub chain-IsContained :
    {D A B : Type 0} (m : Result A × Conn D) (f : A → Io D B) (c : Conn D)
    → m.1.committed ≡ c.committed
    → ((a : A) → IsContained (f a))
    → (chain m f).1.committed ≡ c.committed
chain-IsContained (ok a, c') f c e k = k a c' ∙ e
chain-IsContained (err m, c') f c e k = e

pub if-committed :
    {D A : Type 0} (b : Bool) (m n : A × Conn D) (c : Conn D)
    → m.1.committed ≡ c.committed
    → n.1.committed ≡ c.committed
    → (if b then m else n).1.committed ≡ c.committed
if-committed true m n c e f = e
if-committed false m n c e f = f

module _ {D : Type 0} (refuses : ℕ → Option String) where
  pub query-IsContained : {A : Type 0} (f : D → A) → IsContained (query refuses f)
  unfolding query
  query-IsContained f c = ground arith

  pub execute-IsContained : (f : D → D) → IsContained (execute refuses f)
  unfolding execute
  execute-IsContained f c = ground arith

  finish-failed :
      {A : Type 0} (r : Result A) (c : Conn D) (d : D) (message : String)
      → c.committed ≡ some d
      → (finish refuses (r, c)).0 ≡ err message
      → on_disk (finish refuses (r, c)).1 ≡ d
  unfolding finish commit rollback
  finish-failed r c d message e h = ground (arith, e, h)

  begin-opened :
      (d : D) (tick : ℕ) (u : Unit {0})
      → (begin_immediate refuses (opened d tick)).0 ≡ ok u
      → (begin_immediate refuses (opened d tick)).1.committed ≡ some d
  unfolding begin_immediate
  begin-opened d tick u e = ground (arith, e)

  begin-disk : (d : D) (tick : ℕ) → on_disk (begin_immediate refuses (opened d tick)).1 ≡ d
  unfolding begin_immediate
  begin-disk d tick = ground arith

  begun-failed :
      {A : Type 0} (body : Io D A) (d : D) (message : String) (m : Result (Unit {0}) × Conn D)
      → IsContained body
      → ((u : Unit {0}) → m.0 ≡ ok u → m.1.committed ≡ some d)
      → on_disk m.1 ≡ d
      → (chain m (λ _ c. finish refuses (body c))).0 ≡ err message
      → on_disk (chain m (λ _ c. finish refuses (body c))).1 ≡ d
  begun-failed body d message (ok u, c) k b e h =
      finish-failed (body c).0 (body c).1 d message (k c ∙ b u refl) h
  begun-failed body d message (err m, c) k b e h = e

  pub with_write_txn-failed :
      {A : Type 0} (body : Io D A) (d : D) (tick : ℕ) (message : String)
      → IsContained body
      → (with_write_txn refuses body (opened d tick)).0 ≡ err message
      → on_disk (with_write_txn refuses body (opened d tick)).1 ≡ d
  unfolding with_write_txn
  with_write_txn-failed body d tick message k =
      begun-failed body d message (begin_immediate refuses (opened d tick)) k (begin-opened d tick)
        (begin-disk d tick)
