-- ===== src/Sqlite/Transactions.antt =====
-- Properties of the database that every statement keeps, and what a failed transaction leaves.
use Prim.Native.String.{String}
use cognis.Base.{
  ℕ, ◌≡◌, refl, sym, subst, Bool, true, false, if◌then◌else◌, Option, ◌⊎◌, inl, inr, arith,
}
use cognis.Sqlite.{
  Conn, Result, ok, err, on_disk, Io, chain, query, execute, begin_immediate, commit, rollback,
  finish, with_write_txn,
}

-- A property of what the connection sees and of what is committed.
abbrev pub Holds : {D : Type 0} → (D → Type 0) → Conn D → Type 0
Holds P c = P c.view × P (on_disk c)

abbrev pub Keeps : {D A : Type 0} → (D → Type 0) → Io D A → Type 0
Keeps {D} P body = (c : Conn D) → Holds P c → Holds P (body c).1

pick : {D : Type 0} (P : D → Type 0) {a b x : D} → P a → P b → (x ≡ a) ⊎ (x ≡ b) → P x
pick P pa pb (inl e) = subst P (sym e) pa
pick P pa pb (inr e) = subst P (sym e) pb

pub chain-Keeps :
    {D A B : Type 0} (P : D → Type 0) (m : Result A × Conn D) (f : A → Io D B)
    → Holds P m.1
    → ((a : A) → Keeps P (f a))
    → Holds P (chain m f).1
chain-Keeps P (ok a, c) f h k = k a c h
chain-Keeps P (err e, c) f h k = h

pub chain-Holds :
    {D A B : Type 0} (P : D → Type 0) (m : Result A × Conn D) (f : A → Io D B)
    → Holds P m.1
    → ((a : A) → m.0 ≡ ok a → Holds P (f a m.1).1)
    → Holds P (chain m f).1
chain-Holds P (ok a, c) f h k = k a refl
chain-Holds P (err e, c) f h k = h

pub if-Holds :
    {D A : Type 0} (P : D → Type 0) (b : Bool) (m n : A × Conn D)
    → (b ≡ true → Holds P m.1)
    → (b ≡ false → Holds P n.1)
    → Holds P (if b then m else n).1
if-Holds P true m n h k = h refl
if-Holds P false m n h k = k refl

module _ {D : Type 0} (refuses : ℕ → Option String) where
  query-Conn :
      {A : Type 0} (f : D → A) (c : Conn D)
      → ((query refuses f c).1.view ≡ c.view) × (on_disk (query refuses f c).1 ≡ on_disk c)
  unfolding query
  query-Conn f c = ground arith

  pub query_ok :
      {A : Type 0} (f : D → A) (c : Conn D) (a : A)
      → (query refuses f c).0 ≡ ok a
      → a ≡ f (query refuses f c).1.view
  unfolding query
  query_ok f c a e = ground (arith, e)

  execute-Conn :
      (f : D → D) (c : Conn D)
      → (((execute refuses f c).1.view ≡ c.view) ⊎ ((execute refuses f c).1.view ≡ f c.view))
        × ((on_disk (execute refuses f c).1 ≡ on_disk c)
            ⊎ (on_disk (execute refuses f c).1 ≡ f c.view))
  unfolding execute
  execute-Conn f c = ground arith

  begin-Conn :
      (c : Conn D)
      → ((begin_immediate refuses c).1.view ≡ c.view)
        × (on_disk (begin_immediate refuses c).1 ≡ on_disk c)
  unfolding begin_immediate
  begin-Conn c = ground arith

  finish-Conn :
      {A : Type 0} (r : Result A) (c : Conn D)
      → (((finish refuses (r, c)).1.view ≡ c.view) ⊎ ((finish refuses (r, c)).1.view ≡ on_disk c))
        × ((on_disk (finish refuses (r, c)).1 ≡ on_disk c)
            ⊎ (on_disk (finish refuses (r, c)).1 ≡ c.view))
  unfolding finish commit rollback
  finish-Conn r c = ground arith

  module _ (P : D → Type 0) where
    pub query-Keeps : {A : Type 0} (f : D → A) → Keeps P (query refuses f)
    query-Keeps f c h = let (v, w) = query-Conn f c in (subst P (sym v) h.0, subst P (sym w) h.1)

    -- The new database need have the property only where the old one has it.
    pub execute-Holds :
        (f : D → D) (c : Conn D) → P (f c.view) → Holds P c → Holds P (execute refuses f c).1
    execute-Holds f c p h = let (v, w) = execute-Conn f c in (pick P h.0 p v, pick P h.1 p w)

    pub execute-Keeps : (f : D → D) → ((d : D) → P d → P (f d)) → Keeps P (execute refuses f)
    execute-Keeps f k c h = execute-Holds f c (k c.view h.0) h

    pub with_write_txn-Keeps :
        {A : Type 0} (body : Io D A) → Keeps P body → Keeps P (with_write_txn refuses body)
    unfolding with_write_txn
    with_write_txn-Keeps body k c h =
        let (v, w) = begin-Conn c in
        chain-Keeps P (begin_immediate refuses c) (λ _ c'. finish refuses (body c'))
          (subst P (sym v) h.0, subst P (sym w) h.1)
          (λ _ c' h'.
            let (a, b) = finish-Conn (body c').0 (body c').1 in
            let (p, q) = k c' h' in (pick P p q a, pick P q p b))
