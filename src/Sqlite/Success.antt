-- ===== src/Sqlite/Success.antt =====
-- When a sequence of statements succeeds, where SQLite refuses none of them.
use Prim.Native.String.{String}
use cognis.Base.{
  ℕ, ◌≡◌, refl, sym, subst, Bool, true, false, if◌then◌else◌, List, [], ◌∷◌, Option, none, arith,
}
use cognis.Sqlite.{
  Conn, opened, Result, ok, err, Io, chain, ◌>>=◌, ◌>>◌, pure, for_each, query, execute,
  execute_count, begin_immediate, commit, finish, with_write_txn,
}
use cognis.Sqlite.Effects.{Runs}

abbrev pub is_ok : {A : Type 0} → Result A → Bool
is_ok (ok a) = true
is_ok (err m) = false

-- From a database with `P`, the statements succeed.
pub record Succeeds {D A : Type 0} (P : D → Type 0) (m : Io D A) : Type 0 where
  pub succeeds : (c : Conn D) → P c.view → is_ok (m c).0 ≡ true

pub record Always {D A : Type 0} (m : Io D A) : Type 0 where
  pub always : (c : Conn D) → is_ok (m c).0 ≡ true

pub weaken : {D A : Type 0} (P : D → Type 0) {m : Io D A} → Always m → Succeeds P m
weaken P v = record { succeeds = λ c p. v.always c }

false-ne-true : false ≡ true → ⊥
false-ne-true e = cc

chained :
    {D A B : Type 0} (k : A → Io D B) (r : Result A × Conn D)
    → is_ok r.0 ≡ true
    → ((a : A) → r.0 ≡ ok a → is_ok (k a r.1).0 ≡ true)
    → is_ok (chain r k).0 ≡ true
chained k (ok a, c) e h = h a refl
chained k (err m, c) e h = absurd (false-ne-true e)

module _ {D A B : Type 0} {k : A → Io D B} where
  pub bind-Always : {m : Io D A} → Always m → ((a : A) → Always (k a)) → Always (m >>= k)
  bind-Always {m} v w = record {
    always = λ c. chained k (m c) (v.always c) (λ a e. (w a).always (m c).1);
  }

  pub bind-Succeeds :
      {m : Io D A} {f : D → D} {g : D → A} (P : D → Type 0) (Q : A → D → Type 0)
      → Runs m f g
      → Succeeds P m
      → ((a : A) → Succeeds (Q a) (k a))
      → ((d : D) → P d → Q (g d) (f d))
      → Succeeds P (m >>= k)
  bind-Succeeds {m} P Q r v w h = record {
    succeeds = λ c p. chained k (m c) (v.succeeds c p) (λ a e. (w a).succeeds (m c).1 (
        subst (λ a. Q a (m c).1.view) (sym (r.result c a e))
          (subst (Q _) (sym (r.effect c a e)) (h c.view p))));
  }

pub seq-Always :
    {D B : Type 0} {m : Io D (Unit {0})} {n : Io D B} → Always m → Always n → Always (m >> n)
seq-Always v w = bind-Always v (λ _. w)

pub seq-Succeeds :
    {D B : Type 0} {m : Io D (Unit {0})} {n : Io D B} {f : D → D} (P Q : D → Type 0)
    → Runs m f (λ d. tt)
    → Succeeds P m
    → Succeeds Q n
    → ((d : D) → P d → Q (f d))
    → Succeeds P (m >> n)
seq-Succeeds P Q r v w h = bind-Succeeds P (λ _. Q) r v (λ _. w) h

pub pure-Always : {D A : Type 0} (a : A) → Always {D = D} (pure a)
pure-Always a = record { always = λ c. refl }

pub if-Always :
    {D A : Type 0} (b : Bool) {m n : Io D A} → Always m → Always n → Always (if b then m else n)
if-Always true v w = v
if-Always false v w = w

pub for_each-Always :
    {D X : Type 0} (step : X → Io D (Unit {0}))
    → ((x : X) → Always (step x))
    → (xs : List X) → Always (for_each step xs)
unfolding for_each
for_each-Always step w [] = pure-Always tt
for_each-Always step w (x ∷ xs) = seq-Always (w x) (for_each-Always step w xs)

module _ {D : Type 0} (refuses : ℕ → Option String) (never : (n : ℕ) → refuses n ≡ none) where
  pub query-Always : {A : Type 0} (g : D → A) → Always (query refuses g)
  unfolding query
  query-Always g = record { always = λ c. ground (arith, never c.tick) }

  pub execute-Always : (f : D → D) → Always (execute refuses f)
  unfolding execute
  execute-Always f = record { always = λ c. ground (arith, never c.tick) }

  pub execute_count-Always : (f : D → D) (n : D → ℕ) → Always (execute_count refuses f n)
  unfolding execute_count
  execute_count-Always f n = record { always = λ c. ground (arith, never c.tick) }

  finished :
      {A : Type 0} (r : Result A × Conn D) → is_ok r.0 ≡ true → is_ok (finish refuses r).0 ≡ true
  unfolding finish commit
  finished (ok a, c) e = ground (arith, never c.tick)
  finished (err m, c) e = absurd (false-ne-true e)

  begun :
      (d : D) (tick : ℕ)
      → (begin_immediate refuses (opened d tick)).0 ≡ ok tt
        × ((begin_immediate refuses (opened d tick)).1.view ≡ d)
  unfolding begin_immediate
  begun d tick = ground (arith, never tick)

  transacted :
      {A : Type 0} (P : D → Type 0) (body : Io D A) (m : Result (Unit {0}) × Conn D) (d : D)
      → Succeeds P body
      → P d
      → m.0 ≡ ok tt
      → m.1.view ≡ d
      → is_ok (chain m (λ _ c. finish refuses (body c))).0 ≡ true
  transacted P body (ok u, c) d w p e v = finished (body c) (w.succeeds c (subst P (sym v) p))
  transacted P body (err m, c) d w p e v = cc

  pub with_write_txn-Succeeds :
      {A : Type 0} (P : D → Type 0) (body : Io D A) (d : D) (tick : ℕ)
      → Succeeds P body
      → P d
      → is_ok (with_write_txn refuses body (opened d tick)).0 ≡ true
  unfolding with_write_txn
  with_write_txn-Succeeds P body d tick w p =
      let (e, v) = begun d tick in
      transacted P body (begin_immediate refuses (opened d tick)) d w p e v
