-- ===== src/Sqlite/Effects.antt =====
-- What a sequence of statements does to the database where none is refused.
use Prim.Native.String.{String}
use cognis.Base.{
  ℕ, ◌≡◌, refl, ap, ◌∙◌, Bool, true, false, if◌then◌else◌, List, [], ◌∷◌, Option, arith,
}
use cognis.Sqlite.{
  Conn, opened, Result, ok, err, on_disk, Io, chain, ◌>>=◌, ◌>>◌, pure, fail, for_each, query,
  execute, execute_count, begin_immediate, commit, finish, with_write_txn,
}
use cognis.Sqlite.Atomic.{IsContained, query-IsContained, execute-IsContained}

-- Where it succeeds, the result is `g` of the database and the database becomes `f` of it. The
-- transaction stays open in any case.
pub record Runs {D A : Type 0} (m : Io D A) (f : D → D) (g : D → A) : Type 0 where
  pub result : (c : Conn D) (a : A) → (m c).0 ≡ ok a → a ≡ g c.view
  pub effect : (c : Conn D) (a : A) → (m c).0 ≡ ok a → (m c).1.view ≡ f c.view
  pub contained : IsContained m

abbrev pub fold : {D X : Type 0} → (X → D → D) → List X → D → D
fold e [] d = d
fold e (x ∷ xs) d = fold e xs (e x d)

err-ne-ok : {A : Type 0} (m : String) (a : A) → err m ≡ ok a → ⊥
err-ne-ok m a e = cc

module _ {D A B : Type 0} {k : A → Io D B} {f' : A → D → D} {g' : A → D → B} where
  bound :
      (r : Result A × Conn D) (a' : A) (d : D) (b : B)
      → ((a : A) → Runs (k a) (f' a) (g' a))
      → ((a : A) → r.0 ≡ ok a → (a ≡ a') × (r.1.view ≡ d))
      → (chain r k).0 ≡ ok b
      → (b ≡ g' a' d) × ((chain r k).1.view ≡ f' a' d)
  bound (ok a, c) a' d b w h e =
      let (p, q) = h a refl in
      (
        (w a).result c b e ∙ ap (λ x. g' x c.view) p ∙ ap (g' a') q,
        (w a).effect c b e ∙ ap (λ x. f' x c.view) p ∙ ap (f' a') q,
      )
  bound (err m, c) a' d b w h e = absurd (err-ne-ok m b e)

  bound_contained :
      (r : Result A × Conn D) (c : Conn D)
      → ((a : A) → Runs (k a) (f' a) (g' a))
      → r.1.committed ≡ c.committed
      → (chain r k).1.committed ≡ c.committed
  bound_contained (ok a, c') c w e = (w a).contained c' ∙ e
  bound_contained (err m, c') c w e = e

  pub bind-Runs :
      {m : Io D A} {f : D → D} {g : D → A}
      → Runs m f g
      → ((a : A) → Runs (k a) (f' a) (g' a))
      → Runs (m >>= k) (λ d. f' (g d) (f d)) (λ d. g' (g d) (f d))
  bind-Runs {m} {f} {g} v w = record {
    result = λ c b e.
        (bound (m c) (g c.view) (f c.view) b w (λ a h. (v.result c a h, v.effect c a h)) e).0;
    effect = λ c b e.
        (bound (m c) (g c.view) (f c.view) b w (λ a h. (v.result c a h, v.effect c a h)) e).1;
    contained = λ c. bound_contained (m c) c w (v.contained c);
  }

pub pure-Runs : {D A : Type 0} (a : A) → Runs {D = D} (pure a) (λ d. d) (λ d. a)
pure-Runs a = record {
  result = λ c b e. ground (arith, e);
  effect = λ c b e. refl;
  contained = λ c. refl;
}

pub fail-Runs : {D A : Type 0} (message : String) (f : D → D) (g : D → A) → Runs (fail message) f g
fail-Runs message f g = record {
  result = λ c b e. absurd (err-ne-ok message b e);
  effect = λ c b e. absurd (err-ne-ok message b e);
  contained = λ c. refl;
}

pub if-Runs :
    {D A : Type 0} (b : Bool) {m n : Io D A} {f f' : D → D} {g g' : D → A}
    → Runs m f g
    → Runs n f' g'
    → Runs (if b then m else n) (λ d. if b then f d else f' d) (λ d. if b then g d else g' d)
if-Runs true v w = v
if-Runs false v w = w

-- Both branches change the database alike.
pub answer-Runs :
    {D A : Type 0} (b : Bool) {m n : Io D A} {f : D → D} {g g' : D → A}
    → Runs m f g
    → Runs n f g'
    → Runs (if b then m else n) f (λ d. if b then g d else g' d)
answer-Runs true v w = v
answer-Runs false v w = w

pub seq-Runs :
    {D B : Type 0} {m : Io D (Unit {0})} {n : Io D B} {f f' : D → D} {g : D → B}
    → Runs m f (λ d. tt)
    → Runs n f' g
    → Runs (m >> n) (λ d. f' (f d)) (λ d. g (f d))
seq-Runs v w = bind-Runs v (λ _. w)

pub for_each-Runs :
    {D X : Type 0} (step : X → Io D (Unit {0})) (e : X → D → D)
    → ((x : X) → Runs (step x) (e x) (λ d. tt))
    → (xs : List X) → Runs (for_each step xs) (fold e xs) (λ d. tt)
unfolding for_each
for_each-Runs step e w [] = pure-Runs tt
for_each-Runs step e w (x ∷ xs) = seq-Runs (w x) (for_each-Runs step e w xs)

module _ {D : Type 0} (refuses : ℕ → Option String) where
  pub query-Runs : {A : Type 0} (g : D → A) → Runs (query refuses g) (λ d. d) g
  unfolding query
  query-Runs g = record {
    result = λ c a e. ground (arith, e);
    effect = λ c a e. ground (arith, e);
    contained = query-IsContained refuses g;
  }

  pub execute-Runs : (f : D → D) → Runs (execute refuses f) f (λ d. tt)
  unfolding execute
  execute-Runs f = record {
    result = λ c a e. refl;
    effect = λ c a e. ground (arith, e);
    contained = execute-IsContained refuses f;
  }

  pub execute_count-Runs : (f : D → D) (n : D → ℕ) → Runs (execute_count refuses f n) f n
  unfolding execute_count
  execute_count-Runs f n = record {
    result = λ c a e. ground (arith, e);
    effect = λ c a e. ground (arith, e);
    contained = λ c. ground arith;
  }

  finished :
      {A : Type 0} (r : Result A) (c : Conn D) (a : A)
      → (finish refuses (r, c)).0 ≡ ok a
      → (r ≡ ok a) × (on_disk (finish refuses (r, c)).1 ≡ c.view)
  unfolding finish commit
  finished r c a e = ground (arith, e)

  begun-view : (c : Conn D) → (begin_immediate refuses c).1.view ≡ c.view
  unfolding begin_immediate
  begun-view c = ground arith

  transacted :
      {A : Type 0} (body : Io D A) {f : D → D} {g : D → A} (m : Result (Unit {0}) × Conn D) (d : D)
      (a : A)
      → Runs body f g
      → m.1.view ≡ d
      → (chain m (λ _ c. finish refuses (body c))).0 ≡ ok a
      → (a ≡ g d) × (on_disk (chain m (λ _ c. finish refuses (body c))).1 ≡ f d)
  transacted body {f} {g} (ok u, c) d a w v e =
      let (p, q) = finished (body c).0 (body c).1 a e in
      (w.result c a p ∙ ap g v, q ∙ w.effect c a p ∙ ap f v)
  transacted body (err m, c) d a w v e = absurd (err-ne-ok m a e)

  -- A transaction that succeeds has committed what its body does.
  pub with_write_txn-ok :
      {A : Type 0} (body : Io D A) {f : D → D} {g : D → A} (d : D) (tick : ℕ) (a : A)
      → Runs body f g
      → (with_write_txn refuses body (opened d tick)).0 ≡ ok a
      → (a ≡ g d) × (on_disk (with_write_txn refuses body (opened d tick)).1 ≡ f d)
  unfolding with_write_txn
  with_write_txn-ok body d tick a w e =
      transacted body (begin_immediate refuses (opened d tick)) d a w (begun-view (opened d tick)) e
