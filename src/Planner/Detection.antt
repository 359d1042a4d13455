-- ===== src/Planner/Detection.antt =====
-- What the planner finds, for each kind of request.
use Prim.Native.String.{String}
use cognis.Base.{
  ◌≡◌, refl, sym, ap, Bool, true, false, ◌||◌, ◌&&◌, not, List, [], ◌∷◌, Option, none, some,
  if◌then◌else◌, arith,
}
use cognis.BtreeMap.{KeyOrd, contains_key, get, insert}
use cognis.Table.{has_key}
use cognis.Sqlite.{Result, ok, err}
use cognis.Publish.Apply.{contains}
use cognis.Publish.Deleted.{contains-add}
use cognis.Planner.Scan.{
  CachedFile, PlannedFile, Env, Found, ◌>>=◌, is_unchanged, with_symbols, with_bytes, inspect,
  inspect_all,
}

abbrev pub is_some : {A : Type 0} → Option A → Bool
is_some none = false
is_some (some a) = true

pub err-ne-ok : {A : Type 0} (m : String) (a : A) → err m ≡ ok a → ⊥
err-ne-ok m a e = cc

joined :
    (e c d d' a b x : Bool)
    → (e ≡ true → d ≡ d')
    → b ≡ ((e && d) || a)
    → x ≡ ((c && d') || b)
    → x ≡ (((e || c) && d') || a)
joined e c d d' a b x h q r = ground (arith, h, q, r)

module _ {K V : Type 0} ⦃o : KeyOrd K⦄ where
  pub contains_key-get : (k : K) (m : List (K × V)) → contains_key k m ≡ is_some (get k m)
  unfolding contains_key get
  contains_key-get k [] = refl
  contains_key-get k ((j, v) ∷ m) = ground (arith, contains_key-get k m)

  pub has_key-insert :
      (k j : K) (v : V) (m : List (K × V)) → has_key k (insert j v m) ≡ (o.eq k j || has_key k m)
  unfolding has_key insert
  has_key-insert k j v [] = refl
  has_key-insert k j v ((i, w) ∷ m) =
      ground (arith, has_key-insert k j v m, o.eq_iff k j, o.eq_iff j i, o.eq_iff k i)

module _ {K S B : Type 0} ⦃o : KeyOrd K⦄ (env : Env K S B) where
  abbrev pub symbols_differ : Bool → Option CachedFile → B → Result (List S) → Bool
  symbols_differ is_full row bytes (err m) = false
  symbols_differ is_full row bytes (ok old_symbols) =
      not (is_unchanged env is_full row bytes old_symbols)

  abbrev pub bytes_differ : Bool → Option CachedFile → K → Option B → Bool
  bytes_differ is_full row p none = false
  bytes_differ is_full row p (some bytes) = symbols_differ is_full row bytes (env.symbols_in_file p)

  -- A readable file that is parsed again, and one that cannot be read any more.
  abbrev pub differs : Bool → Option CachedFile → K → Bool
  differs is_full row p = bytes_differ is_full row p (env.read_exact_bytes p)

  abbrev pub vanished : Option CachedFile → K → Bool
  vanished row p = is_some row && not (is_some (env.read_exact_bytes p))

  -- The files found with one path more.
  abbrev Extends : Bool → Bool → K → K → Found K S → Found K S → Type 0
  Extends d v k p f g =
      (has_key k g.changed ≡ ((o.eq k p && d) || has_key k f.changed))
      × (contains k g.deleted ≡ ((o.eq k p && v) || contains k f.deleted))

  with_file :
      (u : Bool) (r : Result (PlannedFile K S)) (k p : K) (f g : Found K S)
      → (if u then ok f else (r >>= λ file. ok (record f { changed = insert p file f.changed })))
        ≡ ok g
      → Extends (not u) false k p f g
  with_file true r k p f g e = ground (arith, e)
  with_file false (ok file) k p f g e = ground (arith, e, has_key-insert k p file f.changed)
  with_file false (err m) k p f g e = absurd (err-ne-ok m g e)

  with_old :
      (is_full : Bool) (cache : List (K × CachedFile)) (k p : K) (f g : Found K S) (bytes : B)
      (r : Result (List S))
      → (r >>= λ old. with_symbols env is_full cache p f bytes old) ≡ ok g
      → Extends (symbols_differ is_full (get p cache) bytes r) false k p f g
  with_old is_full cache k p f g bytes (ok old) e =
      with_file (is_unchanged env is_full (get p cache) bytes old)
        (env.parse_file p bytes (env.exact_byte_hash bytes) old) k p f g e
  with_old is_full cache k p f g bytes (err m) e = absurd (err-ne-ok m g e)

  with_bytes-Extends :
      (is_full : Bool) (cache : List (K × CachedFile)) (k p : K) (f g : Found K S) (b : Option B)
      → with_bytes env is_full cache p f b ≡ ok g
      → Extends
          (bytes_differ is_full (get p cache) p b)
          (is_some (get p cache) && not (is_some b))
          k
          p
          f
          g
  with_bytes-Extends is_full cache k p f g none e =
      ground (arith, e, contains_key-get p cache, contains-add k p f.deleted)
  with_bytes-Extends is_full cache k p f g (some bytes) e =
      let (c, d) = with_old is_full cache k p f g bytes (env.symbols_in_file p) e in
      (c, ground (arith, d))

  abbrev pub Covers : Bool → List (K × CachedFile) → List K → K → Found K S → Found K S → Type 0
  Covers is_full cache ps k f g =
      (has_key k g.changed
        ≡ ((contains k ps && differs is_full (get k cache) k) || has_key k f.changed))
      × (contains k g.deleted
          ≡ ((contains k ps && vanished (get k cache) k) || contains k f.deleted))

  extend-Covers :
      (is_full : Bool) (cache : List (K × CachedFile)) (ps : List K) (k p : K) (f g h : Found K S)
      → Extends (differs is_full (get p cache) p) (vanished (get p cache) p) k p f g
      → Covers is_full cache ps k g h
      → Covers is_full cache (p ∷ ps) k f h
  unfolding contains
  extend-Covers is_full cache ps k p f g h (c, d) (c', d') = (
    joined (o.eq k p) (contains k ps) (differs is_full (get p cache) p)
        (differs is_full (get k cache) k) (has_key k f.changed) (has_key k g.changed)
        (has_key k h.changed)
        (λ t. ap (λ q. differs is_full (get q cache) q) (sym ((o.eq_iff k p).0 t))) c c',
    joined (o.eq k p) (contains k ps) (vanished (get p cache) p) (vanished (get k cache) k)
        (contains k f.deleted) (contains k g.deleted) (contains k h.deleted)
        (λ t. ap (λ q. vanished (get q cache) q) (sym ((o.eq_iff k p).0 t))) d d',
  )

  after_first :
      (is_full : Bool) (cache : List (K × CachedFile)) (k p : K) (ps : List K) (f h : Found K S)
      (r : Result (Found K S))
      → ((g : Found K S)
          → inspect_all env is_full cache ps g ≡ ok h
          → Covers is_full cache ps k g h)
      → inspect env is_full cache p f ≡ r
      → (r >>= λ g. inspect_all env is_full cache ps g) ≡ ok h
      → Covers is_full cache (p ∷ ps) k f h
  unfolding inspect
  after_first is_full cache k p ps f h (ok g) rest q e =
      extend-Covers is_full cache ps k p f g h
        (with_bytes-Extends is_full cache k p f g (env.read_exact_bytes p) q) (rest g e)
  after_first is_full cache k p ps f h (err m) rest q e = absurd (err-ne-ok m h e)

  pub inspect_all-Covers :
      (is_full : Bool) (cache : List (K × CachedFile)) (k : K) (ps : List K) (f h : Found K S)
      → inspect_all env is_full cache ps f ≡ ok h
      → Covers is_full cache ps k f h
  unfolding inspect_all contains
  inspect_all-Covers is_full cache k [] f h e = ground (arith, e)
  inspect_all-Covers is_full cache k (p ∷ ps) f h e =
      after_first is_full cache k p ps f h (inspect env is_full cache p f)
        (λ g q. inspect_all-Covers is_full cache k ps g h q) refl e
