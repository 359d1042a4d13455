-- ===== src/Diffuse/Seeds.antt =====
-- The seeds of the diffusion, `build_seed_distribution` of crates/cognis-csar/src/diffuse.rs.
use cognis.Base.{
  ℕ, ◌≡◌, refl, ◌∙◌, inl, inr, Bool, true, false, not, ◌||◌, List, [], ◌∷◌, ◌++◌, Option, none,
  some, if◌then◌else◌, ◌==◌, arith, Bool-cases,
}
use cognis.BtreeMap.{KeyOrd, nat_order}
use cognis.Table.{lookup, has_key, put, has_key-put}
use cognis.Hits.{Hit}
use cognis.Scalars.{Scalars}
use cognis.Push.Tracked.{mem, Distinct}
use cognis.Diffuse.{
  Extremes, Raw, norm_of, add_node, add_hits, lowest, span_of, add_layer, add_layers, or_zero,
  score_at,
}

-- What the proofs need of the scalars: the floor is over 0, as is a sum with a part over 0.
pub record IsPositive {S E : Type 0} (f : Scalars S) (x : Extremes S E) : Type 0 where
  pub floor : f.le x.thousandth f.zero ≡ false
  pub one : f.le f.one f.zero ≡ false
  pub add : (a b : S) → f.le b f.zero ≡ false → f.le (f.add a b) f.zero ≡ false
  pub lt_of_not_le : (a b : S) → f.le a b ≡ false → f.lt b a ≡ true

-- The order of the nodes and their scores agree: each node once, with a score over 0.
pub record IsRaw {S : Type 0} (f : Scalars S) (r : Raw S) : Type 0 where
  pub distinct : Distinct r.order
  pub same : (u : ℕ) → mem u r.order ≡ has_key u r.raw
  pub positive : (u : ℕ) → (not (has_key u r.raw) || not (f.le (score_at f r.raw u) f.zero)) ≡ true

mem-append : (u v : ℕ) (us : List ℕ) → mem u (us ++ v ∷ []) ≡ (mem u us || (u == v))
mem-append u v [] = ground arith
mem-append u v (w ∷ us) = ground (arith, mem-append u v us)

append-Distinct : (v : ℕ) (us : List ℕ) → mem v us ≡ false → Distinct us → Distinct (us ++ v ∷ [])
append-Distinct v [] h d = (refl, tt)
append-Distinct v (u ∷ us) h (apart, d) =
    (ground (arith, mem-append u v us, apart), append-Distinct v us (ground arith) d)

lookup-put :
    {S : Type 0} (k j : ℕ) (v : S) (m : List (ℕ × S))
    → lookup k (put j v m) ≡ (if k == j then some v else lookup k m)
unfolding lookup put
lookup-put k j v [] = ground arith
lookup-put k j v ((i, w) ∷ m) = ground (arith, lookup-put k j v m)

is_node : Option ℕ → ℕ → Bool
is_node none u = false
is_node (some v) u = u == v

-- A hit of the layers is on a symbol of node `u`.
unfoldable pub names : {K S E : Type 0} ⦃o : KeyOrd K⦄ → List (K × ℕ) → List (Hit K S E) → ℕ → Bool
unfolding is_node
names index [] u = false
names index (h ∷ hits) u = is_node (lookup h.symbol_id index) u || names index hits u

unfoldable pub any_names :
    {K S E : Type 0} ⦃o : KeyOrd K⦄ → List (K × ℕ) → List (List (Hit K S E)) → ℕ → Bool
any_names index [] u = false
any_names index (hits ∷ layers) u = names index hits u || any_names index layers u

module _ {S E : Type 0} (f : Scalars S) (x : Extremes S E) (law : IsPositive f x) where
  norm-positive : (lo span score : S) → f.le (norm_of f x lo span score) f.zero ≡ false
  norm-positive lo span score = ground (arith, law.floor, law.one)

  add_node-IsRaw :
      (u : Option ℕ) (norm : S) (r : Raw S)
      → f.le norm f.zero ≡ false
      → IsRaw f r
      → IsRaw f (add_node f u norm r)
  add_node-IsRaw none norm r h raw = raw
  add_node-IsRaw (some u) norm r h raw = record {
    distinct = elim (Bool-cases (has_key u r.raw)) [
      | inl old ↦ rw old raw.distinct
      | inr new ↦ rw new (append-Distinct u r.order (raw.same u ∙ new) raw.distinct)
    ];
    same = λ v. ground (
      arith,
      has_key-put v u (f.add (or_zero f (lookup u r.raw)) norm) r.raw,
      mem-append v u r.order,
      raw.same v,
    );
    positive = λ v. ground (
      arith,
      has_key-put v u (f.add (or_zero f (lookup u r.raw)) norm) r.raw,
      lookup-put v u (f.add (or_zero f (lookup u r.raw)) norm) r.raw,
      law.add (or_zero f (lookup u r.raw)) norm h,
      raw.positive v,
    );
  }

  has_key-add_node :
      (o : Option ℕ) (norm : S) (r : Raw S) (u : ℕ)
      → has_key u (add_node f o norm r).raw ≡ (has_key u r.raw || is_node o u)
  unfolding is_node
  has_key-add_node none norm r u = ground arith
  has_key-add_node (some v) norm r u =
      ground (arith, has_key-put u v (f.add (or_zero f (lookup v r.raw)) norm) r.raw)

  module _ {K : Type 0} ⦃o : KeyOrd K⦄ (index : List (K × ℕ)) where
    -- The loop keeps the nodes and their scores in step, and adds the nodes that its hits name.
    pub record Adds (named : ℕ → Bool) (r r' : Raw S) : Type 0 where
      pub raw : IsRaw f r'
      pub keys : (u : ℕ) → has_key u r'.raw ≡ (has_key u r.raw || named u)

    add_hits-Adds :
        (lo span : S) (hits : List (Hit K S E)) (r : Raw S)
        → IsRaw f r
        → Adds (names index hits) r (add_hits f x index lo span hits r)
    unfolding add_hits names
    add_hits-Adds lo span [] r raw = record { raw = raw; keys = λ u. ground arith }
    add_hits-Adds lo span (h ∷ hits) r raw =
        let node : Option ℕ = lookup h.symbol_id index in
        let norm : S = norm_of f x lo span h.score in
        let rest : Adds (names index hits) (add_node f node norm r)
            (add_hits f x index lo span hits (add_node f node norm r)) =
          add_hits-Adds lo span hits (add_node f node norm r)
            (add_node-IsRaw node norm r (norm-positive lo span h.score) raw) in
        record {
          raw = rest.raw;
          keys = λ u. ground (arith, rest.keys u, has_key-add_node node norm r u);
        }

    add_layer-Adds :
        (hits : List (Hit K S E)) (r : Raw S)
        → IsRaw f r
        → Adds (names index hits) r (add_layer f x index hits r)
    add_layer-Adds [] r raw = record { raw = raw; keys = λ u. unfold names in ground arith }
    add_layer-Adds (h ∷ hits) r raw =
        add_hits-Adds (lowest f x (h ∷ hits)) (span_of f x (h ∷ hits)) (h ∷ hits) r raw

    pub add_layers-Adds :
        (layers : List (List (Hit K S E))) (r : Raw S)
        → IsRaw f r
        → Adds (any_names index layers) r (add_layers f x index layers r)
    unfolding add_layers any_names
    add_layers-Adds [] r raw = record { raw = raw; keys = λ u. ground arith }
    add_layers-Adds (hits ∷ layers) r raw =
        let first : Adds (names index hits) r (add_layer f x index hits r) =
          add_layer-Adds hits r raw in
        let rest : Adds (any_names index layers) (add_layer f x index hits r)
            (add_layers f x index layers (add_layer f x index hits r)) =
          add_layers-Adds layers (add_layer f x index hits r) first.raw in
        record { raw = rest.raw; keys = λ u. ground (arith, rest.keys u, first.keys u) }
