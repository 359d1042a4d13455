-- ===== src/Publish/Kept.antt =====
-- What the changes of the vector table do not touch.
use cognis.Base.{
  ℕ, ◌≡◌, refl, ◌∙◌, Bool, true, false, ◌||◌, List, [], ◌∷◌, Option, none, some, if◌then◌else◌,
}
use cognis.BtreeMap.{KeyOrd}
use cognis.Sqlite.Effects.{fold}
use cognis.Publish.{VectorSpaceFingerprint, Store}
use cognis.Publish.Apply.{Setup, vector_insert, clear_vectors, set_space}
use cognis.Publish.Vectors.{
  not_equal_bool, other_dim, space_changed, compatible, preserves, recreate_vec_table,
}
use cognis.Publish.Space.{installed, reshaped}

-- A change of the rows keeps what none of its steps changes.
pub fold-keeps :
    {D X A : Type 0} (p : D → A) (e : X → D → D)
    → ((x : X) (d : D) → p (e x d) ≡ p d)
    → (xs : List X) (d : D) → p (fold e xs d) ≡ p d
fold-keeps p e h [] d = refl
fold-keeps p e h (x ∷ xs) d = fold-keeps p e h xs (e x d) ∙ h x d

pub if-keeps :
    {D A : Type 0} (p : D → A) (b : Bool) (x y : D) (a : A)
    → p x ≡ a
    → p y ≡ a
    → p (if b then x else y) ≡ a
if-keeps p true x y a e f = e
if-keeps p false x y a e f = f

module _ {K R V F J A : Type 0} ⦃o : KeyOrd K⦄ (setup : Setup V J) (p : Store K R V F J → A)
    (h : (x : K × V) (d : Store K R V F J) → p (vector_insert x d) ≡ p d)
    (m : (n : ℕ) (d : Store K R V F J) → p (recreate_vec_table setup n d) ≡ p d)
    (c : (d : Store K R V F J) → p (clear_vectors d) ≡ p d)
    (s : (f : VectorSpaceFingerprint) (now : ℕ) (d : Store K R V F J)
      → p (set_space f now d) ≡ p d) where
  reshaped-keeps :
      (f : VectorSpaceFingerprint) (moved is_vec0 : Bool) (vec_dim : Option ℕ) (d : Store K R V F J)
      → p (reshaped setup f moved is_vec0 vec_dim d) ≡ p d
  reshaped-keeps f moved is_vec0 vec_dim d =
      let kept =
        if preserves moved (other_dim f.dim vec_dim) is_vec0 setup.vec_ext_ok
        then compatible setup.vector_len f.dim d.vectors
        else [] in
      if-keeps p (not_equal_bool setup.vec_ext_ok is_vec0 || other_dim f.dim vec_dim)
        (fold vector_insert kept (recreate_vec_table setup f.dim d))
        (if moved then clear_vectors d else d) (p d)
        (fold-keeps p vector_insert h kept (recreate_vec_table setup f.dim d) ∙ m f.dim d)
        (if-keeps p moved (clear_vectors d) d (p d) (c d) refl)

  pub installed-keeps :
      (f : Option VectorSpaceFingerprint) (q : Option (VectorSpaceFingerprint × ℕ)) (now : ℕ)
      (d : Store K R V F J)
      → p (installed setup f q now d) ≡ p d
  installed-keeps none q now d = refl
  installed-keeps (some f) q now d =
      s f now (reshaped setup f (space_changed f q) d.is_vec0 d.vec_dim d)
      ∙ reshaped-keeps f (space_changed f q) d.is_vec0 d.vec_dim d
