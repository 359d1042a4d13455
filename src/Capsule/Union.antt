-- ===== src/Capsule/Union.antt =====
-- The composed capsule is an additive union.
use cognis.Base.{
  if◌then◌else◌, ℕ, suc, ◌+◌, ◌≤◌, ◌<◌, ◌≡◌, refl, sym, ap, ◌∙◌, Bool, true, false, ◌||◌, List, [],
  ◌∷◌, ◌++◌, ◌==◌, length, length-append, arith, Bool-cases, inl, inr,
}
use mathlib.Core.List.{append-nil}
use cognis.BtreeMap.{KeyOrd}
use cognis.Hits.{Hit, Floats, Rendering, ids, member, IsDistinct}
use cognis.Hits.Laws.{member-append, IsDistinct-append}
use cognis.Fusion.{flat, not_positive, rrf_fuse}
use cognis.Fusion.Fused.{rrf_fuse-IsDistinct, member-rrf_fuse}
use cognis.Capsule.{to_add, extend, compose_capsule, compose_capsule_with_edges}

module _ {K S E : Type 0} ⦃o : KeyOrd K⦄ where
  ids-append : (xs ys : List (Hit K S E)) → ids (xs ++ ys) ≡ ids xs ++ ids ys
  ids-append [] ys = refl
  ids-append (x ∷ xs) ys = ap (◌∷◌ x.symbol_id) (ids-append xs ys)

  length-to_add :
      (k len : ℕ) (seen : List K) (hits : List (Hit K S E))
      → len ≤ k
      → len + length (to_add k len seen hits) ≤ k
  unfolding to_add
  length-to_add k len seen [] h = omega arith
  length-to_add k len seen (hit ∷ hits) h =
      ground (
        arith,
        length-to_add k len seen hits,
        length-to_add k (suc len) (hit.symbol_id ∷ seen) hits,
      )

  -- What is added is new, and is added once.
  member-to_add :
      (p : K) (k len : ℕ) (seen : List K) (hits : List (Hit K S E))
      → member p seen ≡ true
      → member p (ids (to_add k len seen hits)) ≡ false
  unfolding to_add member
  member-to_add p k len seen [] h = refl
  member-to_add p k len seen (hit ∷ hits) h = ground (
    arith,
    member-to_add p k len seen hits h,
    member-to_add p k (suc len) (hit.symbol_id ∷ seen) hits,
    o.eq_iff p hit.symbol_id,
  )

  IsDistinct-to_add :
      (k len : ℕ) (seen : List K) (hits : List (Hit K S E))
      → IsDistinct (ids (to_add k len seen hits))
  unfolding to_add member
  IsDistinct-to_add k len seen [] = tt
  IsDistinct-to_add k len seen (hit ∷ hits) = ground (
    arith,
    IsDistinct-to_add k len seen hits,
    IsDistinct-to_add k (suc len) (hit.symbol_id ∷ seen) hits,
    member-to_add hit.symbol_id k (suc len) (hit.symbol_id ∷ seen) hits,
    o.eq_iff hit.symbol_id hit.symbol_id,
  )

  -- While there is room every hit of the context is taken, and nothing else.
  member-to_add_room :
      (p : K) (k len : ℕ) (seen : List K) (hits : List (Hit K S E))
      → len + length (to_add k len seen hits) < k
      → member p seen || member p (ids (to_add k len seen hits))
        ≡ member p seen || member p (ids hits)
  unfolding to_add member
  member-to_add_room p k len seen [] h = refl
  member-to_add_room p k len seen (hit ∷ hits) h = ground (
    arith,
    member-to_add_room p k len seen hits,
    member-to_add_room p k (suc len) (hit.symbol_id ∷ seen) hits,
    o.eq_iff p hit.symbol_id,
  )

  extend-IsDistinct :
      (k : ℕ) (composed context : List (Hit K S E))
      → (length composed ≤ k) × IsDistinct (ids composed)
      → (length (extend k composed context) ≤ k) × IsDistinct (ids (extend k composed context))
  unfolding extend
  extend-IsDistinct k composed context (l, d) =
      let more = to_add k (length composed) (ids composed) context in
      (
        omega (
          arith,
          length-append composed more,
          length-to_add k (length composed) (ids composed) context,
        ),
        rw (ids-append composed more) (
            IsDistinct-append (ids composed) (ids more) d
              (IsDistinct-to_add k (length composed) (ids composed) context)
              (λ p m. member-to_add p k (length composed) (ids composed) context m)),
      )

  extend_lem :
      (k : ℕ) (composed context : List (Hit K S E))
      → extend k composed context ≡ composed ++ to_add k (length composed) (ids composed) context
  unfolding extend
  extend_lem k composed context = refl

  length-extend :
      (k : ℕ) (composed context : List (Hit K S E))
      → length composed ≤ length (extend k composed context)
  unfolding extend
  length-extend k composed context =
      omega (arith, length-append composed (to_add k (length composed) (ids composed) context))

  extend_room :
      (p : K) (k : ℕ) (composed context : List (Hit K S E))
      → length (extend k composed context) < k
      → member p (ids (extend k composed context))
        ≡ member p (ids composed) || member p (ids context)
  unfolding extend
  extend_room p k composed context h =
      let more = to_add k (length composed) (ids composed) context in
      rw (ids-append composed more, member-append p (ids composed) (ids more))
        (member-to_add_room p k (length composed) (ids composed) context
          (omega (arith, length-append composed more)))

module _ {K S E : Type 0} ⦃o : KeyOrd K⦄ (f : Floats S) (r : Rendering S E) where
  -- The fused ranking of the direct layers is a prefix of the capsule: structural context is only
  -- appended.
  pub compose_capsule-prefix :
      (layers : List (List (Hit K S E))) (csar : List (Hit K S E)) (k : ℕ) (x : S)
      → (rest : List (Hit K S E)) × (compose_capsule f r layers csar k x
          ≡ rrf_fuse f r layers k x ++ rest)
  unfolding compose_capsule extend rrf_fuse
  compose_capsule-prefix layers csar k x = elim (Bool-cases (k == 0)) [
    | inl e ↦ ([], rw e)
    | inr e ↦
        let fused = rrf_fuse f r layers k x in (to_add k (length fused) (ids fused) csar, rw e)
  ]

  -- A capsule has at most `k` hits, and no symbol twice.
  compose_capsule-IsDistinct :
      (layers : List (List (Hit K S E))) (csar : List (Hit K S E)) (k : ℕ) (x : S)
      → (length (compose_capsule f r layers csar k x) ≤ k)
        × IsDistinct (ids (compose_capsule f r layers csar k x))
  unfolding compose_capsule
  compose_capsule-IsDistinct layers csar k x = elim (Bool-cases (k == 0)) [
    | inl e ↦ rw e (omega arith, tt)
    | inr e ↦
        rw e
          (extend-IsDistinct k (rrf_fuse f r layers k x) csar (rrf_fuse-IsDistinct f r layers k x))
  ]

  -- With a positive damping constant, a capsule that is not full holds exactly the symbols that
  -- some direct layer or the structural context found.
  pub member-compose_capsule :
      (p : K) (layers : List (List (Hit K S E))) (csar : List (Hit K S E)) (k : ℕ) (x : S)
      → not_positive f x ≡ false
      → length (compose_capsule f r layers csar k x) < k
      → member p (ids (compose_capsule f r layers csar k x))
        ≡ member p (ids (flat layers)) || member p (ids csar)
  unfolding compose_capsule
  member-compose_capsule p layers csar k x h l = elim (Bool-cases (k == 0)) [
    | inl e ↦ absurd (ground arith)
    | inr e ↦
        let fused = rrf_fuse f r layers k x in
        let room : length (extend k fused csar) < k = ground (arith, l, e) in
        let short : length fused < k = omega (arith, length-extend k fused csar) in
        rw e (
          extend_room p k fused csar room
          ∙ ap (λ b. b || member p (ids csar)) (member-rrf_fuse f r p layers k x h short))
  ]

  -- With the flag off the capsule is the one without edges. With it on, edge context of new symbols
  -- only follows the directly retrieved hits. Either way there are at most `k` hits, and no symbol
  -- twice.
  pub compose_capsule_with_edges-prefix :
      (layers : List (List (Hit K S E))) (csar edges : List (Hit K S E)) (k : ℕ) (x : S)
      (flag : Bool)
      → let out = compose_capsule_with_edges f r layers csar edges k x flag in
        let core = compose_capsule f r layers csar k x in
        (out ≡ core ++ (if flag then to_add k (length core) (ids core) edges else []))
        × (length out ≤ k)
        × IsDistinct (ids out)
  unfolding compose_capsule_with_edges
  compose_capsule_with_edges-prefix layers csar edges k x true =
      let core = compose_capsule f r layers csar k x in
      let (bound, once) =
        extend-IsDistinct k core edges (compose_capsule-IsDistinct layers csar k x) in
      (extend_lem k core edges, bound, once)
  compose_capsule_with_edges-prefix layers csar edges k x false =
      let core = compose_capsule f r layers csar k x in
      let (bound, once) = compose_capsule-IsDistinct layers csar k x in
      (sym (append-nil core), bound, once)
