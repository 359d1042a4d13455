-- ===== src/Lease/Exclusion.antt =====
-- What an acquired lease is worth, and that a live lease excludes other processes.
use text.Mathlib.Text.{◌==◌ as str_eq}
use text.Mathlib.TextEquality.{eq_iff}
use text.Mathlib.TextPositions.{eq_refl}
use cognis.Base.{
  ℕ, suc, ◌<◌, ◌≡◌, ◌∙◌, subst, refl, false, ◌&&◌, not, Option, none, some, lt→ltb, arith,
  Bool-cases, inl, inr,
}
use cognis.Lease.{
  LeaseRecord, LeaseFile, missing, corrupt, holds, invalid_data, Result, ok, err, Env, World,
  HeldLease, AcquireOutcome, acquired, attached, chain, now, arrive, is_live_at, is_self, parse,
  read_lease, rename, write_lease_atomic, new_owner_record, verify_retry, retry, verify, claim,
  first_read, acquire_or_attach,
}

-- Writes do not fail.
pub record IsReliable (env : Env) : Type 0 where
  pub prepares : (i : ℕ) → env.prepare_fails i ≡ false
  pub renames : (i : ℕ) → env.rename_fails i ≡ false

-- Nor do reads, and no other process touches the file.
pub record IsQuiet (env : Env) : Type 0 where
  pub untouched : (i : ℕ) (f : LeaseFile) → env.others i f ≡ f
  pub reads : (i : ℕ) → env.read_fails i ≡ false

-- The file holds a lease of this holder.
abbrev pub Holds : HeldLease → LeaseFile → Type 0
Holds h f = (r : LeaseRecord) × (f ≡ holds r) × (r.owner_nonce ≡ h.lease.owner_nonce)

-- Where the outcome is an acquisition, the file holds the lease.
abbrev Secured : Result AcquireOutcome × World → Type 0
Secured (ok (acquired h), w) = Holds h w.file
Secured (ok (attached r), w) = Unit
Secured (err e, w) = Unit

module _ (env : Env) where
  parse-some : (f : LeaseFile) {r : LeaseRecord} → parse env f ≡ ok (some r) → f ≡ holds r
  unfolding parse
  parse-some missing h = cc
  parse-some corrupt h = cc
  parse-some (holds s) h = cc

  -- A stage after a read: what the stage is given stands in the file.
  after_read :
      (w : World) (k : Option LeaseRecord → World → Result AcquireOutcome × World)
      → ((found : Option LeaseRecord) (w' : World)
          → ((r : LeaseRecord) → found ≡ some r → w'.file ≡ holds r)
          → Secured (k found w'))
      → Secured (chain (read_lease env w) k)
  unfolding read_lease parse
  after_read w k h = elim (Bool-cases (env.read_fails w.tick)) [
    | inl e ↦ rw e tt
    | inr e ↦ rw e (parsed (arrive env w).file refl)
  ]
    where
      parsed :
          (f : LeaseFile) → (arrive env w).file ≡ f → Secured (chain (parse env f, arrive env w) k)
      parsed missing e = h none (arrive env w) (λ r q. cc)
      parsed corrupt e = tt
      parsed (holds s) e = h (some s) (arrive env w) (λ r q. cc)

  module _ (r : IsReliable env) where
    pub write_reliable :
        (l : LeaseRecord) (w : World)
        → write_lease_atomic env l w ≡ (ok tt, record { file = holds l; tick = suc w.tick })
    unfolding write_lease_atomic rename
    write_reliable l w = rw (r.prepares w.tick, r.renames w.tick)

    verify_retry-Secured :
        (ttl : ℕ) (l : LeaseRecord) (found : Option LeaseRecord) (w : World)
        → ((s : LeaseRecord) → found ≡ some s → w.file ≡ holds s)
        → Secured (verify_retry env ttl l found w)
    unfolding verify_retry
    verify_retry-Secured ttl l none w h = rw (write_reliable l w) (l, refl, refl)
    verify_retry-Secured ttl l (some v) w h =
        elim (Bool-cases (str_eq v.owner_nonce l.owner_nonce)) [
          | inl e ↦ rw e (v, h v refl, (eq_iff _ _).0 e)
          | inr e ↦ rw e tt
        ]

    retry-Secured : (ttl : ℕ) (w : World) → Secured (retry env ttl w)
    unfolding retry
    retry-Secured ttl w =
        let l = new_owner_record env ttl w in
        rw (write_reliable l w) (
          after_read (record { file = holds l; tick = suc w.tick }) (verify_retry env ttl l)
            (λ found w' h. verify_retry-Secured ttl l found w' h))

    verify-Secured :
        (ttl : ℕ) (l : LeaseRecord) (found : Option LeaseRecord) (w : World)
        → ((s : LeaseRecord) → found ≡ some s → w.file ≡ holds s)
        → Secured (verify env ttl l found w)
    unfolding verify
    verify-Secured ttl l none w h =
        let l' = new_owner_record env ttl w in rw (write_reliable l' w) (l', refl, refl)
    verify-Secured ttl l (some v) w h = elim (Bool-cases (str_eq v.owner_nonce l.owner_nonce)) [
      | inl e ↦ rw e (v, h v refl, (eq_iff _ _).0 e)
      | inr e ↦ rw e (elim (Bool-cases (is_live_at v (now env w))) [
        | inl live ↦ rw live tt
        | inr stale ↦ rw stale (retry-Secured ttl w)
      ])
    ]

    claim-Secured : (ttl : ℕ) (w : World) → Secured (claim env ttl w)
    unfolding claim
    claim-Secured ttl w =
        let l = new_owner_record env ttl w in
        rw (write_reliable l w) (
          after_read (record { file = holds l; tick = suc w.tick }) (verify env ttl l)
            (λ found w' h. verify-Secured ttl l found w' h))

    first_read-Secured :
        (ttl t : ℕ) (result : Result (Option LeaseRecord)) (w : World)
        → Secured (first_read env ttl t (result, w))
    unfolding first_read
    first_read-Secured ttl t (ok none) w = claim-Secured ttl w
    first_read-Secured ttl t (ok (some v)) w =
        elim (Bool-cases (is_live_at v t && not (is_self env v))) [
          | inl e ↦ rw e tt
          | inr e ↦ rw e (claim-Secured ttl w)
        ]
    first_read-Secured ttl t (err invalid_data) w = claim-Secured ttl w
    first_read-Secured ttl t (err e) w = tt

-- If no write of this process fails, a lease that is reported as acquired stood in the file, with the
-- holder's nonce, at the last operation of the call on it. Others may replace it from then on.
pub acquire_or_attach-Holds :
    (env : Env) (ttl : ℕ) (w w' : World) (h : HeldLease)
    → IsReliable env
    → acquire_or_attach env ttl w ≡ (ok (acquired h), w')
    → Holds h w'.file
unfolding acquire_or_attach
acquire_or_attach-Holds env ttl w w' h r e =
    let (result, v) = read_lease env w in
    subst Secured e (first_read-Secured env r ttl (now env w) result v)

-- A live lease of another process is left alone: the caller is attached to it and writes nothing.
acquire_or_attach-live :
    (env : Env) (ttl : ℕ) (w : World) (l : LeaseRecord)
    → env.read_fails w.tick ≡ false
    → env.others w.tick w.file ≡ holds l
    → env.clock w.tick < l.expiry
    → is_self env l ≡ false
    → acquire_or_attach env ttl w ≡ (ok (attached l), record { file = holds l; tick = suc w.tick })
unfolding acquire_or_attach read_lease parse
acquire_or_attach-live env ttl w l reads found live self =
    rw (reads, found, first_read, lt→ltb _ _ live, self)

module _ (env : Env) (r : IsReliable env) (q : IsQuiet env) where
  pub read_quiet :
      (w : World)
      → read_lease env w ≡ (parse env w.file, record { file = w.file; tick = suc w.tick })
  unfolding read_lease
  read_quiet w = rw (q.reads w.tick, q.untouched w.tick w.file)

  claim_quiet :
      (ttl : ℕ) (w : World)
      → let l = new_owner_record env ttl w in
        claim env ttl w ≡ (
          ok (acquired (record { lease = l; ttl = ttl })),
          record { file = holds l; tick = suc (suc w.tick) },
        )
  unfolding claim parse
  claim_quiet ttl w =
      let l = new_owner_record env ttl w in
      rw (
        write_reliable env r l w,
        read_quiet (record { file = holds l; tick = suc w.tick }),
        verify,
        eq_refl l.owner_nonce,
      )

  -- With no other process at work an acquisition leaves the holder's own record in the file.
  first_read_quiet :
      (ttl t : ℕ) (result : Result (Option LeaseRecord)) (w v : World) (h : HeldLease)
      → first_read env ttl t (result, w) ≡ (ok (acquired h), v)
      → v.file ≡ holds h.lease
  unfolding first_read
  first_read_quiet ttl t (ok none) w v h e = ground (arith, claim_quiet ttl w, e)
  first_read_quiet ttl t (ok (some l)) w v h e = ground (arith, claim_quiet ttl w, e)
  first_read_quiet ttl t (err invalid_data) w v h e = ground (arith, claim_quiet ttl w, e)
  first_read_quiet ttl t (err x) w v h e = cc

-- Mutual exclusion of starts that follow one another: when `p`, no read or write of which fails and whom
-- nobody disturbs, has acquired the lease, another process `q` whose read does not fail and that finds
-- the file as `p` left it, before the lease expires, is attached to `p`.
pub acquire_or_attach-excludes :
    (p q : Env) (ttl ttl' : ℕ) (w w' : World) (h : HeldLease)
    → IsReliable p
    → IsQuiet p
    → acquire_or_attach p ttl w ≡ (ok (acquired h), w')
    → q.read_fails w'.tick ≡ false
    → q.others w'.tick w'.file ≡ w'.file
    → q.clock w'.tick < h.lease.expiry
    → is_self q h.lease ≡ false
    → acquire_or_attach q ttl' w'
      ≡ (ok (attached h.lease), record { file = holds h.lease; tick = suc w'.tick })
unfolding acquire_or_attach
acquire_or_attach-excludes p q ttl ttl' w w' h r quiet e reads same live foreign =
    let (result, v) = read_lease p w in
    let kept = first_read_quiet p r quiet ttl (now p w) result v w' h e in
    acquire_or_attach-live q ttl' w' h.lease reads (same ∙ kept) live foreign
