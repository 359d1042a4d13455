-- ===== src/Lease/Heartbeat.antt =====
-- The heartbeat that keeps a lease alive.
use text.Mathlib.Text.{◌==◌ as str_eq}
use text.Mathlib.TextEquality.{eq_iff}
use cognis.Base.{
  subst, sym, false, ℕ, suc, ◌+◌, ◌*◌, ◌<◌, ◌≡◌, refl, Option, none, some, if◌then◌else◌, arith,
}
use cognis.Lease.{
  LeaseRecord, LeaseFile, missing, corrupt, holds, invalid_data, permission_denied, Result, ok, err,
  Env, World, HeldLease, acquired, acquire_or_attach, chain, parse, read_lease, refresh,
  refuse_or_write, heartbeat, interval,
}
use cognis.Lease.Exclusion.{
  IsReliable, IsQuiet, Holds, write_reliable, read_quiet, acquire_or_attach-Holds,
}

-- What a heartbeat is to report and to leave, by what stands in the file.
abbrev pub beat : LeaseRecord → LeaseFile → Result (Unit {0}) × LeaseFile
beat l missing = (ok tt, holds l)
beat l corrupt = (err invalid_data, corrupt)
beat l (holds r) =
    if str_eq r.owner_nonce l.owner_nonce
    then (ok tt, holds l)
    else (err permission_denied, holds r)

module _ (env : Env) where
  -- With no other process at work and no failing write a heartbeat renews the holder's lease, or puts
  -- it back where the file is gone, and refuses to touch another owner's lease or a corrupt file.
  pub heartbeat_quiet :
      (h : HeldLease) (w : World)
      → IsReliable env
      → IsQuiet env
      → ((heartbeat env h w).0, (heartbeat env h w).2.file) ≡ beat (refresh env h w).lease w.file
  unfolding heartbeat parse
  heartbeat_quiet h w r q = rw (read_quiet env r q w) (kept w.file)
    where
      kept :
          (f : LeaseFile)
          → let out =
              chain
                (parse env f, record { file = f; tick = suc w.tick })
                (refuse_or_write env (refresh env h w).lease) in
            (out.0, out.1.file) ≡ beat (refresh env h w).lease f
      kept missing = rw (
          write_reliable env r (refresh env h w).lease
            (record { file = missing; tick = suc w.tick }))
      kept corrupt = refl
      kept (holds l) = ground (
        arith,
        write_reliable env r (refresh env h w).lease (record { file = holds l; tick = suc w.tick }),
      )

  written :
      (l : LeaseRecord) (result : Result (Option LeaseRecord)) (w : World)
      → IsReliable env
      → (chain (result, w) (refuse_or_write env l)).0 ≡ ok tt
      → (chain (result, w) (refuse_or_write env l)).1.file ≡ holds l
  unfolding refuse_or_write
  written l (ok none) w r e = rw (write_reliable env r l w)
  written l (ok (some x)) w r e = ground (arith, write_reliable env r l w, e)
  written l (err x) w r e = cc

  -- A heartbeat that succeeds wrote the refreshed lease in its last operation on the file, and the lease
  -- is live until the time of the heartbeat plus the time to live.
  pub heartbeat-holds :
      (h : HeldLease) (w : World)
      → IsReliable env
      → (heartbeat env h w).0 ≡ ok tt
      → ((heartbeat env h w).2.file ≡ holds (heartbeat env h w).1.lease)
        × ((heartbeat env h w).1.lease.expiry ≡ env.clock w.tick + h.ttl)
        × ((heartbeat env h w).1.lease.owner_nonce ≡ h.lease.owner_nonce)
  unfolding heartbeat
  heartbeat-holds h w r e =
      let (result, v) = read_lease env w in
      (written (refresh env h w).lease result v r e, refl, refl)

-- A heartbeat whose read finds a lease with the holder's nonce renews it.
heartbeat_own :
    (env : Env) (h : HeldLease) (w : World)
    → IsReliable env
    → env.read_fails w.tick ≡ false
    → Holds h (env.others w.tick w.file)
    → heartbeat env h w ≡ (
      ok tt,
      refresh env h w,
      record { file = holds (refresh env h w).lease; tick = suc (suc w.tick) },
    )
unfolding heartbeat read_lease parse refuse_or_write refresh
heartbeat_own env h w r reads (l, found, own) =
    rw
      (
        reads,
        found,
        (eq_iff l.owner_nonce h.lease.owner_nonce).1 own,
        write_reliable env r (refresh env h w).lease (record { file = holds l; tick = suc w.tick }),
      )
      refl

-- Whatever the other processes do to the file during an acquisition and no write of this process
-- fails: if the lease is reported as acquired and the others leave the file alone from the
-- acquisition's last operation on it to the first heartbeat's read, which does not fail, that heartbeat
-- succeeds and writes the holder's own lease with the expiry moved on.
pub acquire_or_attach-heartbeat :
    (env : Env) (ttl : ℕ) (w w' : World) (h : HeldLease)
    → IsReliable env
    → acquire_or_attach env ttl w ≡ (ok (acquired h), w')
    → env.read_fails w'.tick ≡ false
    → env.others w'.tick w'.file ≡ w'.file
    → heartbeat env h w' ≡ (
      ok tt,
      refresh env h w',
      record { file = holds (refresh env h w').lease; tick = suc (suc w'.tick) },
    )
acquire_or_attach-heartbeat env ttl w w' h r e reads same =
    heartbeat_own env h w' r reads
      (subst (Holds h) (sym same) (acquire_or_attach-Holds env ttl w w' h r e))

-- One missed heartbeat leaves the lease alive: with a time to live above 200 ms the second heartbeat
-- after a renewal comes before the lease expires.
pub interval_twice : (ttl : ℕ) → 200 < ttl → 2 * interval ttl < ttl
unfolding interval
interval_twice ttl h = omega arith
