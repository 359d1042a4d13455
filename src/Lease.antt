-- ===== src/Lease.antt =====
-- The repository-scoped ownership lease, crates/cognis-core/src/lease.rs.
-- One lease file under `.cognis/`, shared with other processes. Each operation on the file (a read, an
-- attempt to rename the temporary file over it, a removal) is a tick of the world; before tick `i` the
-- other processes do `others i` to the file. Times are whole milliseconds in place of f64 seconds.
pub mod Exclusion
pub mod Races
pub mod Heartbeat
mod Tests
use Prim.Native.String.{String}
use text.Mathlib.Text.{◌==◌ as str_eq}
use cognis.Base.{
  ℕ, zero, suc, ◌+◌, ◌/◌, max, Bool, true, false, ◌&&◌, not, Option, none, some, ◌==◌, ltb,
  if◌then◌else◌,
}

pub record LeaseRecord : Type 0 where
  pub owner_nonce : String
  pub pid : ℕ
  pub process_start_id : String
  pub heartbeat_at : ℕ
  pub expiry : ℕ

abbrev pub is_live_at : LeaseRecord → ℕ → Bool
is_live_at r now = ltb now r.expiry

abbrev pub is_expired_at : LeaseRecord → ℕ → Bool
is_expired_at r now = not (is_live_at r now)

-- What stands at the lease's path; `corrupt` is text that is no lease.
pub data LeaseFile : Type 0 where
  missing corrupt : LeaseFile
  holds : LeaseRecord → LeaseFile

-- `std::io::Error` by its kind.
pub data IoError : Type 0 where
  invalid_data permission_denied other : IoError

pub data Result (A : Type 0) : Type 0 where
  ok : A → Result A
  err : IoError → Result A

-- This process, and what the operating system and the other processes do at each tick.
pub record Env : Type 0 where
  pub process_id : ℕ
  pub start_id : String
  pub clock : ℕ → ℕ
  pub nonce : ℕ → String
  pub others : ℕ → LeaseFile → LeaseFile
  pub read_fails : ℕ → Bool
  pub prepare_fails : ℕ → Bool
  pub rename_fails : ℕ → Bool
  pub remove_fails : ℕ → Bool

pub record World : Type 0 where
  pub file : LeaseFile
  pub tick : ℕ

abbrev pub Io : Type 0 → Type 0
Io A = World → Result A × World

-- The `?` operator on a call that has been made.
abbrev pub chain : {A B : Type 0} → Result A × World → (A → Io B) → Result B × World
chain (ok a, w) f = f a w
chain (err e, w) f = (err e, w)

pub record HeldLease : Type 0 where
  pub lease : LeaseRecord
  pub ttl : ℕ

pub data AcquireOutcome : Type 0 where
  acquired : HeldLease → AcquireOutcome
  attached : LeaseRecord → AcquireOutcome

module _ (env : Env) where
  abbrev pub now : World → ℕ
  now w = env.clock w.tick

  -- The file as this process finds it at the next tick.
  abbrev pub arrive : World → World
  arrive w = record { file = env.others w.tick w.file; tick = suc w.tick }

  unfoldable pub parse : LeaseFile → Result (Option LeaseRecord)
  parse missing = ok none
  parse corrupt = err invalid_data
  parse (holds r) = ok (some r)

  unfoldable pub read_lease : Io (Option LeaseRecord)
  unfolding parse
  read_lease w =
      let w' = arrive w in if env.read_fails w.tick then (err other, w') else (parse w'.file, w')

  -- The attempts that are left of `for attempt in 0..10u32`.
  unfoldable pub rename : ℕ → LeaseRecord → Io (Unit {0})
  rename zero r w = (err other, w)
  rename (suc attempts) r w =
      let retried = rename attempts r (arrive w) in
      if env.rename_fails w.tick
      then retried
      else (ok tt, record { file = holds r; tick = suc w.tick })

  -- `prepare_fails`: the folder, the text or the temporary file cannot be made.
  unfoldable pub write_lease_atomic : LeaseRecord → Io (Unit {0})
  write_lease_atomic r w = if env.prepare_fails w.tick then (err other, w) else rename 10 r w

  unfoldable pub new_owner_record : ℕ → World → LeaseRecord
  new_owner_record ttl w = record {
    owner_nonce = env.nonce w.tick;
    pid = env.process_id;
    process_start_id = env.start_id;
    heartbeat_at = now w;
    expiry = now w + ttl;
  }

  abbrev pub own : LeaseRecord → ℕ → Io AcquireOutcome
  own r ttl w = (ok (acquired (record { lease = r; ttl = ttl })), w)

  -- The final verification of the retry; the last write's result is dropped.
  unfoldable pub verify_retry : ℕ → LeaseRecord → Option LeaseRecord → Io AcquireOutcome
  verify_retry ttl r none w = own r ttl (write_lease_atomic r w).1
  verify_retry ttl r (some v) w =
      if str_eq v.owner_nonce r.owner_nonce then own r ttl w else (ok (attached v), w)

  unfoldable pub retry : ℕ → Io AcquireOutcome
  unfolding new_owner_record verify_retry
  retry ttl w =
      let r = new_owner_record ttl w in
      chain (write_lease_atomic r w)
        (λ _ w₁. chain (read_lease w₁) (λ found. verify_retry ttl r found))

  -- The verification after the first write.
  unfoldable pub verify : ℕ → LeaseRecord → Option LeaseRecord → Io AcquireOutcome
  unfolding new_owner_record retry
  verify ttl r none w =
      let r' = new_owner_record ttl w in chain (write_lease_atomic r' w) (λ _. own r' ttl)
  verify ttl r (some on_disk) w =
      if str_eq on_disk.owner_nonce r.owner_nonce
      then own r ttl w
      else if is_live_at on_disk (now w)
      then (ok (attached on_disk), w)
      else retry ttl w

  unfoldable pub claim : ℕ → Io AcquireOutcome
  unfolding new_owner_record verify
  claim ttl w =
      let r = new_owner_record ttl w in
      chain (write_lease_atomic r w) (λ _ w₁. chain (read_lease w₁) (λ found. verify ttl r found))

  abbrev pub is_self : LeaseRecord → Bool
  is_self r = r.pid == env.process_id && str_eq r.process_start_id env.start_id

  -- The fast path, at the time `t` that was read before the file.
  unfoldable pub first_read :
      ℕ → ℕ → Result (Option LeaseRecord) × World → Result AcquireOutcome × World
  unfolding claim
  first_read ttl t (ok (some existing), w) =
      if is_live_at existing t && not (is_self existing)
      then (ok (attached existing), w)
      else claim ttl w
  first_read ttl t (ok none, w) = claim ttl w
  first_read ttl t (err invalid_data, w) = claim ttl w
  first_read ttl t (err e, w) = (err e, w)

  unfoldable pub acquire_or_attach : ℕ → Io AcquireOutcome
  unfolding first_read
  acquire_or_attach ttl w = first_read ttl (now w) (read_lease w)

  -- The record is refreshed before the file is read, also where the refresh is then refused.
  unfoldable pub refresh : HeldLease → World → HeldLease
  refresh h w = record h {
    lease = record (h.lease) { heartbeat_at = now w; expiry = now w + h.ttl };
  }

  unfoldable pub refuse_or_write : LeaseRecord → Option LeaseRecord → Io (Unit {0})
  refuse_or_write r none w = write_lease_atomic r w
  refuse_or_write r (some existing) w =
      if str_eq existing.owner_nonce r.owner_nonce
      then write_lease_atomic r w
      else (err permission_denied, w)

  unfoldable pub heartbeat : HeldLease → World → Result (Unit {0}) × HeldLease × World
  unfolding refresh refuse_or_write
  heartbeat h w =
      let h' = refresh h w in
      let (result, w') = chain (read_lease w) (refuse_or_write h'.lease) in (result, h', w')

  unfoldable pub remove_file : Io (Unit {0})
  remove_file w =
      let w' = arrive w in
      elim w'.file [
        | missing ↦ (ok tt, w')
        | _ ↦
            if env.remove_fails w.tick
            then (err other, w')
            else (ok tt, record { file = missing; tick = w'.tick })
      ]

  unfoldable pub remove_own : HeldLease → Option LeaseRecord → Io (Unit {0})
  unfolding remove_file
  remove_own h none w = (ok tt, w)
  remove_own h (some existing) w =
      if str_eq existing.owner_nonce h.lease.owner_nonce then remove_file w else (ok tt, w)

  unfoldable pub release : HeldLease → Io (Unit {0})
  unfolding remove_own
  release h w = chain (read_lease w) (remove_own h)

-- The pause between two heartbeats of `spawn_guard`, in milliseconds.
unfoldable pub interval : ℕ → ℕ
interval ttl = max (ttl / 3) 100
