-- ===== src/Lease/Races.antt =====
-- What other processes can do between two file operations of this one.
use text.Mathlib.Text.{◌==◌ as str_eq}
use text.Mathlib.TextPositions.{eq_refl}
use cognis.Base.{ℕ, suc, ◌≡◌, refl, false, if◌then◌else◌, arith}
use cognis.Lease.{
  LeaseFile, missing, corrupt, holds, ok, Env, World, HeldLease, acquired, chain, parse, read_lease,
  new_owner_record, verify, claim, first_read, acquire_or_attach, remove_own, release,
}
use cognis.Lease.Exclusion.{IsReliable, IsQuiet, write_reliable, read_quiet}

-- The check and the write are two operations. A process that finds no lease, none of whose writes and
-- neither of whose reads fails, acquires it whatever the others write between its read and its rename,
-- if they leave the file alone between the rename and the read that verifies: a live lease that appears
-- before the rename is overwritten.
pub acquire_or_attach-overwrites :
    (env : Env) (ttl : ℕ) (w : World)
    → IsReliable env
    → env.read_fails w.tick ≡ false
    → env.others w.tick w.file ≡ missing
    → env.read_fails (suc (suc w.tick)) ≡ false
    → ((f : LeaseFile) → env.others (suc (suc w.tick)) f ≡ f)
    → let l = new_owner_record env ttl (record { file = missing; tick = suc w.tick }) in
      acquire_or_attach env ttl w ≡ (
        ok (acquired (record { lease = l; ttl = ttl })),
        record { file = holds l; tick = suc (suc (suc w.tick)) },
      )
unfolding acquire_or_attach read_lease parse claim verify
acquire_or_attach-overwrites env ttl w r reads found reads' still =
    let l = new_owner_record env ttl (record { file = missing; tick = suc w.tick }) in
    rw (
      reads,
      found,
      first_read,
      write_reliable env r l (record { file = missing; tick = suc w.tick }),
      reads',
      still (holds l),
      eq_refl l.owner_nonce,
    )

-- The file that a release is to leave.
abbrev pub after_release : HeldLease → LeaseFile → LeaseFile
after_release h missing = missing
after_release h corrupt = corrupt
after_release h (holds r) = if str_eq r.owner_nonce h.lease.owner_nonce then missing else holds r

-- With no other process at work a release removes the file exactly if it holds the holder's nonce.
pub release_quiet :
    (env : Env) (h : HeldLease) (w : World)
    → IsReliable env
    → IsQuiet env
    → ((i : ℕ) → env.remove_fails i ≡ false)
    → (release env h w).1.file ≡ after_release h w.file
unfolding release remove_own parse
release_quiet env h w r q removes = rw (read_quiet env r q w) (kept w.file)
  where
    kept :
        (f : LeaseFile)
        → (chain (parse env f, record { file = f; tick = suc w.tick }) (remove_own env h)).1.file
          ≡ after_release h f
    kept missing = refl
    kept corrupt = refl
    kept (holds l) = ground (arith, q.untouched (suc w.tick) (holds l), removes (suc w.tick))
