-- ===== src/Lease/Tests.antt =====
-- Tests of the lease with two processes, and its theorems at concrete worlds.
use Prim.Native.String.{String}
use cognis.Base.{ℕ, zero, suc, ◌*◌, ◌<◌, ◌≡◌, refl, false, arith}
use cognis.Lease.{
  LeaseRecord, LeaseFile, missing, holds, ok, Env, World, HeldLease, acquired, attached, read_lease,
  parse, rename, write_lease_atomic, new_owner_record, verify, claim, acquire_or_attach, heartbeat,
  refresh, interval,
}
use cognis.Lease.Exclusion.{IsReliable, IsQuiet, acquire_or_attach-excludes}
use cognis.Lease.Races.{acquire_or_attach-overwrites}
use cognis.Lease.Heartbeat.{interval_twice, acquire_or_attach-heartbeat}

-- A process alone on the file, at ten milliseconds a tick.
abbrev process : ℕ → String → Env
process id nonce = record {
  process_id = id;
  start_id = "boot";
  clock = λ i. i * 10;
  nonce = λ i. nonce;
  others = λ i f. f;
  read_fails = λ i. false;
  prepare_fails = λ i. false;
  rename_fails = λ i. false;
  remove_fails = λ i. false;
}

abbrev alice : Env
alice = process 1 "alice"

abbrev bob : Env
bob = process 2 "bob"

abbrev unleased : World
unleased = record { file = missing; tick = 0 }

abbrev alices : LeaseRecord
alices = record {
  owner_nonce = "alice";
  pid = 1;
  process_start_id = "boot";
  heartbeat_at = 10;
  expiry = 1010;
}

abbrev held : HeldLease
held = record { lease = alices; ttl = 1000 }

abbrev leased : World
leased = record { file = holds alices; tick = 3 }

alice_acquires : acquire_or_attach alice 1000 unleased ≡ (ok (acquired held), leased)
unfolding acquire_or_attach read_lease parse claim write_lease_atomic rename new_owner_record verify
alice_acquires = refl

abbrev process-IsReliable : (id : ℕ) (nonce : String) → IsReliable (process id nonce)
process-IsReliable id nonce = record { prepares = λ i. refl; renames = λ i. refl }

abbrev process-IsQuiet : (id : ℕ) (nonce : String) → IsQuiet (process id nonce)
process-IsQuiet id nonce = record { untouched = λ i f. refl; reads = λ i. refl }

abbrev renewed : HeldLease
renewed = record held { lease = record alices { heartbeat_at = 30; expiry = 1030 } }

acquire_or_attach-heartbeat_example :
    heartbeat alice held leased ≡ (ok tt, renewed, record { file = holds renewed.lease; tick = 5 })
unfolding refresh
acquire_or_attach-heartbeat_example =
    acquire_or_attach-heartbeat alice 1000 unleased leased held (process-IsReliable 1 "alice")
      alice_acquires refl refl

acquire_or_attach-excludes_example :
    acquire_or_attach bob 500 leased
    ≡ (ok (attached alices), record { file = holds alices; tick = 4 })
acquire_or_attach-excludes_example =
    acquire_or_attach-excludes alice bob 1000 500 unleased leased held
      (process-IsReliable 1 "alice") (process-IsQuiet 1 "alice") alice_acquires refl refl
      (omega arith) refl

-- What Bob makes of the file when he runs a whole acquisition on it.
abbrev bob_acquires : LeaseFile → LeaseFile
bob_acquires f = (acquire_or_attach bob 1000 (record { file = f; tick = 0 })).1.file

-- Alice, with Bob's acquisition between her read and her rename.
abbrev overtaken : ℕ → LeaseFile → LeaseFile
overtaken i f = elim i [ suc j ↦ elim j [ zero ↦ bob_acquires f | _ ↦ f ] | zero ↦ f ]

abbrev racing : Env
racing = record alice { others = overtaken }

acquire_or_attach-overwrites_example :
    acquire_or_attach racing 1000 unleased ≡ (ok (acquired held), leased)
unfolding new_owner_record
acquire_or_attach-overwrites_example =
    acquire_or_attach-overwrites racing 1000 unleased
      (record { prepares = λ i. refl; renames = λ i. refl }) refl refl refl (λ f. refl)

interval_twice_example : 2 * interval 30000 < 30000
interval_twice_example = interval_twice 30000 (omega arith)
