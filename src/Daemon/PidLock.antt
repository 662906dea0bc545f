-- ===== src/Daemon/PidLock.antt =====
-- The PID file as a lock between processes: `acquirePIDLock` and `releasePIDLock` of
-- internal/daemon/daemon.go, and `Acquire` and `Release` of internal/installer/lock.go, which make
-- the same system calls in the same order.
-- A step is one system call of one process; the steps of the processes interleave in any order.
-- Writing the PID into the file, and the errors of the file system, are left out.
pub mod Exclusion
use rbln_container_toolkit.Prelude.{
  ℕ, suc, ◌+◌, ◌≡◌, ◌≢◌, Bool, Option, none, some, ◌==◌, nat_eq, if◌then◌else◌,
}

-- Where a process stands. A file is known by its inode, since its name may be removed and used
-- again while the file is still open.
pub data Proc : Type 0 where
  idle : Proc
  opened : ℕ → Proc
  holding : ℕ → Proc
  unlocked : Proc

-- `path` is the file that the PID path names, `fresh` the next inode, `procs` the processes.
pub record World : Type 0 where
  pub path : Option ℕ
  pub fresh : ℕ
  pub procs : ℕ → Proc

abbrev pub update : (ℕ → Proc) → ℕ → Proc → ℕ → Proc
update procs p s q = if q == p then s else procs q

abbrev pub start : World
start = record { path = none; fresh = 0; procs = λ p. idle }

-- The system calls of acquiring: `OpenFile` with O_CREATE, and `Flock` with LOCK_EX | LOCK_NB.
pub data Acquire : World → World → Type 0 where
  create :
      {w : World} (p : ℕ)
      → w.procs p ≡ idle
      → w.path ≡ none
      → Acquire w (record {
        path = some w.fresh;
        fresh = w.fresh + 1;
        procs = update w.procs p (opened w.fresh);
      })
  open_existing :
      {w : World} (p i : ℕ)
      → w.procs p ≡ idle
      → w.path ≡ some i
      → Acquire w (record w { procs = update w.procs p (opened i) })
  lock :
      {w : World} (p i : ℕ)
      → w.procs p ≡ opened i
      → ((q : ℕ) → w.procs q ≢ holding i)
      → Acquire w (record w { procs = update w.procs p (holding i) })
  refuse :
      {w : World} (p q i : ℕ)
      → w.procs p ≡ opened i
      → w.procs q ≡ holding i
      → Acquire w (record w { procs = update w.procs p idle })

-- The system calls of releasing: `Flock` with LOCK_UN and `Close`, then `Remove` of the path.
pub data Release : World → World → Type 0 where
  unlock :
      {w : World} (p i : ℕ)
      → w.procs p ≡ holding i
      → Release w (record w { procs = update w.procs p unlocked })
  remove :
      {w : World} (p : ℕ)
      → w.procs p ≡ unlocked
      → Release w (record w { path = none; procs = update w.procs p idle })

pub data Reach : World → Type 0 where
  here : Reach start
  acquires : {w w' : World} → Reach w → Acquire w w' → Reach w'
  releases : {w w' : World} → Reach w → Release w w' → Reach w'
