-- ===== src/Daemon/PidLock/Exclusion.antt =====
-- Who can hold the lock at the same time.
use rbln_container_toolkit.Prelude.{ℕ, ◌≡◌, ◌≢◌, refl, sym, ◌∙◌, none, some, nat_eq, arith}
use rbln_container_toolkit.Daemon.PidLock.{
  idle, opened, holding, unlocked, World, update, start, Acquire, create, open_existing, lock,
  refuse, Release, unlock, remove, Reach, here, acquires, releases,
}

abbrev IsExclusive : World → Type 0
IsExclusive w = (p q i : ℕ) → w.procs p ≡ holding i → w.procs q ≡ holding i → p ≡ q

Acquire-IsExclusive : {w w' : World} → Acquire w w' → IsExclusive w → IsExclusive w'
Acquire-IsExclusive (create p at gone) ex a b i ha hb = ground (arith, ex a b i)
Acquire-IsExclusive (open_existing p j at there) ex a b i ha hb = ground (arith, ex a b i)
Acquire-IsExclusive (lock p j at free) ex a b i ha hb = ground (arith, ex a b i, free a, free b)
Acquire-IsExclusive (refuse p q j at held) ex a b i ha hb = ground (arith, ex a b i)

Release-IsExclusive : {w w' : World} → Release w w' → IsExclusive w → IsExclusive w'
Release-IsExclusive (unlock p j at) ex a b i ha hb = ground (arith, ex a b i)
Release-IsExclusive (remove p at) ex a b i ha hb = ground (arith, ex a b i)

Reach-IsExclusive : {w : World} → Reach w → IsExclusive w
Reach-IsExclusive here = λ p q i hp hq. cc
Reach-IsExclusive (acquires r s) = Acquire-IsExclusive s (Reach-IsExclusive r)
Reach-IsExclusive (releases r s) = Release-IsExclusive s (Reach-IsExclusive r)

-- However the processes' system calls interleave, no two processes ever hold the lock of one and
-- the same file.
pub exclusive_per_file :
    {w : World} → Reach w → (p q i : ℕ) → w.procs p ≡ holding i → w.procs q ≡ holding i → p ≡ q
exclusive_per_file r = Reach-IsExclusive r

-- The worlds of a release that races with two acquisitions.
module _ (p q : ℕ) (differ : p ≢ q) where
  abbrev created : World
  created = record { path = some 0; fresh = 1; procs = update (λ r. idle) p (opened 0) }

  abbrev locked : World
  locked = record created { procs = update created.procs p (holding 0) }

  abbrev waiting : World
  waiting = record locked { procs = update locked.procs q (opened 0) }

  abbrev freed : World
  freed = record waiting { procs = update waiting.procs p unlocked }

  abbrev taken : World
  taken = record freed { procs = update freed.procs q (holding 0) }

  abbrev unlinked : World
  unlinked = record taken { path = none; procs = update taken.procs p idle }

  abbrev recreated : World
  recreated = record { path = some 1; fresh = 2; procs = update unlinked.procs p (opened 1) }

  abbrev doubled : World
  doubled = record recreated { procs = update recreated.procs p (holding 1) }

  Reach-created : Reach created
  Reach-created = acquires here (create p refl refl)

  Reach-locked : Reach locked
  Reach-locked = acquires Reach-created (lock p 0 (ground arith) (λ r e. ground arith))

  Reach-waiting : Reach waiting
  Reach-waiting = acquires Reach-locked (open_existing q 0 (ground arith) refl)

  Reach-freed : Reach freed
  Reach-freed = releases Reach-waiting (unlock p 0 (ground arith))

  Reach-taken : Reach taken
  Reach-taken = acquires Reach-freed (lock q 0 (ground arith) (λ r e. ground arith))

  Reach-unlinked : Reach unlinked
  Reach-unlinked = releases Reach-taken (remove p (ground arith))

  Reach-recreated : Reach recreated
  Reach-recreated = acquires Reach-unlinked (create p (ground arith) refl)

  Reach-doubled : Reach doubled
  Reach-doubled = acquires Reach-recreated (lock p 1 (ground arith) (λ r e. ground arith))

-- Two processes can hold the PID lock at once: the lock is released before its file is removed,
-- so that a process which opened the old file in between holds that one, while a new file under
-- the same path is created and locked by another.
pub two_holders :
    (p q : ℕ) → p ≢ q → (w : World) × Reach w × (w.procs p ≡ holding 1) × (w.procs q ≡ holding 0)
two_holders p q differ = (doubled p q differ, Reach-doubled p q differ, ground arith, ground arith)

-- Reachable by acquiring alone.
pub data Acquiring : World → Type 0 where
  at_start : Acquiring start
  step : {w w' : World} → Acquiring w → Acquire w w' → Acquiring w'

-- Every file in use is the one that the path names, and it is older than the next inode.
record IsNamed (w : World) : Type 0 where
  opens : (p i : ℕ) → w.procs p ≡ opened i → w.path ≡ some i
  holds : (p i : ℕ) → w.procs p ≡ holding i → w.path ≡ some i

Acquire-IsNamed : {w w' : World} → Acquire w w' → IsNamed w → IsNamed w'
Acquire-IsNamed (create p at gone) n = record {
  opens = λ a i h. ground (arith, n.opens a i);
  holds = λ a i h. ground (arith, n.holds a i);
}
Acquire-IsNamed (open_existing p j at there) n = record {
  opens = λ a i h. ground (arith, n.opens a i);
  holds = λ a i h. ground (arith, n.holds a i);
}
Acquire-IsNamed (lock p j at free) n = record {
  opens = λ a i h. ground (arith, n.opens a i);
  holds = λ a i h. ground (arith, n.holds a i, n.opens p j);
}
Acquire-IsNamed (refuse p q j at held) n = record {
  opens = λ a i h. ground (arith, n.opens a i);
  holds = λ a i h. ground (arith, n.holds a i);
}

Acquiring-IsNamed : {w : World} → Acquiring w → IsNamed w
Acquiring-IsNamed at_start = record { opens = λ p i h. cc; holds = λ p i h. cc }
Acquiring-IsNamed (step r s) = Acquire-IsNamed s (Acquiring-IsNamed r)

Acquiring-Reach : {w : World} → Acquiring w → Reach w
Acquiring-Reach at_start = here
Acquiring-Reach (step r s) = acquires (Acquiring-Reach r) s

-- As long as no process releases, at most one process holds the lock, whatever the file.
pub exclusive_while-Acquiring :
    {w : World}
    → Acquiring w
    → (p q i j : ℕ) → w.procs p ≡ holding i
    → w.procs q ≡ holding j
    → p ≡ q
exclusive_while-Acquiring {w} r p q i j hp hq =
    let n = Acquiring-IsNamed r in
    let same : some i ≡ some j = sym (n.holds p i hp) ∙ n.holds q j hq in
    Reach-IsExclusive (Acquiring-Reach r) p q i hp (cc (hq, same))
