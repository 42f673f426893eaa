-- ===== src/Process/Check/Limits.antt =====
-- Which limits the check of process/probe.go finds exceeded.
use snk_fork_dolphin.Base.{
  ℕ, ◌≡◌, ◌<◌, refl, ◌∙◌, ◌++◌, Bool, true, false, not, ◌&&◌, ◌||◌, List, [], ◌∷◌, some, arith,
  if◌then◌else◌, ◌==◌, ltb, leb,
}
use snk_fork_dolphin.Base.Int.{ltb_ℤ, ℤ}
use snk_fork_dolphin.Base.Outcome.{done}
use snk_fork_dolphin.Process.{
  Condition, high_mem, high_cpu, high_disk_io, high_threads, probe_condition,
}
use snk_fork_dolphin.Process.Check.{
  ProcessState, DiskWrites, Findings, check, check_mem, check_threads, check_cpu, check_disk,
  put_disk, mem_ratio,
}
use snk_fork_dolphin.Types.Resource.{DeployResource}

abbrev same : Condition → Condition → Bool
same high_mem high_mem = true
same high_cpu high_cpu = true
same high_disk_io high_disk_io = true
same high_threads high_threads = true
same probe_condition probe_condition = true
same _ _ = false

abbrev pub has : Condition → List Condition → Bool
has c [] = false
has c (d ∷ ds) = same c d || has c ds

has-append : (c : Condition) (xs ys : List Condition) → has c (xs ++ ys) ≡ (has c xs || has c ys)
has-append c [] ys = refl
has-append c (x ∷ xs) ys = ground (arith, has-append c xs ys)

nonzero : (n : ℕ) → 0 < n → (n == 0) ≡ false
nonzero n h = ground arith

-- The conditions of the three checks; each finds one of its own kind at most.
module _ (ps : ProcessState) (req : DeployResource) where
  mem_own :
      (has high_mem (check_mem ps req).0 ≡ (
        leb req.max_allowed_memory req.memory
        && not (ltb 150 (mem_ratio ps req) && leb ps.rss req.max_allowed_memory)))
      × (has high_threads (check_mem ps req).0 ≡ false)
      × (has high_cpu (check_mem ps req).0 ≡ false)
      × (has high_disk_io (check_mem ps req).0 ≡ false)
  unfolding check_mem
  mem_own = ground arith

  threads_own :
      (has high_threads (check_threads ps req).0 ≡ ltb_ℤ req.max_allowd_threads ps.num_threads)
      × (has high_mem (check_threads ps req).0 ≡ false)
      × (has high_cpu (check_threads ps req).0 ≡ false)
      × (has high_disk_io (check_threads ps req).0 ≡ false)
  unfolding check_threads
  threads_own = ground arith

  cpu_own :
      (has high_cpu (check_cpu ps req).0 ≡ ltb req.max_allowed_cpu ps.cpu_usage)
      × (has high_mem (check_cpu ps req).0 ≡ false)
      × (has high_threads (check_cpu ps req).0 ≡ false)
      × (has high_disk_io (check_cpu ps req).0 ≡ false)
  unfolding check_cpu
  cpu_own = ground arith

has_three :
    (xs ys zs : List Condition) (c : Condition)
    → has c (xs ++ ys ++ zs) ≡ (has c xs || (has c ys || has c zs))
has_three xs ys zs c = ground (arith, has-append c (xs ++ ys) zs, has-append c xs ys)

-- What the check finds, and the map of the disks after it.
abbrev pub conditions_of : ProcessState → DeployResource → List Condition
conditions_of ps req = (check_mem ps req).0 ++ (check_threads ps req).0 ++ (check_cpu ps req).0

abbrev pub events_of : ProcessState → DeployResource → ℤ → DiskWrites → List Condition
events_of ps req now disks =
    (check_mem ps req).1
    ++ (check_threads ps req).1
    ++ (check_cpu ps req).1
    ++ (check_disk ps req now (disks ps.pid)).0

pub renewed : ProcessState → DeployResource → ℤ → DiskWrites → DiskWrites
renewed ps req now disks =
    if (check_disk ps req now (disks ps.pid)).1
    then put_disk ps.pid (record { time = now; count = ps.write_bytes }) disks
    else disks

pub check-found :
    (ps : ProcessState) (req : DeployResource) (now : ℤ) (disks : DiskWrites)
    → 0 < req.memory
    → check ps (some req) now disks
      ≡ done ((conditions_of ps req, events_of ps req now disks), [], renewed ps req now disks)
unfolding check renewed
check-found ps req now disks h = rw (nonzero req.memory h) refl

pub threads_found :
    (ps : ProcessState) (req : DeployResource)
    → has high_threads (conditions_of ps req) ≡ ltb_ℤ req.max_allowd_threads ps.num_threads
threads_found ps req =
    has_three (check_mem ps req).0 (check_threads ps req).0 (check_cpu ps req).0 high_threads
    ∙ ground (arith, (mem_own ps req).1, (threads_own ps req).0, (cpu_own ps req).2)

-- With a required memory above 0 the check ends without an error, and its conditions are: one of
-- the threads and one of the CPU exactly when more is used than the most that is allowed, none of
-- the disk, and one of the memory exactly when no less memory is required than the most that is
-- allowed and it is not the case that the memory used, no more than the most allowed, is over 150
-- per cent of the required, in the whole per cents that the code computes in 64 bits.
pub check-conditions :
    (ps : ProcessState) (req : DeployResource) (now : ℤ) (disks : DiskWrites)
    → 0 < req.memory
    → (found : Findings) × (disks' : DiskWrites) × (check ps (some req) now disks
        ≡ done (found, [], disks'))
      × (has high_threads found.0 ≡ ltb_ℤ req.max_allowd_threads ps.num_threads)
      × (has high_cpu found.0 ≡ ltb req.max_allowed_cpu ps.cpu_usage)
      × (has high_disk_io found.0 ≡ false)
      × (has high_mem found.0 ≡ (
          leb req.max_allowed_memory req.memory
          && not (ltb 150 (mem_ratio ps req) && leb ps.rss req.max_allowed_memory)))
check-conditions ps req now disks h =
    let split = has_three (check_mem ps req).0 (check_threads ps req).0 (check_cpu ps req).0 in
    let (m, m1, m2, m3) = mem_own ps req in
    let (t, t1, t2, t3) = threads_own ps req in
    let (c, c1, c2, c3) = cpu_own ps req in
    (
      (conditions_of ps req, events_of ps req now disks),
      renewed ps req now disks,
      check-found ps req now disks h,
      threads_found ps req,
      split high_cpu ∙ ground (arith, m2, t2, c),
      split high_disk_io ∙ ground (arith, m3, t3, c3),
      split high_mem ∙ ground (arith, m, t1, c1),
    )
