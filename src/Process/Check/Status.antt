-- ===== src/Process/Check/Status.antt =====
-- The status that `Probe` of process/scan.go gives an instance.
use snk_fork_dolphin.Base.{
  ◌*◌, ◌/◌, ◌≡◌, ◌<◌, refl, ◌∙◌, ◌++◌, true, false, List, [], ◌∷◌, Option, some, arith, ltb,
  is_empty,
}
use snk_fork_dolphin.Base.Int.{ltb_ℤ, ℤ}
use snk_fork_dolphin.Base.Outcome.{done}
use snk_fork_dolphin.Process.{ProcInstance, high_threads, Condition, instance_warning}
use snk_fork_dolphin.Process.Check.{
  ProcessState, DiskWrites, Registry, check_mem, check_threads, check_cpu, probe, set_found,
}
use snk_fork_dolphin.Process.Check.Limits.{
  has, check-found, threads_found, conditions_of, events_of, renewed,
}
use snk_fork_dolphin.Types.Answer.{ProbeAnswer}
use snk_fork_dolphin.Types.Resource.{DeployResource, u64}

filled_append : (xs ys : List Condition) → is_empty ys ≡ false → is_empty (xs ++ ys) ≡ false
filled_append [] ys h = h
filled_append (x ∷ xs) ys h = refl

filled_append_left : (xs ys : List Condition) → is_empty xs ≡ false → is_empty (xs ++ ys) ≡ false
filled_append_left [] ys h = cc
filled_append_left (x ∷ xs) ys h = refl

cpu_noted :
    (ps : ProcessState) (req : DeployResource)
    → ltb req.max_allowed_cpu ps.cpu_usage ≡ false
    → ltb (u64 (req.max_allowed_cpu * 8) / 10) ps.cpu_usage ≡ true
    → is_empty (check_cpu ps req).1 ≡ false
unfolding check_cpu
cpu_noted ps req below above = ground arith

-- An instance of a type without a prober that has more threads than are allowed, a condition, is
-- given the status of a warning and not of an error if it uses more than four fifths of the CPU
-- that is allowed, computed in 64 bits, and no more than what is allowed, and some memory is
-- required.
pub probe-masked :
    (reg : Registry) (ins : ProcInstance) (ps : ProcessState) (req : DeployResource)
    (answer : Option ProbeAnswer) (now : ℤ) (disks : DiskWrites)
    → reg.has_prober ins.projec_type ≡ some false
    → 0 < req.memory
    → ltb_ℤ req.max_allowd_threads ps.num_threads ≡ true
    → ltb req.max_allowed_cpu ps.cpu_usage ≡ false
    → ltb (u64 (req.max_allowed_cpu * 8) / 10) ps.cpu_usage ≡ true
    → (ins' : ProcInstance) × (disks' : DiskWrites) × (probe reg ins ps (some req) answer now disks
        ≡ done (ins', [], disks'))
      × (has high_threads ins'.conditions ≡ true)
      × (ins'.status ≡ instance_warning)
unfolding probe set_found
probe-masked reg ins ps req answer now disks plain memory threads below above =
    let cs = conditions_of ps req in
    let es = events_of ps req now disks in
    let noted : is_empty es ≡ false =
      filled_append_left ((check_mem ps req).1 ++ (check_threads ps req).1 ++ (check_cpu ps req).1)
        _
        (filled_append ((check_mem ps req).1 ++ (check_threads ps req).1) (check_cpu ps req).1
          (cpu_noted ps req below above)) in
    (
      set_found (cs, es) ins,
      renewed ps req now disks,
      ground (arith, plain, check-found ps req now disks memory),
      threads_found ps req ∙ threads,
      rw noted refl,
    )
