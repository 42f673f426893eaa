-- ===== src/Process/Scan/Again.antt =====
-- A second scan of the same processes by process/scan.go.
use snk_fork_dolphin.Base.{
  ℕ, ◌≡◌, ◌∙◌, refl, ap, Bool, true, false, not, ◌&&◌, ◌||◌, ◌==◌, List, [], ◌∷◌, none, some, arith,
  ==_iff, Bool-cases, Option-cases, inl, inr, All,
}
use snk_fork_dolphin.Base.Int.{ℤ}
use snk_fork_dolphin.Base.Outcome.{done, Ends, Ends-bind, Ends-then, Ends-done, Ends-weaken}
use snk_fork_dolphin.Process.Scan.{
  Agent, HostView, Proc, Parsed, found, nothing, failed, Scanner, mem_pid, forget_stopped, note,
  add_proc, see_pid, see_pids, update, parse, is_process_stopped,
}

mem_pid-forget_stopped :
    (stopped : ℕ → Bool) (p : ℕ) (ps : List ℕ)
    → mem_pid p (forget_stopped stopped ps) ≡ (mem_pid p ps && not (stopped p))
unfolding forget_stopped
mem_pid-forget_stopped stopped p [] = refl
mem_pid-forget_stopped stopped p (q ∷ ps) = elim (Bool-cases (q == p)) [
  | inl same ↦
      let e = (==_iff q p).0 same in
      ground (arith, same, ap stopped e, mem_pid-forget_stopped stopped p ps)
  | inr other ↦ ground (arith, other, mem_pid-forget_stopped stopped p ps)
]

procs-note : (r : Parsed) (s : Scanner) → (note r s).procs ≡ s.procs
unfolding note
procs-note nothing s = refl
procs-note (found ins) s = refl
procs-note (failed e) s = refl

abbrev is_opened : HostView → ℕ → Bool
is_opened view p = elim (view.opened p) [ none ↦ false | some q ↦ true ]

-- The processes known after the loop: those known before, and the listed ones that are opened.
abbrev Knows : HostView → List ℕ → Scanner → Scanner → Type 0
Knows view pids s s' =
    (p : ℕ) → mem_pid p s'.procs ≡ (mem_pid p s.procs || (mem_pid p pids && is_opened view p))

module _ (view : HostView) where
  abbrev stopped : ℕ → Bool
  stopped = is_process_stopped view

  Knows-note :
      (pid : ℕ) (r : Parsed) (s : Scanner)
      → is_opened view pid ≡ true
      → Knows view (pid ∷ []) s (note r (record s { procs = pid ∷ s.procs }))
  Knows-note pid r s opened p =
      ap (mem_pid p) (procs-note r (record s { procs = pid ∷ s.procs }))
      ∙ elim (Bool-cases (pid == p)) [
        | inl same ↦
            let e = (==_iff pid p).0 same in ground (arith, same, ap (is_opened view) e, opened)
        | inr other ↦ ground (arith, other)
      ]

  Knows-known : (pid : ℕ) (s : Scanner) → mem_pid pid s.procs ≡ true → Knows view (pid ∷ []) s s
  Knows-known pid s known p = elim (Bool-cases (pid == p)) [
    | inl same ↦
        let e = (==_iff pid p).0 same in ground (arith, same, ap (λ q. mem_pid q s.procs) e, known)
    | inr other ↦ ground (arith, other)
  ]

  Knows-shut : (pid : ℕ) (s : Scanner) → is_opened view pid ≡ false → Knows view (pid ∷ []) s s
  Knows-shut pid s shut p = elim (Bool-cases (pid == p)) [
    | inl same ↦ let e = (==_iff pid p).0 same in ground (arith, same, ap (is_opened view) e, shut)
    | inr other ↦ ground (arith, other)
  ]

  -- A process that a scan does not make an instance of: it has stopped, is known or is not opened.
  abbrev IsSettled : List ℕ → ℕ → Type 0
  IsSettled procs p = (stopped p || (mem_pid p procs || not (is_opened view p))) ≡ true

  IsSettled-cons :
      (q : ℕ) (procs pids : List ℕ) → All (IsSettled procs) pids → All (IsSettled (q ∷ procs)) pids
  IsSettled-cons q procs [] h = tt
  IsSettled-cons q procs (p ∷ pids) h = (ground (arith, h.0), IsSettled-cons q procs pids h.1)

  -- What gopsutil opens is the process that is asked for.
  abbrev pub OpensIt : Type 0
  OpensIt = (pid : ℕ) (p : Proc) → view.opened pid ≡ some p → p.pid ≡ pid

module _ (a : Agent) (view : HostView) (now : ℤ) where
  Ends-see_pid : (pid : ℕ) (s : Scanner) → Ends (Knows view (pid ∷ []) s) (see_pid a view now pid s)
  unfolding see_pid add_proc
  Ends-see_pid pid s = elim (Bool-cases (mem_pid pid s.procs)) [
    | inl known ↦ rw known (Knows-known view pid s known)
    | inr new ↦ elim (Option-cases (view.opened pid)) [
      | inl shut ↦ rw (new, shut) (Knows-shut view pid s (ground (arith, shut)))
      | inr (p, opened) ↦
          rw (new, opened)
            (Ends-bind (Knows view (pid ∷ []) s) (parse a (stopped view) now p) _
              (λ r. Knows-note view pid r s (ground (arith, opened))))
    ]
  ]

  Ends-see_pids :
      (pids : List ℕ) (s : Scanner) → Ends (Knows view pids s) (see_pids a view now pids s)
  unfolding see_pids
  Ends-see_pids [] s = λ p. ground arith
  Ends-see_pids (pid ∷ pids) s =
      Ends-then (Knows view (pid ∷ []) s) (Knows view (pid ∷ pids) s) (see_pid a view now pid s) _
        (Ends-see_pid pid s)
        (λ s1 g.
          Ends-weaken (Knows view pids s1) (Knows view (pid ∷ pids) s) (see_pids a view now pids s1)
            (λ s2 g2 p. ground (arith, g p, g2 p)) (Ends-see_pids pids s1))

  -- Nothing but the known processes is changed.
  abbrev Quiet : Scanner → Scanner → Type 0
  Quiet s s' = (s'.instances ≡ s.instances) × (s'.sent ≡ s.sent)

  see_pid-stopped :
      (pid : ℕ) (p : Proc) (s : Scanner)
      → OpensIt view
      → mem_pid pid s.procs ≡ false
      → view.opened pid ≡ some p
      → stopped view pid ≡ true
      → see_pid a view now pid s ≡ done (record s { procs = pid ∷ s.procs })
  unfolding see_pid add_proc parse note
  see_pid-stopped pid p s it new opened gone =
      let e : stopped view p.pid ≡ true = ap (stopped view) (it pid p opened) ∙ gone in
      ground (arith, new, opened, e)

  see_pid-known :
      (pid : ℕ) (s : Scanner) → mem_pid pid s.procs ≡ true → see_pid a view now pid s ≡ done s
  unfolding see_pid
  see_pid-known pid s known = ground (arith, known)

  see_pid-shut :
      (pid : ℕ) (s : Scanner)
      → mem_pid pid s.procs ≡ false
      → view.opened pid ≡ none
      → see_pid a view now pid s ≡ done s
  unfolding see_pid
  see_pid-shut pid s new shut = ground (arith, new, shut)

  see_pids-Quiet :
      (pids : List ℕ) (s : Scanner)
      → OpensIt view
      → All (IsSettled view s.procs) pids
      → (s' : Scanner) × (see_pids a view now pids s ≡ done s') × Quiet s s'
  unfolding see_pids
  see_pids-Quiet [] s it h = (s, refl, (refl, refl))
  see_pids-Quiet (pid ∷ pids) s it h = elim (Bool-cases (mem_pid pid s.procs)) [
    | inl known ↦ rw (see_pid-known pid s known) (see_pids-Quiet pids s it h.1)
    | inr new ↦ elim (Option-cases (view.opened pid)) [
      | inl shut ↦ rw (see_pid-shut pid s new shut) (see_pids-Quiet pids s it h.1)
      | inr (p, opened) ↦
          let s1 : Scanner = record s { procs = pid ∷ s.procs } in
          let gone : stopped view pid ≡ true = ground (arith, h.0, new, opened) in
          rw (see_pid-stopped pid p s it new opened gone)
            (see_pids-Quiet pids s1 it (IsSettled-cons view pid s.procs pids h.1))
    ]
  ]

All-IsSettled :
    (view : HostView) (procs all pids : List ℕ)
    → ((p : ℕ) → mem_pid p pids ≡ true → mem_pid p all ≡ true)
    → ((p : ℕ) → mem_pid p all ≡ true → IsSettled view procs p)
    → All (IsSettled view procs) pids
All-IsSettled view procs all [] sub h = tt
All-IsSettled view procs all (pid ∷ pids) sub h = (
  h pid (sub pid (ground (arith, (==_iff pid pid).1 refl))),
  All-IsSettled view procs all pids (λ p e. sub p (ground (arith, e))) h,
)

-- A scan that finds the processes as the scan before it found them, some of which may have stopped,
-- makes no instance and sends no event, whatever the time, and leaves the same processes known. What
-- gopsutil opens is the process that is asked for.
pub update_again :
    (a : Agent) (view : HostView) (now later : ℤ) (s s' : Scanner)
    → ((pid : ℕ) (p : Proc) → view.opened pid ≡ some p → p.pid ≡ pid)
    → update a view now s ≡ done s'
    → (s'' : Scanner) × (update a view later s' ≡ done s'')
      × (s''.instances ≡ s'.instances)
      × (s''.sent ≡ s'.sent)
      × ((p : ℕ) → mem_pid p s''.procs ≡ mem_pid p s'.procs)
unfolding update
update_again a view now later s s' it e =
    let gone = is_process_stopped view in
    let s0 : Scanner = record s { procs = forget_stopped gone s.procs } in
    let s1 : Scanner = record s' { procs = forget_stopped gone s'.procs } in
    let first = Ends-done (Knows view view.pids s0) _ (Ends-see_pids a view now view.pids s0) e in
    let settled =
      All-IsSettled view s1.procs view.pids view.pids (λ p h. h)
        (λ p listed. ground (arith, listed, first p, mem_pid-forget_stopped gone p s'.procs)) in
    let (s2, second, quiet) = see_pids-Quiet a view later view.pids s1 it settled in
    let knows =
      Ends-done (Knows view view.pids s1) _ (Ends-see_pids a view later view.pids s1) second in
    (
      s2,
      second,
      quiet.0,
      quiet.1,
      λ p. ground (
        arith,
        knows p,
        first p,
        mem_pid-forget_stopped gone p s'.procs,
        mem_pid-forget_stopped gone p s.procs,
      ),
    )
