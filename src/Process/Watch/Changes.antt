-- ===== src/Process/Watch/Changes.antt =====
-- The events that `watchInstance` of process/scan.go sends.
use snk_fork_dolphin.Base.{
  ◌≡◌, ◌≢◌, ◌↔◌, ◌⊎◌, refl, ◌++◌, Bool, true, false, List, [], ◌∷◌, arith, Bool-cases, inl, inr,
}
use mathlib.Core.Path.{subst}
use snk_fork_dolphin.Base.Outcome.{done, Ends, Ends-bind, Ends-then, Ends-done}
use snk_fork_dolphin.Process.{
  InstanceStatus, instance_warning, instance_error, instance_success, instance_unknown,
  ProcInstance,
}
use snk_fork_dolphin.Base.Int.{ℤ}
use snk_fork_dolphin.Types.Fault.{Errors}
use snk_fork_dolphin.Process.Check.{Registry, DiskWrites, probe}
use snk_fork_dolphin.Process.Watch.{
  et_stopped, InstanceEvent, Round, Sent, watch_rounds, watch_instance, event_type, changed,
  after_probe, sent_before, same_status,
}

-- Each event tells of another status than the one before it, with the type for that status, but a
-- stop, which is the last.
abbrev pub Changes : InstanceStatus → List InstanceEvent → Type 0
Changes prev [] = Unit
Changes prev (e ∷ es) =
    ((e.type ≡ et_stopped) × (es ≡ []))
    ⊎ ((e.ins.status ≢ prev) × (e.type ≡ event_type e.ins.status) × Changes e.ins.status es)

same_status_iff : (a b : InstanceStatus) → (same_status a b ≡ true) ↔ (a ≡ b)
same_status_iff instance_warning b = ground arith
same_status_iff instance_error b = ground arith
same_status_iff instance_success b = ground arith
same_status_iff instance_unknown b = ground arith

absurd_test : {b : Bool} → b ≡ false → b ≡ true → ⊥
absurd_test p q = cc

Changes-changed :
    (prev : InstanceStatus) (ins : ProcInstance) (es : List InstanceEvent)
    → Changes ins.status es
    → Changes prev (changed prev ins ++ es)
unfolding changed
Changes-changed prev ins es h = elim (Bool-cases (same_status ins.status prev)) [
  | inl same ↦ rw same (subst (λ st. Changes st es) ((same_status_iff ins.status prev).0 same) h)
  | inr other ↦
      rw other (inr (λ e. absurd_test other ((same_status_iff ins.status prev).1 e), refl, h))
]

Changes-after_probe :
    (prev : InstanceStatus) (now : ℤ) (ins : ProcInstance) (disks : DiskWrites) (errors : Errors)
    (es : List InstanceEvent)
    → Changes (after_probe prev now ins disks errors).prev es
    → Changes prev ((after_probe prev now ins disks errors).sent ++ es)
unfolding after_probe
Changes-after_probe prev now ins disks [] es h =
    Changes-changed prev (record ins { update_time = now }) es h
Changes-after_probe prev now ins disks (_ ∷ _) es h = h

Ends-watch_rounds :
    (reg : Registry) (prev : InstanceStatus) (ins : ProcInstance) (disks : DiskWrites)
    (rs : List Round)
    → Ends (λ (s : Sent). Changes prev s.events) (watch_rounds reg prev ins disks rs)
unfolding watch_rounds sent_before
Ends-watch_rounds reg prev ins disks [] = tt
Ends-watch_rounds reg prev ins disks (r ∷ rs) = elim (Bool-cases r.is_stopped) [
  | inl stopped ↦ rw stopped (inl (refl, refl))
  | inr alive ↦ rw alive (
      Ends-bind (λ (s : Sent). Changes prev s.events)
        (probe reg ins r.state r.res_req r.answer r.now disks) _
        (λ found.
          let p = after_probe prev r.now found.0 found.2 found.1 in
          Ends-then (λ (s : Sent). Changes p.prev s.events) (λ (s : Sent). Changes prev s.events)
            (watch_rounds reg p.prev p.ins p.disks rs) _
            (Ends-watch_rounds reg p.prev p.ins p.disks rs)
            (λ rest h. Changes-after_probe prev r.now found.0 found.2 found.1 rest.events h)))
]

-- Whatever the rounds, if none panics, the events that `watchInstance` sends tell only of changes:
-- each is about another status than the one before it, and of the type for its status, until at
-- the end it may tell that the process has stopped.
pub watch_instance-Changes :
    (reg : Registry) (ins : ProcInstance) (disks : DiskWrites) (rs : List Round) (sent : Sent)
    → watch_instance reg ins disks rs ≡ done sent
    → Changes instance_unknown sent.events
unfolding watch_instance
watch_instance-Changes reg ins disks rs sent e =
    Ends-done (λ (s : Sent). Changes instance_unknown s.events) _
      (Ends-watch_rounds reg instance_unknown ins disks rs) e
