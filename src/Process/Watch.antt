-- ===== src/Process/Watch.antt =====
-- `watchInstance` of process/scan.go: the loop that probes an instance and tells its changes.
pub mod Changes
use snk_fork_dolphin.Base.{
  ℕ, ◌++◌, Bool, true, false, not, List, [], ◌∷◌, Option, none, some, if◌then◌else◌, is_empty,
}
use snk_fork_dolphin.Base.Int.{ℤ}
use snk_fork_dolphin.Base.Outcome.{Outcome, done, panicked, ◌>>=◌}
use snk_fork_dolphin.Process.{
  InstanceStatus, instance_warning, instance_error, instance_success, instance_unknown,
  ProcInstance,
}
use snk_fork_dolphin.Process.Check.{ProcessState, DiskWrites, Registry, probe}
use snk_fork_dolphin.Types.Answer.{ProbeAnswer}
use snk_fork_dolphin.Types.Fault.{Errors}
use snk_fork_dolphin.Types.Resource.{DeployResource}

-- `EventType`
pub data EventType : Type 0 where
  et_starting et_started et_probe_err et_probe_warn et_stopping et_stopped : EventType

-- `InstanceEvent`, with the instance as it is when the event is sent.
pub record InstanceEvent : Type 0 where
  pub type : EventType
  pub ins : ProcInstance

-- What `getMetrics` makes its metric of.
pub record ProcMetric : Type 0 where
  pub ins : ProcInstance
  pub state : ProcessState

abbrev pub same_status : InstanceStatus → InstanceStatus → Bool
same_status instance_warning instance_warning = true
same_status instance_error instance_error = true
same_status instance_success instance_success = true
same_status instance_unknown instance_unknown = true
same_status _ _ = false

-- The event that tells of a status.
unfoldable pub event_type : InstanceStatus → EventType
event_type instance_error = et_probe_err
event_type instance_warning = et_probe_warn
event_type instance_success = et_started
event_type instance_unknown = et_probe_warn

-- What a round of the loop reads: the time, whether the process has stopped, its state, the
-- resource of its deploy key, and what the prober answers.
pub record Round : Type 0 where
  pub now : ℤ
  pub is_stopped : Bool
  pub state : ProcessState
  pub res_req : Option DeployResource
  pub answer : Option ProbeAnswer

-- What the loop sends, and the map of the disks after it.
pub record Sent : Type 0 where
  pub events : List InstanceEvent
  pub metrics : List ProcMetric
  pub disks : DiskWrites

unfoldable pub sent_before : List InstanceEvent → ProcMetric → Sent → Sent
sent_before es mtr rest = record rest { events = es ++ rest.events; metrics = mtr ∷ rest.metrics }

-- The event of a status that has changed.
unfoldable pub changed : InstanceStatus → ProcInstance → List InstanceEvent
unfolding event_type
changed prev ins =
    if same_status ins.status prev
    then []
    else record { type = event_type ins.status; ins = ins } ∷ []

-- The variables of the loop after a round, and what the round sends.
pub record Probed : Type 0 where
  pub prev : InstanceStatus
  pub ins : ProcInstance
  pub disks : DiskWrites
  pub sent : List InstanceEvent

-- What follows the call of `Probe`, by its error.
unfoldable pub after_probe : InstanceStatus → ℤ → ProcInstance → DiskWrites → Errors → Probed
unfolding changed
after_probe prev now ins disks [] =
    let ins' : ProcInstance = record ins { update_time = now } in
    record { prev = ins'.status; ins = ins'; disks = disks; sent = changed prev ins' }
after_probe prev now ins disks (_ ∷ _) = record { prev = prev; ins = ins; disks = disks; sent = [] }

-- The loop, over its rounds; `prev` is `prevSt`.
unfoldable pub watch_rounds :
    Registry → InstanceStatus → ProcInstance → DiskWrites → List Round → Outcome Sent
unfolding sent_before
watch_rounds reg prev ins disks [] = done (record { events = []; metrics = []; disks = disks })
watch_rounds reg prev ins disks (r ∷ rs) =
    let next : Outcome Sent = do
      (ins1, errors, disks') ← probe reg ins r.state r.res_req r.answer r.now disks
      let p = after_probe prev r.now ins1 disks' errors
      rest ← watch_rounds reg p.prev p.ins p.disks rs
      done (sent_before p.sent (record { ins = p.ins; state = r.state }) rest)
    in if r.is_stopped
      then done (record {
        events = record { type = et_stopped; ins = ins } ∷ [];
        metrics = [];
        disks = disks;
      })
      else next

-- `watchInstance`
unfoldable pub watch_instance : Registry → ProcInstance → DiskWrites → List Round → Outcome Sent
watch_instance reg ins disks rs = watch_rounds reg instance_unknown ins disks rs
