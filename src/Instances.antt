-- ===== src/Instances.antt =====
-- controllers/types/impl/instance.go: the manager of the instances that run, which follows the
-- events of etcd and answers what is running.
pub mod Latest
pub mod Fatal
use snk_fork_dolphin.Base.{Bool, List, [], ◌∷◌, Option, none, some, if◌then◌else◌, is_empty, map}
use snk_fork_dolphin.Base.Int.{ℤ, ◌+ℤ◌, ltb_ℤ}
use snk_fork_dolphin.Base.Outcome.{Outcome, done, panicked, ◌>>=◌}
use snk_fork_dolphin.Base.Text.{Text}
use snk_fork_dolphin.Base.Table.{Table, lookup, insert, delete}
use snk_fork_dolphin.Types.Instance.{Instance, instance_key, is_stopped}
use snk_fork_dolphin.Types.Stage.{Stage}

-- `insManager`
pub record InsManager : Type 0 where
  pub stage : Stage
  pub instances : Table (Table Instance)

-- `watch.Event`: the types, and what the object is.
pub data Event {ℓ} (A : Type ℓ) : Type ℓ where
  added modified deleted : A → Event A
  watch_error : Event A

-- The types that a watcher can be given for instances: the struct, and pointers.
pub data GoType : Type 0 where
  instance_struct : GoType
  pointer_to : GoType → GoType

-- The object of an event: a pointer to a value of a type, with the instance that was decoded into it.
pub data Object : Type 0 where
  pointer : GoType → Instance → Object

-- `NewInfor`
unfoldable pub new_infor : Stage → InsManager
new_infor stage = record { stage = stage; instances = [] }

-- The map of a key; a missing one reads as an empty one.
abbrev pub instances_of : Text → InsManager → Table Instance
instances_of key m = elim (lookup key m.instances) [ none ↦ [] | some s ↦ s ]

-- `GetInstance`; `none` is the nil pointer.
unfoldable pub get_instance : Text → Text → InsManager → Option Instance
get_instance key ins_id m =
    let s = instances_of key m in if is_empty s then none else lookup ins_id s

-- The loop of `RunningInstance`.
unfoldable pub not_stopped : Table Instance → Table Instance
not_stopped [] = []
not_stopped ((k, v) ∷ s) = if is_stopped v.life_cycle then not_stopped s else (k, v) ∷ not_stopped s

-- `RunningInstance`
unfoldable pub running_instance : Text → InsManager → Table Instance
unfolding not_stopped
running_instance key m = not_stopped (instances_of key m)

-- `RecentStoppedInstance`: all the instances of the key.
unfoldable pub recent_stopped_instance : Text → InsManager → Table Instance
recent_stopped_instance key m = instances_of key m

-- The loop of `NewStartedInstance` and of `NewStoppedInstance`, at the time that each reads.
unfoldable pub later_than : (Instance → ℤ) → ℤ → ℤ → Table Instance → List Instance
later_than time d now [] = []
later_than time d now ((_, v) ∷ s) =
    if ltb_ℤ now (time v +ℤ d) then v ∷ later_than time d now s else later_than time d now s

-- `NewStartedInstance` at the time `now`.
unfoldable pub new_started_instance : Text → ℤ → ℤ → InsManager → List Instance
unfolding later_than running_instance
new_started_instance key d now m = later_than (λ v. v.start_time) d now (running_instance key m)

-- `NewStoppedInstance` at the time `now`.
unfoldable pub new_stopped_instance : Text → ℤ → ℤ → InsManager → List Instance
unfolding later_than recent_stopped_instance
new_stopped_instance key d now m =
    later_than (λ v. v.stop_time) d now (recent_stopped_instance key m)

-- The loop of `ListDeploykeys`.
unfoldable pub keys_of : Table (Table Instance) → List Text
keys_of [] = []
keys_of ((k, _) ∷ t) = k ∷ keys_of t

-- `ListDeploykeys`
unfoldable pub list_deploykeys : InsManager → List Text
unfolding keys_of
list_deploykeys m = keys_of m.instances

-- `handleInstanceEvent` at `Added` and `Modified`.
unfoldable pub put_instance : Instance → InsManager → InsManager
put_instance dat m =
    let key = instance_key dat in
    record m { instances = insert key (insert dat.id dat (instances_of key m)) m.instances }

-- `handleInstanceEvent` at `Deleted`: an instance that has not stopped is deleted as well.
unfoldable pub drop_instance : Instance → InsManager → InsManager
drop_instance dat m =
    let key = instance_key dat in
    elim (lookup key m.instances) [
      | none ↦ m
      | some s ↦ record m { instances = insert key (delete dat.id s) m.instances }
    ]

-- The switch of `handleInstanceEvent`; an error event does not come to it.
unfoldable pub handle : Event Instance → InsManager → InsManager
unfolding put_instance drop_instance
handle (added dat) m = put_instance dat m
handle (modified dat) m = put_instance dat m
handle (deleted dat) m = drop_instance dat m
handle watch_error m = m

-- `e.Object.(*registry.Instance)`
unfoldable pub as_instance : Object → Option Instance
as_instance (pointer instance_struct dat) = some dat
as_instance (pointer (pointer_to t) dat) = none

-- `handleInstanceEvent`: the end of the program by `glog.Fatalf` is `panicked`.
unfoldable pub handle_object :
    (Instance → Event Instance) → Object → InsManager → Outcome InsManager
unfolding as_instance
handle_object kind o m = elim (as_instance o) [
  | none ↦ panicked
  | some dat ↦ done (handle (kind dat) m)
]

unfoldable pub handle_instance_event : Event Object → InsManager → Outcome InsManager
unfolding handle_object
handle_instance_event (added o) m = handle_object added o m
handle_instance_event (modified o) m = handle_object modified o m
handle_instance_event (deleted o) m = handle_object deleted o m
handle_instance_event watch_error m = done m

-- `watchEvent` with that handler, over the events that come in; an error event is logged.
unfoldable pub watch_event : List (Event Object) → InsManager → Outcome InsManager
unfolding handle_instance_event
watch_event [] m = done m
watch_event (e ∷ es) m = do m' ← handle_instance_event e m; watch_event es m'

-- The watcher of registry/generic decodes into `reflect.New(typ)`, a pointer to the type it is given.
unfoldable pub deliver : GoType → Event Instance → Event Object
deliver typ (added dat) = added (pointer typ dat)
deliver typ (modified dat) = modified (pointer typ dat)
deliver typ (deleted dat) = deleted (pointer typ dat)
deliver typ watch_error = watch_error

-- `watch` over the changes in etcd: the type that it gives is already that of a pointer.
unfoldable pub watch : List (Event Instance) → InsManager → Outcome InsManager
unfolding watch_event deliver
watch es m = watch_event (map (deliver (pointer_to instance_struct)) es) m
