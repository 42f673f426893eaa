-- ===== src/Instances/Latest.antt =====
-- The instance manager of controllers/types/impl/instance.go against the events it was given.
use snk_fork_dolphin.Base.{
  ◌≡◌, refl, ap, arith, Bool, ◌&&◌, List, [], ◌∷◌, Option, none, some, if◌then◌else◌, Bool-cases,
  Option-cases, inl, inr, ◌∙◌,
}
use snk_fork_dolphin.Base.Text.{Text, text_eq, text_eq_iff}
use snk_fork_dolphin.Base.Table.{Table, lookup, insert, delete, lookup-insert, lookup-delete}
use snk_fork_dolphin.Base.Total.{IsDistinct, insert-IsDistinct, delete-IsDistinct}
use snk_fork_dolphin.Types.Instance.{Instance, instance_key, is_stopped}
use snk_fork_dolphin.Types.Stage.{Stage}
use snk_fork_dolphin.Instances.{
  InsManager, Event, added, modified, deleted, watch_error, new_infor, instances_of, get_instance,
  recent_stopped_instance, not_stopped, running_instance, handle, put_instance, drop_instance,
}

-- The event's object is the instance `i` of the key.
abbrev pub concerns : Text → Text → Instance → Bool
concerns key i dat = text_eq (instance_key dat) key && text_eq dat.id i

-- What one event says of the instance, after what was known.
abbrev pub told : Text → Text → Event Instance → Option Instance → Option Instance
told key i (added dat) known = if concerns key i dat then some dat else known
told key i (modified dat) known = if concerns key i dat then some dat else known
told key i (deleted dat) known = if concerns key i dat then none else known
told key i watch_error known = known

-- What the last event about the instance says.
abbrev pub latest : Text → Text → List (Event Instance) → Option Instance → Option Instance
latest key i [] known = known
latest key i (e ∷ es) known = latest key i es (told key i e known)

abbrev pub unless_stopped : Option Instance → Option Instance
unless_stopped none = none
unless_stopped (some v) = if is_stopped v.life_cycle then none else some v

abbrev known : Text → Text → InsManager → Option Instance
known key i m = lookup i (instances_of key m)

known-put_instance :
    (key i : Text) (dat : Instance) (m : InsManager)
    → known key i (put_instance dat m) ≡ (if concerns key i dat then some dat else known key i m)
unfolding put_instance
known-put_instance key i dat m =
    let k = instance_key dat in
    ground (
      arith,
      lookup-insert k key (insert dat.id dat (instances_of k m)) m.instances,
      lookup-insert dat.id i dat (instances_of k m),
      text_eq_iff k key,
    )

known-drop_instance :
    (key i : Text) (dat : Instance) (m : InsManager)
    → known key i (drop_instance dat m) ≡ (if concerns key i dat then none else known key i m)
unfolding drop_instance lookup
known-drop_instance key i dat m =
    let k = instance_key dat in
    elim (Option-cases (lookup k m.instances)) [
      | inl absent ↦ ground (arith, text_eq_iff k key)
      | inr (t, found) ↦ ground (
        arith,
        lookup-insert k key (delete dat.id t) m.instances,
        lookup-delete dat.id i t,
        text_eq_iff k key,
      )
    ]

known-handle :
    (key i : Text) (e : Event Instance) (m : InsManager)
    → known key i (handle e m) ≡ told key i e (known key i m)
unfolding handle
known-handle key i (added dat) m = known-put_instance key i dat m
known-handle key i (modified dat) m = known-put_instance key i dat m
known-handle key i (deleted dat) m = known-drop_instance key i dat m
known-handle key i watch_error m = refl

-- `handleInstanceEvent` for event after event, where each object is the pointer that it asks for.
abbrev pub follow : List (Event Instance) → InsManager → InsManager
follow [] m = m
follow (e ∷ es) m = follow es (handle e m)

known-follow :
    (key i : Text) (es : List (Event Instance)) (m : InsManager)
    → known key i (follow es m) ≡ latest key i es (known key i m)
known-follow key i [] m = refl
known-follow key i (e ∷ es) m =
    known-follow key i es (handle e m) ∙ ap (latest key i es) (known-handle key i e m)

-- In the map of every key an instance stands once.
abbrev EachOnce : InsManager → Type 0
EachOnce m = (key : Text) → IsDistinct (instances_of key m)

instances_of-put_instance :
    (key : Text) (dat : Instance) (m : InsManager)
    → let k = instance_key dat in
      instances_of key (put_instance dat m)
      ≡ (if text_eq k key then insert dat.id dat (instances_of k m) else instances_of key m)
unfolding put_instance
instances_of-put_instance key dat m =
    let k = instance_key dat in
    ground (arith, lookup-insert k key (insert dat.id dat (instances_of k m)) m.instances)

instances_of-drop_instance :
    (key : Text) (dat : Instance) (m : InsManager)
    → let k = instance_key dat in
      instances_of key (drop_instance dat m)
      ≡ (if text_eq k key then delete dat.id (instances_of k m) else instances_of key m)
unfolding drop_instance delete
instances_of-drop_instance key dat m =
    let k = instance_key dat in
    elim (Option-cases (lookup k m.instances)) [
      | inl absent ↦ ground (arith, text_eq_iff k key)
      | inr (s, found) ↦ ground (arith, lookup-insert k key (delete dat.id s) m.instances)
    ]

put_instance-EachOnce :
    (dat : Instance) (m : InsManager) → EachOnce m → EachOnce (put_instance dat m)
put_instance-EachOnce dat m d key =
    let k = instance_key dat in
    rw (instances_of-put_instance key dat m) (elim (Bool-cases (text_eq k key)) [
      | inl same ↦ rw same (insert-IsDistinct dat.id dat (instances_of k m) (d k))
      | inr other ↦ rw other (d key)
    ])

drop_instance-EachOnce :
    (dat : Instance) (m : InsManager) → EachOnce m → EachOnce (drop_instance dat m)
drop_instance-EachOnce dat m d key =
    let k = instance_key dat in
    rw (instances_of-drop_instance key dat m) (elim (Bool-cases (text_eq k key)) [
      | inl same ↦ rw same (delete-IsDistinct dat.id (instances_of k m) (d k))
      | inr other ↦ rw other (d key)
    ])

handle-EachOnce : (e : Event Instance) (m : InsManager) → EachOnce m → EachOnce (handle e m)
unfolding handle
handle-EachOnce (added dat) m d = put_instance-EachOnce dat m d
handle-EachOnce (modified dat) m d = put_instance-EachOnce dat m d
handle-EachOnce (deleted dat) m d = drop_instance-EachOnce dat m d
handle-EachOnce watch_error m d = d

follow-EachOnce :
    (es : List (Event Instance)) (m : InsManager) → EachOnce m → EachOnce (follow es m)
follow-EachOnce [] m d = d
follow-EachOnce (e ∷ es) m d = follow-EachOnce es (handle e m) (handle-EachOnce e m d)

lookup-not_stopped_absent :
    (i : Text) (s : Table Instance) → lookup i s ≡ none → lookup i (not_stopped s) ≡ none
unfolding not_stopped lookup
lookup-not_stopped_absent i [] e = refl
lookup-not_stopped_absent i ((k, v) ∷ s) e = ground (arith, lookup-not_stopped_absent i s)

lookup-not_stopped :
    (i : Text) (s : Table Instance)
    → IsDistinct s
    → lookup i (not_stopped s) ≡ unless_stopped (lookup i s)
unfolding not_stopped lookup
lookup-not_stopped i [] d = refl
lookup-not_stopped i ((k, v) ∷ s) d =
    ground (arith, lookup-not_stopped i s d.1, lookup-not_stopped_absent i s, text_eq_iff k i)

get_instance_lem : (key i : Text) (m : InsManager) → get_instance key i m ≡ known key i m
unfolding get_instance lookup
get_instance_lem key i m = elim (Option-cases (lookup key m.instances)) [
  | inl absent ↦ ground arith
  | inr ([], found) ↦ ground arith
  | inr (x ∷ t, found) ↦ ground arith
]

-- After any events with objects of the type that `handleInstanceEvent` asks for, `GetInstance` gives
-- what the last event about the instance told: the instance, or nothing where it was deleted or
-- never seen. `RunningInstance` holds it under its id if it has not stopped, and
-- `RecentStoppedInstance` whether it has stopped or not.
follow-latest :
    (stage : Stage) (es : List (Event Instance)) (key i : Text)
    → let m = follow es (new_infor stage) in
      let last = latest key i es none in
      (get_instance key i m ≡ last)
      × (lookup i (running_instance key m) ≡ unless_stopped last)
      × (lookup i (recent_stopped_instance key m) ≡ last)
unfolding running_instance recent_stopped_instance new_infor lookup
follow-latest stage es key i =
    let m = new_infor stage in
    let told_last = known-follow key i es m in
    (
      get_instance_lem key i (follow es m) ∙ told_last,
      lookup-not_stopped i (instances_of key (follow es m)) (follow-EachOnce es m (λ k. tt) key)
          ∙ ap unless_stopped told_last,
      told_last,
    )
