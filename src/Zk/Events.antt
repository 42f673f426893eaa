-- ===== src/Zk/Events.antt =====
-- The events of controllers/java/zk/sync_zk.go: the function that `handlerFunc` returns, `Watch` and
-- the loop of `start`.
pub mod Children
pub mod Deleted
use snk_fork_dolphin.Base.{
  ℕ, zero, suc, ◌-◌, ◌++◌, Bool, true, false, List, [], ◌∷◌, Option, none, some, if◌then◌else◌,
  is_empty, not, ◌&&◌, ◌||◌, length, take, set, ltb, ◌+◌,
}
use snk_fork_dolphin.Base.Table.{Table, lookup, insert, delete}
use snk_fork_dolphin.Base.Text.{Text, text_eq}
use snk_fork_dolphin.Router.Node.{ServiceNode}
use snk_fork_dolphin.Types.Fault.{Errors, outside}
use snk_fork_dolphin.Zk.{ZkTyp, untyped, zk_config, zk_route, zk_instance, get_etcd_path}
use snk_fork_dolphin.Zk.Names.{get_deploy_name}
use snk_fork_dolphin.Zk.Sync.{Outside, ZkManager, base_name, instances_at, parse_zk_data, destory}

-- `zk.Event`, by its type.
pub data ZkEvent : Type 0 where
  children_changed data_changed node_deleted other_event : Text → ZkEvent

abbrev pub mem_text : Text → List Text → Bool
mem_text k [] = false
mem_text k (j ∷ js) = text_eq j k || mem_text k js

-- The loop that looks for a known instance of the child's name.
unfoldable pub is_known : Text → List ServiceNode → Bool
is_known sn [] = false
is_known sn (v ∷ ss) = text_eq v.node_name sn || is_known sn ss

-- The loop of a deleted node over the instances, which writes the last one in place of each that
-- has the name.
unfoldable pub replace_named : Text → ServiceNode → List ServiceNode → List ServiceNode
replace_named node last [] = []
replace_named node last (v ∷ ss) =
    (if text_eq v.node_name node then last else v) ∷ replace_named node last ss

unfoldable pub last_of : ServiceNode → List ServiceNode → ServiceNode
last_of s [] = s
last_of s (t ∷ ss) = last_of t ss

-- What is left of the instances: one fewer, if any has the name.
unfoldable pub without_node : Text → List ServiceNode → List ServiceNode
unfolding is_known replace_named last_of
without_node node [] = []
without_node node (s ∷ ss) =
    if is_known node (s ∷ ss)
    then take (length ss) (replace_named node (last_of s ss) (s ∷ ss))
    else s ∷ ss

-- What a deleted node changes in the manager.
unfoldable pub drop_node : ZkTyp → Text → Text → ZkManager → ZkManager
unfolding without_node
drop_node zk_route name path m = record m { route_cfg = delete name m.route_cfg }
drop_node zk_instance name path m =
    if is_known (base_name path) (instances_at name m)
    then record m {
      zk_ins = insert name (without_node (base_name path) (instances_at name m)) m.zk_ins;
    }
    else m
drop_node zk_config name path m = m
drop_node untyped name path m = m

-- The local slice `new` has the array of the slice in the map, made for as many instances as there
-- are children. An `append` to it at the place `at` overwrites what the map's slice has there,
-- until the array is full and `new` gets another one.
unfoldable pub append_new : ℕ → Text → ServiceNode → ℕ → ZkManager → ZkManager
append_new room name v at m =
    if ltb at room
    then record m { zk_ins = insert name (set (instances_at name m) at v) m.zk_ins }
    else m

-- The inner loop over the known instances: whether one has the child's name, how many `new` has
-- after it, and the manager.
unfoldable pub keep_known :
    ℕ → Text → Text → List ServiceNode → ℕ → ZkManager → Bool × ℕ × ZkManager
unfolding append_new
keep_known room name sn [] at m = (false, at, m)
keep_known room name sn (v ∷ ss) at m =
    let (found, at', m') = keep_known room name sn ss (at + 1) (append_new room name v at m) in
    let passed = keep_known room name sn ss at m in
    if text_eq v.node_name sn then (true, at', m') else passed

module _ (O : Outside) where
  open O use {conn, Etcd, open_etcd, update_etcd, delete_etcd, list_keys}

  -- The loop over the keys that etcd lists and ZooKeeper does not; errors go to the log.
  unfoldable pub delete_gone : Text → List Text → List Text → Etcd → Etcd
  delete_gone path children [] e = e
  delete_gone path children (k ∷ keys) e =
      delete_gone path children keys
        (if mem_text k children then e else (delete_etcd (path ++ b'/' ∷ k) e).0)

  -- What a round does for a child that etcd does not list.
  unfoldable pub add_child : Text → Bool → conn.Zoo → Text → ZkManager → Etcd → ZkManager × Etcd
  add_child path found zoo k m e =
      let s = path ++ b'/' ∷ k in
      elim (conn.get_data s zoo) [
        | none ↦ (m, e)
        | some dat ↦
            let m' = if found then m else (parse_zk_data O zk_instance s dat m).0 in
            let (_, etcd_path, err) = get_etcd_path m.names m.stage s in
            (m', if is_empty err then (update_etcd etcd_path dat e).0 else e)
      ]

  -- The loop over the children: `keys` are those in etcd, `known` the instances before, `room` the
  -- capacity of `new` and `at` its length.
  unfoldable pub add_children :
      Text
      → Text
      → List Text
      → List ServiceNode
      → ℕ
      → conn.Zoo
      → List Text
      → ℕ
      → ZkManager
      → Etcd
      → ZkManager × Etcd
  unfolding keep_known add_child
  add_children path name keys known room zoo [] at m e = (m, e)
  add_children path name keys known room zoo (k ∷ ks) at m e =
      let (found, at', m') = keep_known room name (base_name k) known at m in
      let (m'', e') = if mem_text k keys then (m', e) else add_child path found zoo k m' e in
      add_children path name keys known room zoo ks at' m'' e'

  -- `EventNodeChildrenChanged`
  unfoldable pub on_children : Text → conn.Zoo → ZkManager → Etcd → ZkManager × Etcd × Errors
  unfolding delete_gone add_children
  on_children path zoo m e = elim (conn.children path zoo) [
    | none ↦ (m, e, outside 0 ∷ [])
    | some l ↦ elim (open_etcd e) [
      | x ∷ xs ↦ (m, e, x ∷ xs)
      | [] ↦ elim (list_keys path e) [
        | none ↦ (m, e, outside 1 ∷ [])
        | some keys ↦
            let e' = delete_gone path l keys e in
            let (name, err) = get_deploy_name m.names path in
            let known = instances_at name m in
            let cleared = record m { zk_ins = insert name [] m.zk_ins } in
            let (m', e'') = add_children path name keys known (length l) zoo l 0 cleared e' in
            if is_empty err then (m', e'', []) else (m, e', err)
      ]
    ]
  ]

  -- `EventNodeDataChanged`; its one error is that etcd cannot be reached, after the manager is changed.
  unfoldable pub on_data : Text → conn.Zoo → ZkManager → Etcd → ZkManager × Etcd × Errors
  on_data path zoo m e = elim (conn.get_data path zoo) [
    | none ↦ (m, e, [])
    | some dat ↦
        let (typ, etcd_path, err) = get_etcd_path m.names m.stage path in
        let m' : ZkManager = elim typ [
          | zk_route ↦ (parse_zk_data O zk_route path dat m).0
          | _ ↦ m
        ] in
        if not (is_empty err)
        then (m, e, [])
        else if is_empty (open_etcd e)
        then (m', (update_etcd etcd_path dat e).0, [])
        else (m', e, open_etcd e)
  ]

  -- `EventNodeDeleted`, with the same error.
  unfoldable pub on_deleted : Text → ZkManager → Etcd → ZkManager × Etcd × Errors
  unfolding drop_node
  on_deleted path m e =
      let (typ, etcd_path, err) = get_etcd_path m.names m.stage path in
      let (name, err') = get_deploy_name m.names path in
      if not (is_empty err) || not (is_empty err')
      then (m, e, [])
      else if is_empty (open_etcd e)
      then (drop_node typ name path m, (delete_etcd etcd_path e).0, [])
      else (drop_node typ name path m, e, open_etcd e)

  -- The handler.
  unfoldable pub handle_zk : ZkEvent → conn.Zoo → ZkManager → Etcd → ZkManager × Etcd × Errors
  unfolding on_children on_data on_deleted
  handle_zk (children_changed path) zoo m e = on_children path zoo m e
  handle_zk (data_changed path) zoo m e = on_data path zoo m e
  handle_zk (node_deleted path) zoo m e = on_deleted path m e
  handle_zk (other_event path) zoo m e = (m, e, [])

  -- The loop of `Watch` over the events that come in, each with the state of ZooKeeper then; it
  -- returns at the first error. That it waits for a further event is `none`.
  unfoldable pub watch_zk :
      List (ZkEvent × conn.Zoo)
      → ZkManager
      → Etcd
      → ZkManager × Etcd × Option (Errors × List (ZkEvent × conn.Zoo))
  unfolding handle_zk
  watch_zk [] m e = (m, e, none)
  watch_zk ((event, zoo) ∷ events) m e =
      let (m', e', errors) = handle_zk event zoo m e in
      let rest = watch_zk events m' e' in
      if is_empty errors then rest else (m', e', some (errors, events))

  -- The loop of `start`: after `Watch` has returned the manager is destroyed, which ends the
  -- context, so the loop ends in its next round.
  unfoldable pub start_sync :
      List (ZkEvent × conn.Zoo) → ZkManager → Etcd → ZkManager × Etcd × List (ZkEvent × conn.Zoo)
  unfolding watch_zk
  start_sync events m e =
      let (m', e', returned) = watch_zk events m e in
      elim returned [ none ↦ (m', e', []) | some (errors, later) ↦ (destory m', e', later) ]
