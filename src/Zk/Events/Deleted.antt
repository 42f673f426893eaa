-- ===== src/Zk/Events/Deleted.antt =====
-- What a deleted node in controllers/java/zk/sync_zk.go leaves of the instances.
use snk_fork_dolphin.Base.{
  ◌≡◌, ◌∙◌, refl, ap, arith, ◌||◌, ◌&&◌, not, false, List, [], ◌∷◌, if◌then◌else◌, length, take,
  Bool-cases, inl, inr,
}
use snk_fork_dolphin.Base.Table.{insert, lookup-insert_self}
use snk_fork_dolphin.Base.Text.{Text, text_eq, text_eq_iff}
use snk_fork_dolphin.Router.Node.{ServiceNode}
use snk_fork_dolphin.Zk.{zk_instance, get_etcd_path}
use snk_fork_dolphin.Zk.Names.{get_deploy_name}
use snk_fork_dolphin.Zk.Sync.{Outside, ZkManager, base_name, instances_at}
use snk_fork_dolphin.Zk.Events.{
  is_known, replace_named, last_of, without_node, drop_node, on_deleted,
}

-- No two instances have the same name.
abbrev pub AreDistinct : List ServiceNode → Type 0
AreDistinct [] = Unit
AreDistinct (s ∷ ss) = (is_known s.node_name ss ≡ false) × AreDistinct ss

-- All but the last of a list that is not empty.
front : ServiceNode → List ServiceNode → List ServiceNode
front s [] = []
front s (t ∷ ss) = s ∷ front t ss

take-replace_named :
    (node : Text) (last s : ServiceNode) (ss : List ServiceNode)
    → take (length ss) (replace_named node last (s ∷ ss)) ≡ replace_named node last (front s ss)
unfolding replace_named front
take-replace_named node last s [] = refl
take-replace_named node last s (t ∷ ss) =
    ap (◌∷◌ (if text_eq s.node_name node then last else s)) (take-replace_named node last t ss)

is_known-front :
    (n : Text) (s : ServiceNode) (ss : List ServiceNode)
    → is_known n (s ∷ ss) ≡ (is_known n (front s ss) || text_eq (last_of s ss).node_name n)
unfolding is_known front last_of
is_known-front n s [] = ground arith
is_known-front n s (t ∷ ss) = ground (arith, is_known-front n t ss)

is_known-replace_named :
    (n node : Text) (last : ServiceNode) (ss : List ServiceNode)
    → is_known n (replace_named node last ss)
      ≡ ((is_known node ss && text_eq last.node_name n) || (is_known n ss && not (text_eq node n)))
unfolding is_known replace_named
is_known-replace_named n node last [] = refl
is_known-replace_named n node last (v ∷ ss) = ground (
  arith,
  is_known-replace_named n node last ss,
  text_eq_iff v.node_name node,
  text_eq_iff v.node_name n,
  text_eq_iff node n,
)

-- The last of instances with different names does not have the name of any other.
last_of-apart :
    (s : ServiceNode) (ss : List ServiceNode)
    → AreDistinct (s ∷ ss)
    → is_known (last_of s ss).node_name (front s ss) ≡ false
unfolding is_known front last_of
last_of-apart s [] h = refl
last_of-apart s (t ∷ ss) h = ground (
  arith,
  last_of-apart t ss h.1,
  is_known-front s.node_name t ss,
  text_eq_iff (last_of t ss).node_name s.node_name,
  text_eq_iff s.node_name (last_of t ss).node_name,
)

-- A name is among the instances that are left where it was among them before, and is not that of
-- the node.
is_known-without_node :
    (n node : Text) (ss : List ServiceNode)
    → AreDistinct ss
    → is_known n (without_node node ss) ≡ (is_known n ss && not (text_eq node n))
unfolding without_node
is_known-without_node n node [] h = unfold is_known in refl
is_known-without_node n node (s ∷ ss) h = elim (Bool-cases (is_known node (s ∷ ss))) [
  | inr absent ↦ ground (arith, absent, text_eq_iff node n)
  | inl there ↦
      let last = last_of s ss in
      rw there (
        ap (is_known n) (take-replace_named node last s ss)
        ∙ is_known-replace_named n node last (front s ss)
        ∙ ground (
          arith,
          there,
          is_known-front n s ss,
          is_known-front node s ss,
          last_of-apart s ss h,
          text_eq_iff last.node_name node,
          text_eq_iff last.node_name n,
          text_eq_iff node n,
        ))
]

instances_at-put :
    (name : Text) (ss : List ServiceNode) (m : ZkManager)
    → instances_at name (record m { zk_ins = insert name ss m.zk_ins }) ≡ ss
unfolding instances_at
instances_at-put name ss m =
    ground (arith, lookup-insert_self {V = List ServiceNode} name ss m.zk_ins)

drop_node-others :
    (path name n : Text) (m : ZkManager)
    → AreDistinct (instances_at name m)
    → is_known n (instances_at name (drop_node zk_instance name path m))
      ≡ (is_known n (instances_at name m) && not (text_eq (base_name path) n))
unfolding drop_node
drop_node-others path name n m distinct =
    let node = base_name path in
    let ss = instances_at name m in
    elim (Bool-cases (is_known node ss)) [
      | inl there ↦ rw there (
          ap (is_known n) (instances_at-put name (without_node node ss) m)
          ∙ is_known-without_node n node ss distinct)
      | inr absent ↦ rw absent (ground (arith, absent, text_eq_iff node n))
    ]

-- When a node of an instance is deleted, of the instances of its deployment those are left that
-- have another name, given that the instances have different names.
pub on_deleted-others :
    (O : Outside) (path name etcd_path n : Text) (m : ZkManager) (e : O.Etcd)
    → get_etcd_path m.names m.stage path ≡ (zk_instance, etcd_path, [])
    → get_deploy_name m.names path ≡ (name, [])
    → AreDistinct (instances_at name m)
    → is_known n (instances_at name (on_deleted O path m e).0)
      ≡ (is_known n (instances_at name m) && not (text_eq (base_name path) n))
unfolding on_deleted
on_deleted-others O path name etcd_path n m e typed named distinct =
    ground (arith, typed, named, drop_node-others path name n m distinct)
