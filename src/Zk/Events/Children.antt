-- ===== src/Zk/Events/Children.antt =====
-- What a change of the children in controllers/java/zk/sync_zk.go leaves of the instances.
use snk_fork_dolphin.Base.{
  ℕ, zero, suc, ◌+◌, ◌≡◌, ◌∙◌, refl, ap, arith, ◌++◌, Bool, true, false, not, ◌&&◌, List, [], ◌∷◌,
  none, some, if◌then◌else◌, is_empty, length, length-append, set, ltb, All, Bool-cases,
  Option-cases, inl, inr,
}
use snk_fork_dolphin.Base.Table.{insert, lookup-insert}
use snk_fork_dolphin.Base.Text.{Text, text_eq, text_eq_refl}
use snk_fork_dolphin.Router.Node.{ServiceNode}
use snk_fork_dolphin.Zk.{zk_instance}
use snk_fork_dolphin.Zk.Names.{get_deploy_name}
use snk_fork_dolphin.Zk.Sync.{
  Outside, ZkManager, base_name, instances_at, parse_zk_data, put_data, read_node,
}
use snk_fork_dolphin.Zk.Events.{
  mem_text, is_known, append_new, keep_known, add_child, add_children, on_children, delete_gone,
}

length-set : (ss : List ServiceNode) (i : ℕ) (v : ServiceNode) → length (set ss i v) ≡ length ss
length-set [] i v = refl
length-set (s ∷ ss) zero v = refl
length-set (s ∷ ss) (suc i) v = ground (arith, length-set ss i v)

module _ (name : Text) where
  -- From one manager to another `n` instances of the deployment are added, and no name and no other
  -- deployment is changed.
  record Adds (n : ℕ) (m m' : ZkManager) : Type 0 where
    names : m'.names ≡ m.names
    number : length (instances_at name m') ≡ length (instances_at name m) + n
    others : (v : Text) → text_eq name v ≡ false → instances_at v m' ≡ instances_at v m

  Adds-none : (m : ZkManager) → Adds 0 m m
  Adds-none m = record { names = refl; number = omega arith; others = λ v e. refl }

  Adds-same : (n k : ℕ) (m m1 m2 : ZkManager) → Adds n m m1 → k ≡ n → m2 ≡ m1 → Adds k m m2
  Adds-same n k m m1 m2 a e f = rw (e, f) a

  Adds-then : (n k : ℕ) (m1 m2 m3 : ZkManager) → Adds n m1 m2 → Adds k m2 m3 → Adds (n + k) m1 m3
  Adds-then n k m1 m2 m3 a b = record {
    names = b.names ∙ a.names;
    number = ground (arith, a.number, b.number);
    others = λ v e. b.others v e ∙ a.others v e;
  }

  instances_at-put :
      (ss : List ServiceNode) (v : Text) (m : ZkManager)
      → instances_at v (record m { zk_ins = insert name ss m.zk_ins })
        ≡ (if text_eq name v then ss else instances_at v m)
  unfolding instances_at
  instances_at-put ss v m = ground (arith, lookup-insert {V = List ServiceNode} name v ss m.zk_ins)

  Adds-put :
      (ss : List ServiceNode) (n : ℕ) (m : ZkManager)
      → length ss ≡ length (instances_at name m) + n
      → Adds n m (record m { zk_ins = insert name ss m.zk_ins })
  Adds-put ss n m e = record {
    names = refl;
    number = ap length (instances_at-put ss name m ∙ rw (text_eq_refl name) refl) ∙ e;
    others = λ v other. instances_at-put ss v m ∙ rw other refl;
  }

  Adds-append_new :
      (room : ℕ) (v : ServiceNode) (at : ℕ) (m : ZkManager) → Adds 0 m (append_new room name v at m)
  unfolding append_new
  Adds-append_new room v at m = elim (Bool-cases (ltb at room)) [
    | inl fits ↦ rw fits (Adds-put _ 0 m (ground (arith, length-set (instances_at name m) at v)))
    | inr full ↦ rw full (Adds-none m)
  ]

  -- The inner loop overwrites instances and adds none.
  keep_known-Adds :
      (room : ℕ) (sn : Text) (ss : List ServiceNode) (at : ℕ) (m : ZkManager)
      → let r = keep_known room name sn ss at m in (r.0 ≡ is_known sn ss) × Adds 0 m r.2
  unfolding keep_known is_known
  keep_known-Adds room sn [] at m = (refl, Adds-none m)
  keep_known-Adds room sn (v ∷ ss) at m = elim (Bool-cases (text_eq v.node_name sn)) [
    | inl same ↦
        let m1 = append_new room name v at m in
        let rest = keep_known-Adds room sn ss (at + 1) m1 in
        rw same (refl, Adds-then 0 0 m m1 _ (Adds-append_new room v at m) rest.1)
    | inr other ↦ rw other (keep_known-Adds room sn ss at m)
  ]

module _ (O : Outside) (path name : Text) (zoo : O.conn.Zoo) where
  -- The node of the child can be read and decoded.
  abbrev pub is_read : Text → Bool
  is_read k = elim (O.conn.get_data (path ++ b'/' ∷ k) zoo) [
    | none ↦ false
    | some dat ↦ elim (read_node O (path ++ b'/' ∷ k) dat) [ none ↦ false | some s ↦ true ]
  ]

  -- A child that is new to etcd and to the manager, and can be read.
  abbrev pub is_new : List Text → List ServiceNode → Text → Bool
  is_new keys known k = not (mem_text k keys) && not (is_known (base_name k) known) && is_read k

  abbrev pub count_new : List Text → List ServiceNode → List Text → ℕ
  count_new keys known [] = 0
  count_new keys known (k ∷ ks) = (if is_new keys known k then 1 else 0) + count_new keys known ks

  -- The child's path is one of the deployment.
  abbrev pub IsOf : ZkManager → Text → Type 0
  IsOf m k = get_deploy_name m.names (path ++ b'/' ∷ k) ≡ (name, [])

  parse_zk_data-read :
      (k dat : Text) (m : ZkManager)
      → IsOf m k
      → is_empty name ≡ false
      → (parse_zk_data O zk_instance (path ++ b'/' ∷ k) dat m).0
        ≡ elim (read_node O (path ++ b'/' ∷ k) dat) [
          | none ↦ m
          | some s ↦ record m { zk_ins = insert name (instances_at name m ++ s ∷ []) m.zk_ins }
        ]
  unfolding parse_zk_data put_data
  parse_zk_data-read k dat m of filled = elim (Option-cases (read_node O (path ++ b'/' ∷ k) dat)) [
    | inl unread ↦ ground (arith, of, unread)
    | inr (s, read) ↦ ground (arith, of, read)
  ]

  -- Whether the data are those of a node.
  abbrev decodes : Text → Text → Bool
  decodes k dat = elim (read_node O (path ++ b'/' ∷ k) dat) [ none ↦ false | some s ↦ true ]

  parse_zk_data-Adds :
      (k dat : Text) (m : ZkManager)
      → IsOf m k
      → is_empty name ≡ false
      → Adds name
          (if decodes k dat then 1 else 0)
          m
          (parse_zk_data O zk_instance (path ++ b'/' ∷ k) dat m).0
  parse_zk_data-Adds k dat m of filled = elim (Option-cases (read_node O (path ++ b'/' ∷ k) dat)) [
    | inl unread ↦
        Adds-same name 0 _ m m _ (Adds-none name m) (ground (arith, unread))
          (parse_zk_data-read k dat m of filled ∙ ground (arith, unread))
    | inr (s, read) ↦
        let ss = instances_at name m ++ s ∷ [] in
        Adds-same name 1 _ m (record m { zk_ins = insert name ss m.zk_ins }) _
          (Adds-put name ss 1 m (ground (arith, length-append (instances_at name m) (s ∷ []))))
          (ground (arith, read)) (parse_zk_data-read k dat m of filled ∙ ground (arith, read))
  ]

  add_child-Adds :
      (found : Bool) (k : Text) (m : ZkManager) (e : O.Etcd)
      → IsOf m k
      → is_empty name ≡ false
      → Adds name (if not found && is_read k then 1 else 0) m (add_child O path found zoo k m e).0
  unfolding add_child
  add_child-Adds true k m e of filled =
      elim (Option-cases (O.conn.get_data (path ++ b'/' ∷ k) zoo)) [
        | inl gone ↦ Adds-same name 0 0 m m _ (Adds-none name m) refl (ground (arith, gone))
        | inr (dat, there) ↦
            Adds-same name 0 0 m m _ (Adds-none name m) refl (ground (arith, there))
      ]
  add_child-Adds false k m e of filled =
      elim (Option-cases (O.conn.get_data (path ++ b'/' ∷ k) zoo)) [
        | inl gone ↦
            Adds-same name 0 _ m m _ (Adds-none name m) (ground (arith, gone))
              (ground (arith, gone))
        | inr (dat, there) ↦
            Adds-same name (if decodes k dat then 1 else 0) _ m
              (parse_zk_data O zk_instance (path ++ b'/' ∷ k) dat m).0 _
              (parse_zk_data-Adds k dat m of filled) (ground (arith, there)) (ground (arith, there))
      ]

  IsOf-Adds :
      (n : ℕ) (m m' : ZkManager) (ks : List Text)
      → Adds name n m m'
      → All (IsOf m) ks
      → All (IsOf m') ks
  IsOf-Adds n m m' [] a h = tt
  IsOf-Adds n m m' (k ∷ ks) a h = (rw a.names h.0, IsOf-Adds n m m' ks a h.1)

  -- One round of the loop.
  abbrev round :
      List Text → List ServiceNode → ℕ → Text → ℕ → ZkManager → O.Etcd → ZkManager × O.Etcd
  round keys known room k at m e =
      let (found, at', m') = keep_known room name (base_name k) known at m in
      if mem_text k keys then (m', e) else add_child O path found zoo k m' e

  round-Adds :
      (keys : List Text) (known : List ServiceNode) (room : ℕ) (k : Text) (at : ℕ) (m : ZkManager)
      (e : O.Etcd)
      → IsOf m k
      → is_empty name ≡ false
      → Adds name (if is_new keys known k then 1 else 0) m (round keys known room k at m e).0
  round-Adds keys known room k at m e of filled =
      let (named, kept) = keep_known-Adds name room (base_name k) known at m in
      let m1 = (keep_known room name (base_name k) known at m).2 in
      elim (Bool-cases (mem_text k keys)) [
        | inl old ↦ rw old kept
        | inr new ↦
            let found = is_known (base_name k) known in
            let number : ℕ = if not found && is_read k then 1 else 0 in
            let m2 = (add_child O path found zoo k m1 e).0 in
            let same : number ≡ 0 + number = omega arith in
            rw (new, named)
              (Adds-same name (0 + number) number m m2 m2
                (Adds-then name 0 number m m1 m2 kept
                  (add_child-Adds found k m1 e (IsOf-Adds 0 m m1 (k ∷ []) kept (of, tt)).0 filled))
                same refl)
      ]

  add_children-Adds :
      (keys : List Text) (known : List ServiceNode) (room : ℕ) (ks : List Text) (at : ℕ)
      (m : ZkManager) (e : O.Etcd)
      → All (IsOf m) ks
      → is_empty name ≡ false
      → Adds name
          (count_new keys known ks)
          m
          (add_children O path name keys known room zoo ks at m e).0
  unfolding add_children
  add_children-Adds keys known room [] at m e of filled = Adds-none name m
  add_children-Adds keys known room (k ∷ ks) at m e of filled =
      let a = round-Adds keys known room k at m e of.0 filled in
      let m1 = (round keys known room k at m e).0 in
      Adds-then name (if is_new keys known k then 1 else 0) (count_new keys known ks) m m1 _ a
        (add_children-Adds keys known room ks _ m1 _ (IsOf-Adds _ m m1 ks a of.1) filled)

  -- When the children of a path change and there is no error, the manager has as many instances of
  -- the deployment as there are children that etcd did not list, that it did not know and that can
  -- be read: those that it knew, and that are still there, are not counted any more, although they
  -- may stand in the place of a new one. The instances of no other deployment are changed. The
  -- paths of the children are those of instances of the deployment.
  pub on_children-counts :
      (m : ZkManager) (e : O.Etcd) (l keys : List Text) (other : Text)
      → O.conn.children path zoo ≡ some l
      → O.open_etcd e ≡ []
      → O.list_keys path e ≡ some keys
      → get_deploy_name m.names path ≡ (name, [])
      → is_empty name ≡ false
      → All (IsOf m) l
      → text_eq name other ≡ false
      → let (m', e', errors) = on_children O path zoo m e in
        (errors ≡ [])
        × (length (instances_at name m') ≡ count_new keys (instances_at name m) l)
        × (instances_at other m' ≡ instances_at other m)
  unfolding on_children
  on_children-counts m e l keys other has_children opened listed named filled of apart =
      let cleared : ZkManager = record m { zk_ins = insert name [] m.zk_ins } in
      let a =
        add_children-Adds keys (instances_at name m) (length l) l 0 cleared
          (delete_gone O path l keys e) of filled in
      let none_left = instances_at-put name [] name m in
      let same = instances_at-put name [] other m in
      (
        ground (arith, has_children, opened, listed, named),
        ground (arith, has_children, opened, listed, named, a.number, none_left, text_eq_refl name),
        ground (arith, has_children, opened, listed, named, a.others other apart, same),
      )
