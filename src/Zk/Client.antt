-- ===== src/Zk/Client.antt =====
-- controllers/java/zk/zk.go: the reading and writing of ZooKeeper, whose connection is a parameter,
-- known by its answers.
use snk_fork_dolphin.Base.{
  ℕ, zero, suc, ◌++◌, Bool, true, false, List, [], ◌∷◌, Option, none, some, if◌then◌else◌, is_empty,
  not, ◌&&◌,
}
use snk_fork_dolphin.Base.Table.{Table, insert}
use snk_fork_dolphin.Base.Text.{Text, codes, has_prefix}
use snk_fork_dolphin.Types.Fault.{Errors, outside}

-- `zk.Conn`; `none` stands for an error.
pub record Conn : Type 1 where
  pub Zoo : Type 0
  pub children : Text → Zoo → Option (List Text)
  pub get_data : Text → Zoo → Option Text
  pub exists_error : Text → Zoo → Errors
  pub set_data : Text → Text → Zoo → Zoo × Errors

-- `strings.HasSuffix` for one byte.
unfoldable pub ends_with : ℕ → Text → Bool
ends_with b [] = false
ends_with b (c ∷ []) = has_prefix (c ∷ []) (b ∷ [])
ends_with b (c ∷ d ∷ s) = ends_with b (d ∷ s)

-- The path of a child.
unfoldable pub child_path : Text → Text → Text
child_path prefix key = if ends_with b'/' prefix then prefix ++ key else prefix ++ b'/' ∷ key

-- `strings.Replace` of each `/*` by nothing.
unfoldable pub drop_stars : Text → Text
drop_stars [] = []
drop_stars (c ∷ []) = c ∷ []
drop_stars (c ∷ d ∷ s) =
    let rest = drop_stars s in
    let kept = c ∷ drop_stars (d ∷ s) in if has_prefix (c ∷ d ∷ []) (codes "/*") then rest else kept

-- The loop of `nodeWalk` over the children, where `walk` is `nodeWalk`; errors are not looked at.
unfoldable pub walk_children {ℓ} :
    {Zoo : Type ℓ}
    → (Text → Zoo → Table Text → Option (Table Text × Errors))
    → Text
    → List Text
    → Zoo
    → Table Text
    → Option (Table Text)
walk_children walk prefix [] zoo vars = some vars
walk_children walk prefix (k ∷ ks) zoo vars = elim (walk (child_path prefix k) zoo vars) [
  | none ↦ none
  | some r ↦ walk_children walk prefix ks zoo r.0
]

module _ (C : Conn) where
  open C use {Zoo, children, get_data, exists_error, set_data}

  -- `nodeWalk` with `keysOnly` false: what is read of a node is put into `vars`; `matcher` answers
  -- the pattern, and the fuel bounds the depth of the tree. The error is of the node itself, those
  -- of the nodes below are not looked at.
  unfoldable pub node_walk :
      ℕ → (Text → Bool) → Text → Zoo → Table Text → Option (Table Text × Errors)
  node_walk zero matcher prefix zoo vars = none
  node_walk (suc fuel) matcher prefix zoo vars = elim (children prefix zoo) [
    | none ↦ some (vars, outside 0 ∷ [])
    | some keys ↦
        if is_empty keys && not (matcher prefix)
        then some (vars, [])
        else elim (get_data prefix zoo) [
          | none ↦ some (vars, outside 1 ∷ [])
          | some d ↦
              elim (walk_children (node_walk fuel matcher) prefix keys zoo (insert prefix d vars)) [
                | none ↦ none
                | some vars' ↦ some (vars', [])
              ]
        ]
  ]

  -- `GetValues`
  unfoldable pub get_values :
      ℕ → List Text → (Text → Bool) → Zoo → Table Text → Option (Table Text × Errors)
  unfolding node_walk
  get_values fuel [] matcher zoo vars = some (vars, [])
  get_values fuel (k ∷ ks) matcher zoo vars = elim (node_walk fuel matcher k zoo vars) [
    | none ↦ none
    | some (vars', errors) ↦
        let rest = get_values fuel ks matcher zoo vars' in
        if is_empty errors then rest else some (vars', errors)
  ]

  -- `SetNodeValue`
  unfoldable pub set_node_value : Text → Text → Zoo → Zoo × Errors
  set_node_value key value zoo =
      let path = drop_stars key in
      if is_empty (exists_error path zoo)
      then set_data path value zoo
      else (zoo, exists_error path zoo)

  -- `GetNodeValue`; `none` is its error.
  unfoldable pub get_node_value : Text → Zoo → Option Text
  get_node_value key zoo = if is_empty (exists_error key zoo) then get_data key zoo else none

  -- `GetNodesValues`; the Boolean says whether it returns with no error.
  unfoldable pub get_nodes_values : List Text → Zoo → Table Text → Table Text × Bool
  get_nodes_values [] zoo vars = (vars, true)
  get_nodes_values (v ∷ keys) zoo vars = elim (get_node_value (drop_stars v) zoo) [
    | none ↦ (vars, false)
    | some d ↦ get_nodes_values keys zoo (insert v d vars)
  ]
