-- ===== src/Replica/Destroyed.antt =====
-- What `Destroy` of a controller leaves (controllers/scheduler/replica.go).
use snk_fork_dolphin.Base.{◌≡◌, arith, [], Option-cases, inl, inr}
use snk_fork_dolphin.Base.Text.{Text, text_eq_iff}
use snk_fork_dolphin.Base.Table.{lookup}
use snk_fork_dolphin.HostConfig.{
  Store, HcManager, list_host_configs, delete_hosts, delete_host_configs,
}
use snk_fork_dolphin.HostConfig.Tables.{key_map-delete_host_configs}
use snk_fork_dolphin.Replica.{destroy}

module _ (D : Store) where
  -- `Destroy` of a controller reports no error and deletes nothing: the host configurations of every
  -- key, its own included, and the store are as before.
  destroy_deletes_nothing :
      (key j : Text) (m : HcManager D)
      → let r = destroy D key m in
        (list_host_configs D j r.0 ≡ list_host_configs D j m) × (r.0.store ≡ m.store) × (r.1 ≡ [])
  unfolding destroy delete_host_configs delete_hosts list_host_configs
  destroy_deletes_nothing key j m =
      let same = key_map-delete_host_configs D key j [] m in
      elim (Option-cases (lookup key m.cfgs)) [
        | inl absent ↦ (ground arith, ground arith, ground arith)
        | inr (hosts, found) ↦ (ground (arith, same, text_eq_iff key j), ground arith, ground arith)
      ]
