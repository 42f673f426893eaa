-- ===== src/Manager/Keys.antt =====
-- The controllers stand under their own keys: what the parts of the methods leave.
-- The code is in controllers/scheduler/manager.go.
use snk_fork_dolphin.Base.{
  ◌≡◌, arith, List, [], ◌∷◌, Option, none, some, if◌then◌else◌, Option-cases, inl, inr,
}
use snk_fork_dolphin.Base.Int.{ℤ}
use snk_fork_dolphin.Base.Outcome.{done, panicked}
use snk_fork_dolphin.Base.Text.{Text, text_eq, text_eq_iff}
use snk_fork_dolphin.Base.Table.{Table, lookup-insert, lookup-delete}
use snk_fork_dolphin.HostConfig.{Store, HcManager}
use snk_fork_dolphin.Types.Deploy.{DeployConfig, key_of}
use snk_fork_dolphin.Types.Deploy.Validate.{validate}
use snk_fork_dolphin.Types.Externals.{Externals}
use snk_fork_dolphin.Types.Instance.{Instance}
use snk_fork_dolphin.Replica.{ReplicaCtrl, new_replica_ctrl, renew_lease, revoke_lease}
use snk_fork_dolphin.Replica.Policy.{Run}
use snk_fork_dolphin.Replica.Policy.Keeps.{Keeps}
use snk_fork_dolphin.Manager.{
  Manager, get_controller, controler_ready, update_controller, delete_controller, mutated, Result,
  deployed, replaced, with_errors, revoke_legacy_lease, renew_legacy_lease, destroy, check_loop,
}

module _ (X : Externals) (D : Store) where
  -- Every controller is found under its own key.
  pub record KeysMatch (m : Manager X D) : Type 0 where
    pub own_key :
        (key : Text) (c : ReplicaCtrl X) → get_controller X D key m ≡ some (some c) → c.key ≡ key

  pub get_controller-mutated :
      (k j : Text) (c : ReplicaCtrl X) (m : Manager X D)
      → get_controller X D j (mutated X D k c m) ≡ (elim m.controllers [
        | none ↦ none
        | some t ↦ if text_eq k j then some (some c) else get_controller X D j m
      ])
  unfolding get_controller mutated
  get_controller-mutated k j c m = elim (Option-cases m.controllers) [
    | inl nil ↦ ground arith
    | inr (t, made) ↦ ground (arith, lookup-insert k j (some c) t)
  ]

  mutated-KeysMatch :
      (k : Text) (c : ReplicaCtrl X) (m : Manager X D)
      → c.key ≡ k
      → KeysMatch m
      → KeysMatch (mutated X D k c m)
  mutated-KeysMatch k c m same own = record {
    own_key = λ j c' found.
        ground (arith, get_controller-mutated k j c m, own.own_key j c', text_eq_iff k j);
  }

  pub delete_controller-KeysMatch :
      (k : Text) (m : Manager X D) → KeysMatch m → KeysMatch (delete_controller X D k m)
  unfolding delete_controller get_controller
  delete_controller-KeysMatch k m own = record {
    own_key = λ j c found. elim (Option-cases m.controllers) [
      | inl nil ↦ ground arith
      | inr (t, made) ↦ ground (arith, lookup-delete k j t, own.own_key j c)
    ];
  }

  -- The manager that a call leaves, if it leaves one.
  abbrev pub LeftBy : Result X D → Type 0
  LeftBy none = Unit
  LeftBy (some panicked) = Unit
  LeftBy (some (done r)) = KeysMatch r.0

  pub deployed-KeysMatch :
      (key version : Text) (m : Manager X D) (r : Run X D)
      → KeysMatch m
      → Keeps X D key version r
      → LeftBy (deployed X D key m r)
  unfolding deployed get_controller
  deployed-KeysMatch key version m none own k = tt
  deployed-KeysMatch key version m (some panicked) own k = tt
  deployed-KeysMatch key version m (some (done (c, hc, errors))) own k =
      mutated-KeysMatch key c (record m { hc_manager = hc }) k.kept.0
        (record { own_key = own.own_key })

  update_controller_nil :
      (key : Text) (c : ReplicaCtrl X) (m : Manager X D)
      → m.controllers ≡ none
      → update_controller X D key c m ≡ panicked
  unfolding update_controller
  update_controller_nil key c m nil = ground arith

  update_controller_made :
      (key : Text) (c : ReplicaCtrl X) (m : Manager X D) {t : Table (Option (ReplicaCtrl X))}
      → m.controllers ≡ some t
      → update_controller X D key c m ≡ done (mutated X D key c m)
  unfolding update_controller mutated
  update_controller_made key c m made = ground arith

  pub replaced-KeysMatch :
      (key : Text) (c : ReplicaCtrl X) (r : Result X D)
      → c.key ≡ key
      → LeftBy r
      → LeftBy (replaced X D key c r)
  unfolding replaced with_errors
  replaced-KeysMatch key c none same own = tt
  replaced-KeysMatch key c (some panicked) same own = tt
  replaced-KeysMatch key c (some (done (m, errors))) same own = elim (Option-cases m.controllers) [
    | inl nil ↦ rw (update_controller_nil key c m nil) tt
    | inr (t, made) ↦ rw (update_controller_made key c m made) (mutated-KeysMatch key c m same own)
  ]

  pub ready_found :
      (key : Text) (m : Manager X D) {c : ReplicaCtrl X}
      → (controler_ready X D key m).0 ≡ some c
      → get_controller X D key m ≡ some (some c)
  unfolding controler_ready
  ready_found key m e = ground arith

  pub revoke-KeysMatch :
      (key : Text) (m : Manager X D) → KeysMatch m → KeysMatch (revoke_legacy_lease X D key m).0
  unfolding revoke_legacy_lease revoke_lease
  revoke-KeysMatch key m own = elim (Option-cases (controler_ready X D key m).0) [
    | inl unknown ↦ rw (revoke_legacy_lease, unknown) own
    | inr (c, found) ↦
        let same : (revoke_lease X c).key ≡ key =
          ground (arith, own.own_key key c (ready_found key m found)) in
        rw (revoke_legacy_lease, found) (mutated-KeysMatch key (revoke_lease X c) m same own)
  ]

  pub renew-KeysMatch :
      (key : Text) (m : Manager X D) → KeysMatch m → KeysMatch (renew_legacy_lease X D key m).0
  unfolding renew_legacy_lease renew_lease
  renew-KeysMatch key m own = elim (Option-cases (controler_ready X D key m).0) [
    | inl unknown ↦ rw (renew_legacy_lease, unknown) own
    | inr (c, found) ↦
        let same : (renew_lease X c).key ≡ key =
          ground (arith, own.own_key key c (ready_found key m found)) in
        rw (renew_legacy_lease, found) (mutated-KeysMatch key (renew_lease X c) m same own)
  ]

  -- A change of the host configurations only.
  hosts-KeysMatch :
      (hc : HcManager D) (m : Manager X D) → KeysMatch m → KeysMatch (record m { hc_manager = hc })
  unfolding get_controller
  hosts-KeysMatch hc m own = record { own_key = own.own_key }

  pub destroy-KeysMatch :
      (key : Text) (m : Manager X D) → KeysMatch m → KeysMatch (destroy X D key m).0
  unfolding destroy
  destroy-KeysMatch key m own = elim (Option-cases (controler_ready X D key m).0) [
    | inl unknown ↦ rw (destroy, unknown) own
    | inr (c, found) ↦ rw (destroy, found) (hosts-KeysMatch _ m own)
  ]

  pub check_loop-KeysMatch :
      (running : Text → Table Instance) (keys : List Text) (m : Manager X D)
      → KeysMatch m
      → KeysMatch (check_loop X D running keys m).0
  unfolding check_loop
  check_loop-KeysMatch running [] m own = own
  check_loop-KeysMatch running (k ∷ ks) m own = elim (Option-cases (get_controller X D k m)) [
    | inl absent ↦ rw absent (check_loop-KeysMatch running ks m own)
    | inr (none, nil) ↦ rw nil (check_loop-KeysMatch running ks m own)
    | inr (some c, found) ↦ rw found (check_loop-KeysMatch running ks _ (hosts-KeysMatch _ m own))
  ]

  pub new_replica_ctrl-key :
      (dc : DeployConfig X) (lease : ℤ) {c : ReplicaCtrl X}
      → (new_replica_ctrl X dc lease).0 ≡ some c
      → validate X dc ≡ (dc, [])
      → c.key ≡ key_of X dc
  unfolding new_replica_ctrl
  new_replica_ctrl-key dc lease e same = ground arith
