-- ===== src/Types/Deploy/Validate.antt =====
-- `DeployConfig.Validate` of types/deploy.go.
use snk_fork_dolphin.Base.{
  ◌≡◌, ◌≢◌, ◌⊎◌, arith, false, [], ◌∷◌, none, some, if◌then◌else◌, is_empty,
}
use snk_fork_dolphin.Base.Int.{pos, leb_ℤ, eqb_ℤ, ◌≤ℤ◌}
use snk_fork_dolphin.Types.Externals.{Externals}
use snk_fork_dolphin.Types.Fault.{
  Errors, type_empty, name_empty, service_empty, num_too_small, unknown_env,
}
use snk_fork_dolphin.Types.Stage.{unknown_stage}
use snk_fork_dolphin.Types.Deploy.{DeployConfig, RestartPolicy, always, no_service}
use snk_fork_dolphin.Types.Deploy.Selector.{to_selector, to_selector_ok}

abbrev pub always_restart : RestartPolicy
always_restart = record { type = always; until_time = pos 0 }

module _ (X : Externals) where
  open X use {LabelSelector}

  -- The end of `Validate`: the default restart policy.
  unfoldable pub with_restart_policy : DeployConfig X → DeployConfig X
  with_restart_policy dc = elim dc.restart_policy [
    | none ↦ record dc { restart_policy = some always_restart }
    | some p ↦ dc
  ]

  -- The step of `Validate` that parses the selector.
  unfoldable pub with_selector : DeployConfig X → DeployConfig X × Errors
  with_selector dc =
      let parse : DeployConfig X × Errors =
        let (s, errors) = to_selector X dc.selector in
        elim errors [ [] ↦ (record dc { parsed = s }, []) | e ∷ es ↦ (dc, e ∷ es) ] in
      elim dc.parsed [ some s ↦ (dc, []) | none ↦ if is_empty dc.selector then (dc, []) else parse ]

  -- `DeployConfig.Validate` of a pointer that is not nil: the configuration as it is left, and the
  -- error.
  unfoldable pub validate : DeployConfig X → DeployConfig X × Errors
  unfolding with_restart_policy with_selector
  validate dc =
      if is_empty dc.type
      then (dc, type_empty ∷ [])
      else if is_empty dc.name
      then (dc, name_empty ∷ [])
      else if no_service dc.service_type
      then (dc, service_empty ∷ [])
      else if leb_ℤ dc.num_of_instance (pos 0)
      then (dc, num_too_small ∷ [])
      else if eqb_ℤ dc.stage unknown_stage
      then (dc, unknown_env ∷ [])
      else let (dc', errors) = with_selector dc in
        elim errors [ [] ↦ (with_restart_policy dc', []) | e ∷ es ↦ (dc', e ∷ es) ]

  -- What a configuration with no error has.
  pub record IsDeployable (dc : DeployConfig X) : Type 0 where
    pub has_type : dc.type ≢ []
    pub has_name : dc.name ≢ []
    pub has_service : no_service dc.service_type ≡ false
    pub some_instance : pos 1 ≤ℤ dc.num_of_instance
    pub known_stage : dc.stage ≢ unknown_stage
    pub selector_read : (dc.selector ≡ []) ⊎ (dc.parsed ≢ none)
    pub has_restart : dc.restart_policy ≢ none

  with_selector_ok :
      (dc : DeployConfig X)
      → (with_selector dc).1 ≡ []
      → ((with_selector dc).0 ≡ record dc { parsed = (with_selector dc).0.parsed })
        × ((dc.selector ≡ []) ⊎ ((with_selector dc).0.parsed ≢ none))
  unfolding with_selector
  with_selector_ok dc h = ground (arith, to_selector_ok X dc.selector)

  with_selector_error :
      (dc : DeployConfig X) → (with_selector dc).1 ≢ [] → (with_selector dc).0 ≡ dc
  unfolding with_selector
  with_selector_error dc h = ground (arith, to_selector_ok X dc.selector)

  -- What `Validate` accepts has passed its tests: a type, a name, a service type, an instance at
  -- least, a stage that is not the unknown one, a parsed selector unless it has none, and a restart
  -- policy.
  pub validate-IsDeployable :
      (dc : DeployConfig X) → (validate dc).1 ≡ [] → IsDeployable (validate dc).0
  unfolding validate
  validate-IsDeployable dc h = ground (arith, to_selector_ok X dc.selector)

  -- `Validate` leaves a configuration that it refuses as it was.
  validate_error_unchanged : (dc : DeployConfig X) → (validate dc).1 ≢ [] → (validate dc).0 ≡ dc
  unfolding validate
  validate_error_unchanged dc h = ground (arith, with_selector_error dc)

  -- What has been accepted is accepted again, and unchanged.
  pub validate_again : (dc : DeployConfig X) → IsDeployable dc → validate dc ≡ (dc, [])
  unfolding validate
  validate_again dc d = ground arith
