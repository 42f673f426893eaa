-- ===== src/Types/Deploy.antt =====
-- types/deploy.go: deploy keys, deploy configurations and their validation, host deploy
-- specifications and update policies.
pub mod Key
pub mod Selector
pub mod Validate
use snk_fork_dolphin.Base.{
  ℕ, zero, suc, ◌+◌, ◌*◌, ◌++◌, Bool, true, false, List, [], ◌∷◌, Option, none, some, if◌then◌else◌,
  ◌==◌, length, drop, take, is_empty,
}
use snk_fork_dolphin.Base.Int.{ℤ, pos, ltb_ℤ}
use snk_fork_dolphin.Base.Text.{Text, codes, index}
use snk_fork_dolphin.Base.Table.{Table}
use snk_fork_dolphin.Types.Externals.{Externals}
use snk_fork_dolphin.Types.Stage.{Stage}
use snk_fork_dolphin.Types.Resource.{DeployResource}

-- The form of `DeployConfig.Key` and of `Instance.DeployKey`: `fmt.Sprintf("%v/%v", t, n)`.
unfoldable pub deploy_key : Text → Text → Text
deploy_key t n = t ++ (b'/' ∷ n)

-- `ParseDeployKey`
unfoldable pub parse_deploy_key : Text → Option (Text × Text)
parse_deploy_key key = elim (index b'/' key) [
  | none ↦ none
  | some idx ↦ if (idx + 1) == length key then none else some (take idx key, drop (idx + 1) key)
]

-- `DeploySpec`: how many instances of each version; `none` is the nil map.
pub record DeploySpec : Type 0 where
  pub info : Option (Table ℤ)

pub data RestartType : Type 0 where
  one_time always until : RestartType
  other_restart : Text → RestartType

pub record RestartPolicy : Type 0 where
  pub type : RestartType
  -- seconds since 1970; 0 stands for the zero time
  pub until_time : ℤ

pub data ServiceType : Type 0 where
  service_unknown service_service service_daemon service_script : ServiceType
  other_service : Text → ServiceType

-- The test `ServiceType == ""`.
abbrev pub no_service : ServiceType → Bool
no_service (other_service s) = is_empty s
no_service _ = false

pub data UpdatePolicyName : Type 0 where
  rolling_update new_deploy mixed_update : UpdatePolicyName
  other_policy : Text → UpdatePolicyName

-- Durations are int64 nanoseconds.
abbrev pub millisecond : ℕ
millisecond = 1000 * 1000

abbrev pub second : ℕ
second = 1000 * millisecond

module _ (X : Externals) where
  open X use {Float64, zero_float, out_of_unit, LabelSelector}

  pub record UpdateOption : Type 0 where
    pub policy : UpdatePolicyName
    pub step : ℤ
    pub new_percent : Float64
    pub timeout : ℤ

  -- `GetDefaultUpdateOption`; `none` is the nil pointer.
  unfoldable pub get_default_update_option : ServiceType → Option UpdateOption
  get_default_update_option typ =
      let by_policy : UpdatePolicyName → UpdateOption = λ p. record {
        policy = p;
        step = pos (30 * second);
        new_percent = zero_float;
        timeout = pos (5 * 60 * second);
      } in
      elim typ [
        | service_service ↦ some (by_policy new_deploy)
        | service_daemon ↦ some (by_policy rolling_update)
        | service_unknown ↦ some (by_policy rolling_update)
        | service_script ↦ some (by_policy rolling_update)
        | other_service s ↦ none
      ]

  -- `UpdateOption.Validate`; the result says that there is an error.
  unfoldable pub update_option_invalid : Option UpdateOption → Bool
  update_option_invalid none = false
  update_option_invalid (some uo) = elim uo.policy [
    | rolling_update ↦ ltb_ℤ uo.timeout uo.step
    | new_deploy ↦ ltb_ℤ uo.timeout uo.step
    | mixed_update ↦ out_of_unit uo.new_percent
    | other_policy p ↦ true
  ]

  -- The fields of `DeployConfig` that the modelled code reads or writes. `parsed` is the private
  -- field `selector`, `image_version` the text of `Image.Version` where both pointers are set.
  pub record DeployConfig : Type 0 where
    pub type : Text
    pub name : Text
    pub num_of_instance : ℤ
    pub service_type : ServiceType
    pub stage : Stage
    pub image_version : Option Text
    pub selector : Table Text
    pub parsed : Option LabelSelector
    pub resource_required : Option DeployResource
    pub restart_policy : Option RestartPolicy
    pub update_policy : Option UpdateOption

  -- `DeployConfig.Key`
  abbrev pub key_of : DeployConfig → Text
  key_of dc = deploy_key dc.type dc.name
