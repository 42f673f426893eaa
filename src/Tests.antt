-- ===== src/Tests.antt =====
-- Concrete data: a store that always answers, and a deployment of two versions on two hosts. The
-- modules below apply the theorems to them.
pub mod Hosts
pub mod Replicas
pub mod Config
pub mod Controllers
pub mod Placements
pub mod Rollings
pub mod Paths
pub mod Routes
pub mod Versions
pub mod Services
pub mod Zoos
pub mod Processes
pub mod Machines
use snk_fork_dolphin.Base.{
  ℕ, ◌*◌, ◌/◌, ◌≡◌, refl, arith, Bool, true, List, [], ◌∷◌, Option, none, some, ltb, if◌then◌else◌,
}
use snk_fork_dolphin.Base.Int.{ℤ, pos, negsuc}
use snk_fork_dolphin.Base.Text.{Text, codes, Lacks}
use snk_fork_dolphin.Base.Table.{Table, lookup, insert, delete, lookup-insert, lookup-delete}
use snk_fork_dolphin.HostConfig.{Store, HcManager, key_map}
use snk_fork_dolphin.HostConfig.Mirror.{StoreLaws}
use snk_fork_dolphin.Types.Deploy.{DeploySpec, DeployConfig, service_daemon, deploy_key}
use snk_fork_dolphin.Types.Externals.{Externals}
use snk_fork_dolphin.Types.Stage.{dev}

-- A store that keeps its specifications in a table and never fails.
abbrev pub plain_store : Store
plain_store = record {
  State = Table DeploySpec;
  instance_error = λ p s. [];
  update = λ p c s. (insert p c s, []);
  remove = λ p s. (delete p s, []);
  read = lookup;
}

pub plain_laws : StoreLaws plain_store
plain_laws = record {
  read-update = λ p q c s ok. lookup-insert p q c s;
  read-remove = λ p q s ok. lookup-delete p q s;
}

-- Floats are whole percents, and every text is a selector that all labels match.
abbrev pub percents : Externals
percents = record {
  Float64 = ℕ;
  zero_float = 0;
  scale = λ f n. f * n / 100;
  ceil_share = λ n f. elim n [ pos k ↦ pos (k * f / 100) | negsuc k ↦ pos 0 ];
  out_of_unit = λ f. ltb 100 f;
  LabelSelector = Text;
  parse_labels = λ t. some t;
  matches = λ s t. true;
}

abbrev pub host_a : Text
host_a = codes "a"

abbrev pub host_b : Text
host_b = codes "b"

abbrev pub ver_1 : Text
ver_1 = codes "1"

abbrev pub ver_2 : Text
ver_2 = codes "2"

abbrev pub key : Text
key = codes "java/crm"

abbrev pub spec : Table ℤ → DeploySpec
spec info = record { info = some info }

-- One instance of each version on the one host, and two of the old version on the other.
abbrev pub two_hosts : Table DeploySpec
two_hosts =
    (host_a, spec ((ver_1, pos 1) ∷ (ver_2, pos 1) ∷ []))
    ∷ (host_b, spec ((ver_1, pos 2) ∷ []))
    ∷ []

abbrev pub empty_manager : HcManager plain_store
empty_manager = record { stage = dev; cfgs = []; store = [] }

abbrev pub two_manager : HcManager plain_store
two_manager = record { stage = dev; cfgs = (key, two_hosts) ∷ []; store = [] }

pub host_a-Lacks : Lacks b'/' host_a
host_a-Lacks = (λ e. cc, tt)

pub host_b-Lacks : Lacks b'/' host_b
host_b-Lacks = (λ e. cc, tt)

-- A daemon of two instances, as it is asked for.
abbrev pub daemon : DeployConfig percents
daemon = record {
  type = codes "java";
  name = codes "crm";
  num_of_instance = pos 2;
  service_type = service_daemon;
  stage = dev;
  image_version = some ver_2;
  selector = [];
  parsed = none;
  resource_required = none;
  restart_policy = none;
  update_policy = none;
}
