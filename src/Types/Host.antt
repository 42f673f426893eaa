-- ===== src/Types/Host.antt =====
-- types/host.go: what the scheduler reads of a host's static information and of its status.
use snk_fork_dolphin.Base.{ℕ, ◌+◌, ◌*◌, ◌/◌, [], ◌∷◌, Option, none, some}
use snk_fork_dolphin.Base.Int.{ℤ, pos}
use snk_fork_dolphin.Base.Text.{Text}
use snk_fork_dolphin.Base.Table.{Table}
use snk_fork_dolphin.Types.Externals.{Externals}
use snk_fork_dolphin.Types.Resource.{DeployResource, u64, to_u64}

pub record DiskStat : Type 0 where
  pub devices : Text
  pub mountpoint : Text
  pub totoal : ℕ
  pub free : ℕ

-- The fields of `HostInfo` that the modelled code reads.
pub record HostInfo : Type 0 where
  pub host_id : Text
  pub labels : Table Text
  pub num_of_cpus : ℤ
  pub memory : ℕ
  pub swap_size : ℕ
  pub disk : Table DiskStat
  pub resource_reserved : DeployResource

abbrev pub cpu_resource : ℕ
cpu_resource = 1024 * 1024 * 1024

abbrev pub gb : ℕ
gb = 1024 * 1024 * 1024 * 8

-- The loop of `GetResource` over the disks.
unfoldable pub disk_total : ℕ → Table DiskStat → ℕ
disk_total space [] = space
disk_total space ((_, v) ∷ disks) = disk_total (u64 (space + v.totoal)) disks

-- `HostInfo.GetResource`
unfoldable pub get_resource : HostInfo → DeployResource
unfolding disk_total
get_resource hi = record {
  memory = u64 (hi.memory + hi.swap_size / 2);
  cpu = u64 (to_u64 hi.num_of_cpus * cpu_resource);
  network_in = gb;
  network_out = gb;
  disk_space = disk_total 0 hi.disk;
  max_allowed_memory = 0;
  max_allowed_cpu = 0;
  max_allowd_threads = pos 0;
}

-- `CPUUnit` of types/resource.go.
abbrev pub cpu_unit : ℕ
cpu_unit = 1000 * 1000 * 1000

module _ (X : Externals) where
  open X use {Float64, scale}

  -- The fields of `HostStatus` that the modelled code reads.
  pub record HostStatus : Type 0 where
    pub cpu_usage : Float64
    pub used_memory : ℕ
    pub numof_processes : ℤ

  -- `HostStatus.ResourceUsed`
  unfoldable pub resource_used : Option HostStatus → Option DeployResource
  resource_used none = none
  resource_used (some hs) = some (record {
    memory = hs.used_memory;
    cpu = scale hs.cpu_usage (u64 (to_u64 hs.numof_processes * cpu_unit));
    network_in = 0;
    network_out = 0;
    disk_space = 0;
    max_allowed_memory = 0;
    max_allowed_cpu = 0;
    max_allowd_threads = pos 0;
  })
