-- ===== src/Types/Resource.antt =====
-- types/resource.go: the resources of a host or an instance, with the arithmetic of uint64.
pub mod Order
use snk_fork_dolphin.Base.{ℕ, ◌+◌, ◌-◌, ◌/◌, ◌%◌, ◌^◌, Bool, if◌then◌else◌, ltb, ◌==◌}
use snk_fork_dolphin.Base.Int.{ℤ, pos, negsuc, sub_ℕ}

abbrev pub u64 : ℕ → ℕ
u64 n = n % 18446744073709551616

-- `int64(n)` of a uint64.
abbrev pub to_int64 : ℕ → ℤ
to_int64 n = if ltb n 9223372036854775808 then pos n else sub_ℕ n 18446744073709551616

pub record DeployResource : Type 0 where
  pub memory : ℕ
  pub cpu : ℕ
  pub network_in : ℕ
  pub network_out : ℕ
  pub disk_space : ℕ
  pub max_allowed_memory : ℕ
  pub max_allowed_cpu : ℕ
  pub max_allowd_threads : ℤ

abbrev pub no_resource : DeployResource
no_resource = record {
  memory = 0;
  cpu = 0;
  network_in = 0;
  network_out = 0;
  disk_space = 0;
  max_allowed_memory = 0;
  max_allowed_cpu = 0;
  max_allowd_threads = pos 0;
}

-- `DeployResource.Add`
unfoldable pub add : DeployResource → DeployResource → DeployResource
add dr operand = record dr {
  memory = u64 (dr.memory + operand.memory);
  cpu = u64 (dr.cpu + operand.cpu);
  network_in = u64 (dr.network_in + operand.network_in);
  network_out = u64 (dr.network_out + operand.network_out);
  disk_space = u64 (dr.disk_space + operand.disk_space);
}

-- One of the five tests of `Subtract`.
abbrev pub less : ℕ → ℕ → ℕ
less a b = if ltb b a then a - b else 0

-- `DeployResource.Subtract`
unfoldable pub subtract : DeployResource → DeployResource → DeployResource
subtract dr operand = record dr {
  memory = less dr.memory operand.memory;
  cpu = less dr.cpu operand.cpu;
  network_in = less dr.network_in operand.network_in;
  network_out = less dr.network_out operand.network_out;
  disk_space = less dr.disk_space operand.disk_space;
}

-- One of the five tests of `Devide`: `if d != 0 { t := a / d; if t < min { min = t } }`.
unfoldable pub lower : ℕ → ℕ → ℕ → ℕ
lower min a d = if d == 0 then min else if ltb (a / d) min then a / d else min

-- The variable `min` at the end of `Devide`.
unfoldable pub smallest : DeployResource → DeployResource → ℕ
smallest dr operand =
    let by_memory = lower operand.memory dr.memory operand.memory in
    let by_cpu = lower by_memory dr.cpu operand.cpu in
    let by_disk = lower by_cpu dr.disk_space operand.disk_space in
    let by_in = lower by_disk dr.network_in operand.network_in in
    lower by_in dr.network_out operand.network_out

-- `DeployResource.Devide`
unfoldable pub devide : DeployResource → DeployResource → ℤ
devide dr operand = to_int64 (smallest dr operand)

-- `uint64(n)` of an int.
abbrev pub to_u64 : ℤ → ℕ
to_u64 (pos n) = u64 n
to_u64 (negsuc n) = 18446744073709551615 - n
