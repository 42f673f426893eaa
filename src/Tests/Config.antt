-- ===== src/Tests/Config.antt =====
-- Deploy keys, configurations and resources at concrete inputs.
use snk_fork_dolphin.Base.{◌↔◌, ◌≤◌, arith, []}
use snk_fork_dolphin.Base.Int.{pos, ◌≤ℤ◌}
use snk_fork_dolphin.Types.Deploy.{DeployConfig}
use snk_fork_dolphin.Types.Resource.{DeployResource, no_resource, devide}
use snk_fork_dolphin.Types.Resource.Order.{Fits, times, devide_largest}
use snk_fork_dolphin.Tests.{percents, daemon}

abbrev machine : DeployResource
machine = record no_resource { memory = 1000; cpu = 8; disk_space = 500 }

abbrev demand : DeployResource
demand = record no_resource { memory = 300; cpu = 2 }

devide_largest_example :
    (pos 3 ≤ℤ devide machine demand) ↔ ((3 ≤ 300) × Fits (times 3 demand) machine)
devide_largest_example = devide_largest 3 machine demand (omega arith)

-- A configuration with no name.
abbrev nameless : DeployConfig percents
nameless = record daemon { name = [] }
