-- ===== src/Tests/Machines.antt =====
-- A host of types/hostinfo at concrete inputs.
use snk_fork_dolphin.Base.{Bool, Option, ◌≡◌, refl, arith, [], ◌∷◌, some, true}
use snk_fork_dolphin.Base.Table.{Table}
use snk_fork_dolphin.Base.Outcome.{done}
use snk_fork_dolphin.Base.Text.{Text, codes, text_eq}
use snk_fork_dolphin.Hostinfo.{get_host_ip_config}
use snk_fork_dolphin.Hostinfo.Addresses.{only, matched, get_host_ip_config-only}
use snk_fork_dolphin.Machine.{Machine, over_write_stage, get_env}
use snk_fork_dolphin.Machine.StageLine.{get_env-over_write_stage}
use snk_fork_dolphin.Types.Stage.{qa}

abbrev id_line : Text
id_line = codes "hostID=1234"

abbrev machine : Machine
machine = record { content = some id_line; writable = true; env = [] }

get_env-over_write_stage_example :
    ((over_write_stage qa machine).1 ≡ [])
    × (get_env (over_write_stage qa machine).0 ≡ ((over_write_stage qa machine).0, qa, []))
get_env-over_write_stage_example =
    get_env-over_write_stage machine id_line qa refl refl (omega arith) (omega arith)

abbrev two_ips : Table Text
two_ips = (codes "lo", codes "127.0.0.1") ∷ (codes "eth0", codes "10.0.0.5") ∷ []

-- Expressions that match only themselves.
abbrev plain_regexps : Text → Option (Text → Bool)
plain_regexps r = some (text_eq r)

get_host_ip_config-only_example :
    get_host_ip_config plain_regexps two_ips (codes "10.0.0.5") []
    ≡ done (only (matched (text_eq (codes "10.0.0.5")) two_ips))
get_host_ip_config-only_example =
    get_host_ip_config-only plain_regexps two_ips (codes "10.0.0.5") [] (refl, (refl, tt)) refl
