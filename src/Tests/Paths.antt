-- ===== src/Tests/Paths.antt =====
-- Paths of controllers/java/zk at concrete inputs.
use snk_fork_dolphin.Base.{◌≡◌, ◌≢◌, arith, true, [], ◌∷◌, ◌++◌}
use snk_fork_dolphin.Base.Text.{Text, codes, text_eq, Lacks, trim_prefix}
use snk_fork_dolphin.Base.Path.{join, IsPlain, ArePlain}
use snk_fork_dolphin.EtcdKey.{stage_base_dir}
use snk_fork_dolphin.Types.Stage.{dev, to_string, stage_lookup}
use snk_fork_dolphin.Zk.{
  SimplePathInfo, untyped, parse_typ_v4, parse_zk_path_v4, get_zk_path0, get_etcd_path, get_zk_path,
  rel_dir,
}
use snk_fork_dolphin.Zk.Parsed.{elements}
use snk_fork_dolphin.Zk.RoundTrip.{zk_name, get_zk_path0-parse_zk_path_v4}
use snk_fork_dolphin.Zk.Stages.{get_etcd_path-places, get_zk_path-get_etcd_path}

abbrev no_services : SimplePathInfo
no_services = record { service_map = []; project_map = [] }

abbrev below : Text
below = codes "default"

two_names-ArePlain : ArePlain (codes "crm" ∷ codes "app" ∷ below ∷ [])
unfolding text_eq
two_names-ArePlain = ground arith

three_names-ArePlain : ArePlain (codes "crm" ∷ codes "app" ∷ codes "daemon" ∷ [])
unfolding text_eq
three_names-ArePlain = ground arith

app-Lacks : Lacks b'.' (codes "app")
app-Lacks = ground arith

dev-IsPlain : IsPlain (to_string dev)
unfolding text_eq to_string stage_lookup
dev-IsPlain = ground arith

daemon_typ : parse_typ_v4 (codes "daemon") ≢ untyped
unfolding parse_typ_v4 text_eq
daemon_typ = ground arith

get_zk_path0-parse_zk_path_v4_example :
    let zk_path =
      codes "/biz/" ++ join b'/' (codes "crm" ∷ codes "app" ∷ zk_name true ∷ below ∷ []) in
    let (typ, path, errors) = parse_zk_path_v4 zk_path in
    (errors ≡ []) × (get_zk_path0 (trim_prefix path (codes "java/zk/")) ≡ (zk_path, []))
get_zk_path0-parse_zk_path_v4_example =
    get_zk_path0-parse_zk_path_v4 true (codes "crm") (codes "app") (below ∷ []) two_names-ArePlain
      app-Lacks

get_zk_path-get_etcd_path_example :
    let (typ, path, errors) =
      get_etcd_path no_services dev
        (codes "/biz/" ++ join b'/' (codes "crm" ∷ codes "app" ∷ zk_name true ∷ below ∷ [])) in
    (errors ≡ []) × ((get_zk_path dev path).1 ≢ [])
get_zk_path-get_etcd_path_example =
    get_zk_path-get_etcd_path no_services dev true (codes "crm") (codes "app") (below ∷ [])
      dev-IsPlain two_names-ArePlain

get_etcd_path-places_example :
    let typ = parse_typ_v4 (codes "daemon") in
    get_etcd_path no_services dev
      (codes "/biz/" ++ join b'/' (codes "crm" ∷ codes "app" ∷ codes "daemon" ∷ []))
    ≡ (
      typ,
      stage_base_dir dev ++ (rel_dir typ ++ join b'/' (elements (codes "crm") (codes "app") [])),
      [],
    )
get_etcd_path-places_example =
    get_etcd_path-places dev dev-IsPlain no_services (codes "crm") (codes "app") (codes "daemon") []
      three_names-ArePlain daemon_typ
