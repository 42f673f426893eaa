-- ===== src/Zk/Names/Back.antt =====
-- From the name of a deployment of API 4.0 to its paths and back, in controllers/java/zk/zkpath.go.
use mathlib.Core.List.{append_assoc}
use snk_fork_dolphin.Base.{◌≡◌, ◌∙◌, refl, ap, arith, ◌++◌, [], ◌∷◌}
use snk_fork_dolphin.Base.Path.{split, cons_head, split-Lacks, split-append}
use snk_fork_dolphin.Base.Text.{Text, codes, text_eq, Lacks}
use snk_fork_dolphin.Router.{api_v4}
use snk_fork_dolphin.Zk.{SimplePathInfo, get}
use snk_fork_dolphin.Zk.Names.{
  get_service_name, route_path, instance_path, get_route_path, get_instance_path, deploy_name_of,
  get_deploy_name,
}

module _ (sp : SimplePathInfo) (project bin : Text) (pc : Lacks b':' project) (bc : Lacks b':' bin)
    (ps : Lacks b'/' project) (bs : Lacks b'/' bin) (newer : get project sp.project_map ≡ []) where
  split-name : split b':' (project ++ b':' ∷ bin) ≡ project ∷ bin ∷ []
  split-name = rw (split-append b':' project bin pc, split-Lacks b':' bin bc) refl

  service_name : get_service_name sp (project ++ b':' ∷ bin) ≡ (api_v4, project ++ b'/' ∷ bin, [])
  unfolding get_service_name text_eq
  service_name = ground (arith, split-name, newer)

  -- A path below the project and the binary leads back to the name.
  below-name :
      (t : Text)
      → get_deploy_name sp (codes "/biz/" ++ ((project ++ b'/' ∷ bin) ++ b'/' ∷ t))
        ≡ (project ++ b':' ∷ bin, [])
  unfolding get_deploy_name split cons_head deploy_name_of text_eq
  below-name t =
      rw
        (
          append_assoc project (b'/' ∷ bin) (b'/' ∷ t),
          split-append b'/' project (bin ++ b'/' ∷ t) ps,
          split-append b'/' bin t bs,
        )
        refl

  abbrev service : Text
  service = project ++ b'/' ∷ bin

  get_route_path-newer :
      get_route_path sp (project ++ b':' ∷ bin)
      ≡ (codes "/biz/" ++ (service ++ codes "/policy/default/route"), [])
  unfolding get_route_path route_path text_eq
  get_route_path-newer = rw service_name refl

  get_instance_path-newer :
      get_instance_path sp (project ++ b':' ∷ bin)
      ≡ (codes "/biz/" ++ (service ++ codes "/instance/"), [])
  unfolding get_instance_path instance_path text_eq
  get_instance_path-newer = rw service_name refl

  -- The path of the routes of a deployment of API 4.0, and that of any of its instances, lead back
  -- to its name, given that neither of its parts has a colon or a slash and its project has no
  -- service of API 2.0.
  pub get_deploy_name-paths :
      (node : Text)
      → let name = project ++ b':' ∷ bin in
        ((get_route_path sp name).1 ≡ [])
        × (get_deploy_name sp (get_route_path sp name).0 ≡ (name, []))
        × ((get_instance_path sp name).1 ≡ [])
        × (get_deploy_name sp ((get_instance_path sp name).0 ++ node) ≡ (name, []))
  get_deploy_name-paths node = (
    ap (λ r. r.1) get_route_path-newer,
    ap (λ r. get_deploy_name sp r.0) get_route_path-newer
        ∙ below-name (codes "policy/default/route"),
    ap (λ r. r.1) get_instance_path-newer,
    ap (λ r. get_deploy_name sp (r.0 ++ node)) get_instance_path-newer
        ∙ ap (λ t. get_deploy_name sp (codes "/biz/" ++ t))
            (append_assoc service (codes "/instance/") node)
        ∙ below-name (codes "instance/" ++ node),
  )
