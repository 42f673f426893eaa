-- ===== src/Zk/Stages.antt =====
-- The paths of API 4.0 in controllers/java/zk, with the directory of a stage before them.
use mathlib.Core.List.{append_assoc}
use snk_fork_dolphin.Base.{
  ◌≡◌, ◌≢◌, refl, sym, ap, ◌∙◌, arith, Bool, true, false, [], ◌∷◌, ◌++◌, List,
}
use snk_fork_dolphin.Base.Text.{
  Text, codes, text_eq, has_prefix, index, has_prefix-append, trim_prefix-append,
}
use snk_fork_dolphin.Base.Path.{
  split, cons_head, join, path_join, path_join_lem, clean-rooted, without_empty-cons, without_empty,
  IsPlain, ArePlain, split-append, split-join,
}
use snk_fork_dolphin.EtcdKey.{stage_base_dir, java_zk_dir}
use snk_fork_dolphin.Types.Stage.{Stage, to_string}
use snk_fork_dolphin.Zk.{
  ZkTyp, untyped, zk_config, zk_route, zk_instance, SimplePathInfo, rel_dir, parse_typ_v4,
  get_etcd_path, get_zk_path, get_zk_path0, zk_path_of_parts, strip_env,
}
use snk_fork_dolphin.Zk.Parsed.{
  elements, elements-ArePlain, parse_zk_path_v4_lem, dir, dir-ArePlain, joined-rel_dir,
}
use snk_fork_dolphin.Zk.RoundTrip.{zk_name, etcd_name, zk_name-IsPlain, zk_name-known, join-filled}

ArePlain-append : (ps qs : List Text) → ArePlain ps → ArePlain qs → ArePlain (ps ++ qs)
ArePlain-append [] qs h h' = h'
ArePlain-append (p ∷ ps) qs h h' = (h.0, ArePlain-append ps qs h.1 h')

module _ (env : Stage) (named : IsPlain (to_string env)) where
  stage_dirs-ArePlain : ArePlain (codes "dolphin" ∷ to_string env ∷ [])
  unfolding text_eq
  stage_dirs-ArePlain = (ground arith, (named, tt))

  split-stage_base_dir :
      (t : Text)
      → split b'/' (stage_base_dir env ++ b'/' ∷ t)
        ≡ [] ∷ codes "dolphin" ∷ to_string env ∷ [] ∷ split b'/' t
  unfolding split cons_head stage_base_dir
  split-stage_base_dir t =
      rw
        (
          append_assoc (to_string env) (codes "/") (b'/' ∷ t),
          split-append b'/' (to_string env) (b'/' ∷ t) named.3,
        )
        refl

  path_join-stage :
      (p : Text) (ps : List Text)
      → ArePlain (p ∷ ps)
      → path_join (stage_base_dir env ∷ join b'/' (p ∷ ps) ∷ [])
        ≡ stage_base_dir env ++ join b'/' (p ∷ ps)
  unfolding stage_base_dir join text_eq without_empty has_prefix
  path_join-stage p ps plain =
      let rest = join b'/' (p ∷ ps) in
      path_join_lem (stage_base_dir env ∷ rest ∷ []) (
        without_empty-cons (stage_base_dir env) (rest ∷ []) refl
          (without_empty-cons rest [] (join-filled p ps plain.0.0) refl))
      ∙ clean-rooted (stage_base_dir env ++ b'/' ∷ rest) (codes "dolphin" ∷ to_string env ∷ [])
          (p ∷ ps) refl
          (split-stage_base_dir rest
            ∙ ap (λ r. [] ∷ codes "dolphin" ∷ to_string env ∷ [] ∷ r) (split-join p ps plain))
          stage_dirs-ArePlain plain
      ∙ ap (λ t. codes "/dolphin/" ++ t) (sym (append_assoc (to_string env) (codes "/") rest))

  -- A path with the directory of its type before it, below that of the stage.
  path_join-stage_typ :
      (typ : ZkTyp) (q : Text) (qs : List Text)
      → typ ≢ untyped
      → ArePlain (q ∷ qs)
      → path_join (stage_base_dir env ∷ (rel_dir typ ++ join b'/' (q ∷ qs)) ∷ [])
        ≡ stage_base_dir env ++ (rel_dir typ ++ join b'/' (q ∷ qs))
  unfolding dir
  path_join-stage_typ untyped q qs known plain = ground arith
  path_join-stage_typ zk_config q qs known plain = rw (sym (joined-rel_dir zk_config q qs known)) (
      path_join-stage _ _ (ArePlain-append (dir zk_config) (q ∷ qs) (dir-ArePlain zk_config) plain))
  path_join-stage_typ zk_route q qs known plain =
      rw (sym (joined-rel_dir zk_route q qs known)) (
        path_join-stage _ _ (ArePlain-append (dir zk_route) (q ∷ qs) (dir-ArePlain zk_route) plain))
  path_join-stage_typ zk_instance q qs known plain =
      rw (sym (joined-rel_dir zk_instance q qs known)) (
        path_join-stage _ _
          (ArePlain-append (dir zk_instance) (q ∷ qs) (dir-ArePlain zk_instance) plain))

  -- `GetEtcdPath` puts a path of API 4.0 below the directory of its type and stage, with the
  -- application's name behind that of its project and a dot, given that the type is known and no
  -- element is empty, `.`, `..` or has a slash, nor the name of the stage.
  pub get_etcd_path-places :
      (sp : SimplePathInfo) (biz app typ_str : Text) (others : List Text)
      → ArePlain (biz ∷ app ∷ typ_str ∷ others)
      → parse_typ_v4 typ_str ≢ untyped
      → let typ = parse_typ_v4 typ_str in
        get_etcd_path sp env (codes "/biz/" ++ join b'/' (biz ∷ app ∷ typ_str ∷ others))
        ≡ (typ, stage_base_dir env ++ (rel_dir typ ++ join b'/' (elements biz app others)), [])
  unfolding get_etcd_path
  get_etcd_path-places sp biz app typ_str others plain known =
      rw
        (
          has_prefix-append (codes "/biz/") (join b'/' (biz ∷ app ∷ typ_str ∷ others)),
          parse_zk_path_v4_lem biz app typ_str others plain known,
          path_join-stage_typ (parse_typ_v4 typ_str) (codes "4")
              (join b'.' (biz ∷ app ∷ []) ∷ others) known
              (elements-ArePlain biz app others plain.0 plain.1.0 plain.1.1.1),
        )
        refl

four_no_typ :
    (cluster : Text) (others : List Text) → (zk_path_of_parts (codes "4" ∷ cluster ∷ others)).1 ≢ []
unfolding zk_path_of_parts text_eq
four_no_typ cluster [] = λ e. cc
four_no_typ cluster (o ∷ os) = λ e. cc

strip_env-typ :
    (route : Bool) (cluster : Text) (others : List Text)
    → strip_env (join b'/' (etcd_name route ∷ codes "4" ∷ cluster ∷ others))
      ≡ join b'/' (codes "4" ∷ cluster ∷ others)
unfolding strip_env join index
strip_env-typ true cluster others = ground arith
strip_env-typ false cluster others = ground arith

rel_dir-named_typ :
    (route : Bool) (t : Text)
    → rel_dir (parse_typ_v4 (zk_name route)) ++ t
      ≡ codes "java/zk/" ++ (etcd_name route ++ b'/' ∷ t)
unfolding rel_dir parse_typ_v4 text_eq
rel_dir-named_typ true t = refl
rel_dir-named_typ false t = refl

get_zk_path-below :
    (env : Stage) (t : Text) → get_zk_path env (java_zk_dir env ++ t) ≡ get_zk_path0 (strip_env t)
unfolding get_zk_path
get_zk_path-below env t =
    rw (has_prefix-append (java_zk_dir env) t, trim_prefix-append (java_zk_dir env) t) refl

-- `getZKPath` takes the directory of the type for one of the environment.
get_zk_path-typ :
    (env : Stage) (route : Bool) (cluster : Text) (others : List Text)
    → let p = join b'/' (codes "4" ∷ cluster ∷ others) in
      ArePlain (codes "4" ∷ cluster ∷ others)
      → get_zk_path env (stage_base_dir env ++ (rel_dir (parse_typ_v4 (zk_name route)) ++ p))
        ≡ zk_path_of_parts (codes "4" ∷ cluster ∷ others)
unfolding java_zk_dir get_zk_path0 join
get_zk_path-typ env route cluster others plain =
    let p = join b'/' (codes "4" ∷ cluster ∷ others) in
    ap (λ t. get_zk_path env (stage_base_dir env ++ t)) (rel_dir-named_typ route p)
    ∙ ap (get_zk_path env)
        (sym (append_assoc (stage_base_dir env) (codes "java/zk/") (etcd_name route ++ b'/' ∷ p)))
    ∙ get_zk_path-below env (etcd_name route ++ b'/' ∷ p)
    ∙ ap get_zk_path0 (strip_env-typ route cluster others)
    ∙ ap zk_path_of_parts (split-join (codes "4") (cluster ∷ others) plain)

-- `getZKPath` answers each path in etcd that `GetEtcdPath` gives for the routes or the configuration
-- of an application of API 4.0 with an error, given that no element is empty, `.`, `..` or has a
-- slash, nor the name of the stage.
pub get_zk_path-get_etcd_path :
    (sp : SimplePathInfo) (env : Stage) (route : Bool) (biz app : Text) (others : List Text)
    → IsPlain (to_string env)
    → ArePlain (biz ∷ app ∷ others)
    → let (typ, path, errors) =
        get_etcd_path sp env (codes "/biz/" ++ join b'/' (biz ∷ app ∷ zk_name route ∷ others)) in
      (errors ≡ []) × ((get_zk_path env path).1 ≢ [])
get_zk_path-get_etcd_path sp env route biz app others named plain =
    let plain' : ArePlain (biz ∷ app ∷ zk_name route ∷ others) =
      (plain.0, (plain.1.0, (zk_name-IsPlain route, plain.1.1))) in
    let cluster = join b'.' (biz ∷ app ∷ []) in
    let found =
      get_etcd_path-places env named sp biz app (zk_name route) others plain'
        (zk_name-known route) in
    let back =
      ap (λ r. get_zk_path env r.1) found
      ∙ get_zk_path-typ env route cluster others
          (elements-ArePlain biz app others plain.0 plain.1.0 plain.1.1) in
    (ap (λ r. r.2) found, λ e. four_no_typ cluster others (ap (λ r. r.1) (sym back) ∙ e))
