-- ===== src/Zk/RoundTrip.antt =====
-- The paths of API 4.0 in controllers/java/zk, translated to etcd and back.
use mathlib.Core.List.{append_assoc}
use native.Mathlib.Numerals.{add-one}
use snk_fork_dolphin.Base.{
  if◌then◌else◌, some, length, take-length_append, drop-suc-length, length-append, ◌≡◌, ◌≢◌, refl,
  ◌∙◌, ap, arith, Bool, true, false, [], ◌∷◌, ◌++◌, List,
}
use snk_fork_dolphin.Base.Text.{
  Text, codes, Lacks, text_eq, has_prefix, last_index-append, trim_prefix, trim_prefix-append,
}
use snk_fork_dolphin.Base.Path.{
  split, cons_head, join, clean, without_empty, path_join, IsPlain, ArePlain, split-append,
  clean-rooted, split-join, without_empty-cons, path_join_lem,
}
use snk_fork_dolphin.Zk.{
  untyped, rel_dir, parse_zk_path_v4, parse_typ_v4, get_zk_path0, zk_path_of_parts, zk_path_v4,
  cut_cluster,
}
use snk_fork_dolphin.Zk.Parsed.{text_eq-append, elements, elements-ArePlain, parse_zk_path_v4_lem}

filled : (s : Text) → text_eq s [] ≡ false → s ≢ []
unfolding text_eq
filled [] e = ground arith
filled (c ∷ s) e = ground arith

cut_cluster_lem :
    (biz app : Text) → Lacks b'.' app → app ≢ [] → cut_cluster (biz ++ b'.' ∷ app) ≡ some (biz, app)
unfolding cut_cluster
cut_cluster_lem biz app no_dot ne = ground (
  arith,
  last_index-append b'.' biz app no_dot,
  take-length_append biz (b'.' ∷ app),
  drop-suc-length biz b'.' app,
  length-append biz (b'.' ∷ app),
  add-one (length biz),
)

pub join-filled :
    (q : Text) (qs : List Text) → text_eq q [] ≡ false → text_eq (join b'/' (q ∷ qs)) [] ≡ false
unfolding join
join-filled q [] e = e
join-filled q (r ∷ rs) e = text_eq-append q (join b'/' (r ∷ rs)) b'/'

module _ (biz app seg : Text) where
  dirs : List Text
  dirs = codes "biz" ∷ biz ∷ app ∷ seg ∷ []

  split-dirs :
      (t : Text)
      → ArePlain (biz ∷ app ∷ seg ∷ [])
      → split b'/' (codes "/biz/" ++ (biz ++ b'/' ∷ (app ++ b'/' ∷ (seg ++ b'/' ∷ t))))
        ≡ [] ∷ codes "biz" ∷ biz ∷ app ∷ seg ∷ split b'/' t
  unfolding split cons_head
  split-dirs t plain =
      rw
        (
          split-append b'/' biz (app ++ b'/' ∷ (seg ++ b'/' ∷ t)) plain.0.3,
          split-append b'/' app (seg ++ b'/' ∷ t) plain.1.0.3,
          split-append b'/' seg t plain.1.1.0.3,
        )
        refl

  dirs-ArePlain : ArePlain (biz ∷ app ∷ seg ∷ []) → ArePlain dirs
  unfolding dirs text_eq
  dirs-ArePlain plain = (ground arith, plain)

  -- The text that is cleaned, with something after the directory or with nothing.
  joined_text : Text → Text
  joined_text t = codes "/biz/" ++ (biz ++ b'/' ∷ (app ++ b'/' ∷ (seg ++ b'/' ∷ t)))

  clean-joined_text :
      (t : Text) (ps : List Text)
      → ArePlain (biz ∷ app ∷ seg ∷ [])
      → ArePlain ps
      → split b'/' t ≡ [] ∷ ps
      → clean (joined_text t) ≡ codes "/biz/" ++ join b'/' (biz ∷ app ∷ seg ∷ ps)
  unfolding joined_text dirs join has_prefix
  clean-joined_text t ps plain plain' cut =
      clean-rooted (joined_text t) dirs ps refl
        (split-dirs t plain ∙ ap (λ r. [] ∷ codes "biz" ∷ biz ∷ app ∷ seg ∷ r) cut)
        (dirs-ArePlain plain) plain'

  -- None of the elements that are joined is empty, but the last may be.
  without_empty-biz :
      (ps qs : List Text)
      → ArePlain (biz ∷ app ∷ seg ∷ [])
      → without_empty ps ≡ qs
      → without_empty (codes "/biz" ∷ biz ∷ app ∷ (seg ++ codes "/") ∷ ps)
        ≡ codes "/biz" ∷ biz ∷ app ∷ (seg ++ codes "/") ∷ qs
  unfolding text_eq
  without_empty-biz ps qs plain e = without_empty-cons (codes "/biz") _ refl (
      without_empty-cons biz _ plain.0.0 (
        without_empty-cons app _ plain.1.0.0
          (without_empty-cons (seg ++ codes "/") _ (text_eq-append seg [] b'/') e)))

  path_join-biz :
      (others : List Text)
      → ArePlain (biz ∷ app ∷ seg ∷ others)
      → path_join (codes "/biz" ∷ biz ∷ app ∷ (seg ++ codes "/") ∷ join b'/' others ∷ [])
        ≡ codes "/biz/" ++ join b'/' (biz ∷ app ∷ seg ∷ others)
  unfolding joined_text join without_empty text_eq split
  path_join-biz [] plain =
      path_join_lem _ (without_empty-biz ([] ∷ []) [] plain refl)
      ∙ clean-joined_text [] [] plain tt refl
  path_join-biz (q ∷ qs) plain =
      let first : ArePlain (biz ∷ app ∷ seg ∷ []) = (plain.0, (plain.1.0, (plain.1.1.0, tt))) in
      let rest = plain.1.1.1 in
      let other = join b'/' (q ∷ qs) in
      path_join_lem _ (
        without_empty-biz (other ∷ []) (other ∷ []) first
          (without_empty-cons other [] (join-filled q qs rest.0.0) refl))
      ∙ ap (λ t. clean (codes "/biz/" ++ (biz ++ b'/' ∷ (app ++ b'/' ∷ t))))
          (append_assoc seg (codes "/") (b'/' ∷ other))
      ∙ clean-joined_text (b'/' ∷ other) (q ∷ qs) first rest (ap (◌∷◌ []) (split-join q qs rest))

-- The name of a kind of path in ZooKeeper, and in etcd.
abbrev pub zk_name : Bool → Text
zk_name route = if route then codes "policy" else codes "config"

abbrev pub etcd_name : Bool → Text
etcd_name route = if route then codes "route" else codes "config"

pub zk_name-IsPlain : (route : Bool) → IsPlain (zk_name route)
unfolding text_eq
zk_name-IsPlain true = ground arith
zk_name-IsPlain false = ground arith

pub etcd_name-IsPlain : (route : Bool) → IsPlain (etcd_name route)
unfolding text_eq
etcd_name-IsPlain true = ground arith
etcd_name-IsPlain false = ground arith

pub zk_name-known : (route : Bool) → parse_typ_v4 (zk_name route) ≢ untyped
unfolding parse_typ_v4 text_eq
zk_name-known true = ground arith
zk_name-known false = ground arith

zk_path_of_parts-v4 :
    (route : Bool) (cluster : Text) (others : List Text)
    → zk_path_of_parts (etcd_name route ∷ codes "4" ∷ cluster ∷ others)
      ≡ zk_path_v4 (etcd_name route) cluster (join b'/' others)
unfolding zk_path_of_parts text_eq
zk_path_of_parts-v4 true cluster others = refl
zk_path_of_parts-v4 false cluster others = refl

zk_path_v4-cut :
    (route : Bool) (cluster other : Text) {biz app : Text}
    → cut_cluster cluster ≡ some (biz, app)
    → zk_path_v4 (etcd_name route) cluster other
      ≡ (path_join (codes "/biz" ∷ biz ∷ app ∷ (zk_name route ++ codes "/") ∷ other ∷ []), [])
unfolding zk_path_v4 text_eq
zk_path_v4-cut true cluster other e = ground arith
zk_path_v4-cut false cluster other e = ground arith

get_zk_path0-elements :
    (route : Bool) (biz app : Text) (others : List Text)
    → ArePlain (biz ∷ app ∷ others)
    → Lacks b'.' app
    → get_zk_path0 (join b'/' (etcd_name route ∷ elements biz app others))
      ≡ (codes "/biz/" ++ join b'/' (biz ∷ app ∷ zk_name route ∷ others), [])
unfolding get_zk_path0 join
get_zk_path0-elements route biz app others plain no_dot =
    let cluster = join b'.' (biz ∷ app ∷ []) in
    let plain' = elements-ArePlain biz app others plain.0 plain.1.0 plain.1.1 in
    let named : ArePlain (biz ∷ app ∷ zk_name route ∷ others) =
      (plain.0, (plain.1.0, (zk_name-IsPlain route, plain.1.1))) in
    ap zk_path_of_parts
      (split-join (etcd_name route) (elements biz app others) (etcd_name-IsPlain route, plain'))
    ∙ zk_path_of_parts-v4 route cluster others
    ∙ zk_path_v4-cut route cluster (join b'/' others)
        (cut_cluster_lem biz app no_dot (filled app plain.1.0.0))
    ∙ ap (λ p. (p, [])) (path_join-biz biz app (zk_name route) others named)

-- The directory of a type, less the part that the types share.
pub trim_prefix-rel_dir :
    (route : Bool) (q : Text) (qs : List Text)
    → trim_prefix (rel_dir (parse_typ_v4 (zk_name route)) ++ join b'/' (q ∷ qs)) (codes "java/zk/")
      ≡ join b'/' (etcd_name route ∷ q ∷ qs)
unfolding rel_dir parse_typ_v4 text_eq join
trim_prefix-rel_dir true q qs =
    trim_prefix-append (codes "java/zk/") (codes "route/" ++ join b'/' (q ∷ qs))
trim_prefix-rel_dir false q qs =
    trim_prefix-append (codes "java/zk/") (codes "config/" ++ join b'/' (q ∷ qs))

-- A path of the routes or of the configuration of an application of API 4.0 is parsed without an
-- error, and what `getZKPath0` makes of the result, less the directory `java/zk/`, is the path
-- again, given that no element is empty, `.`, `..` or has a slash, and the application's name has
-- no dot.
pub get_zk_path0-parse_zk_path_v4 :
    (route : Bool) (biz app : Text) (others : List Text)
    → ArePlain (biz ∷ app ∷ others)
    → Lacks b'.' app
    → let zk_path = codes "/biz/" ++ join b'/' (biz ∷ app ∷ zk_name route ∷ others) in
      let (typ, path, errors) = parse_zk_path_v4 zk_path in
      (errors ≡ []) × (get_zk_path0 (trim_prefix path (codes "java/zk/")) ≡ (zk_path, []))
get_zk_path0-parse_zk_path_v4 route biz app others plain no_dot =
    let named : ArePlain (biz ∷ app ∷ zk_name route ∷ others) =
      (plain.0, (plain.1.0, (zk_name-IsPlain route, plain.1.1))) in
    let parsed = parse_zk_path_v4_lem biz app (zk_name route) others named (zk_name-known route) in
    (
      ap (λ r. r.2) parsed,
      ap (λ r. get_zk_path0 (trim_prefix r.1 (codes "java/zk/"))) parsed
          ∙ ap get_zk_path0
              (trim_prefix-rel_dir route (codes "4") (join b'.' (biz ∷ app ∷ []) ∷ others))
          ∙ get_zk_path0-elements route biz app others plain no_dot,
    )
