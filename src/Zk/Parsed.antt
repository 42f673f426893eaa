-- ===== src/Zk/Parsed.antt =====
-- The paths of API 4.0 in controllers/java/zk, translated to etcd.
use snk_fork_dolphin.Base.{ℕ, ◌≡◌, ◌≢◌, refl, ◌∙◌, arith, false, [], ◌∷◌, ◌++◌, List}
use snk_fork_dolphin.Base.Text.{
  Text, codes, Lacks, text_eq, has_prefix, trim_prefix-append, has_prefix-append,
}
use snk_fork_dolphin.Base.Path.{
  split, cons_head, join, reversed_onto, clean, path_join, IsPlain, ArePlain, split-join,
  resolve-gap, without_empty-plain, without_empty-cons, path_join_lem,
}
use snk_fork_dolphin.Zk.{
  ZkTyp, untyped, zk_config, zk_route, zk_instance, rel_dir, parts_v4, etcd_path_v4,
  parse_zk_path_v4, parse_typ_v4,
}

Lacks-append : (b : ℕ) (p s : Text) → Lacks b p → Lacks b s → Lacks b (p ++ s)
Lacks-append b [] s l l' = l'
Lacks-append b (c ∷ p) s l l' = (l.0, Lacks-append b p s l.1 l')

-- The name of a service of API 4.0 stands for itself in a path.
pub text_eq-append : (s t : Text) (c : ℕ) → text_eq (s ++ c ∷ t) [] ≡ false
unfolding text_eq
text_eq-append [] t c = refl
text_eq-append (d ∷ s) t c = refl

service-IsPlain :
    (biz app : Text) → IsPlain biz → IsPlain app → IsPlain (join b'.' (biz ∷ app ∷ []))
unfolding join text_eq
service-IsPlain [] app (e, _, _, _) h' = cc
service-IsPlain (c ∷ biz) [] h (e, _, _, _) = cc
service-IsPlain (c ∷ []) (d ∷ app) h h' = ground arith
service-IsPlain (c ∷ c' ∷ biz) (d ∷ app) h h' =
    ground (arith, text_eq-append biz (d ∷ app) b'.', Lacks-append b'/' biz (b'.' ∷ d ∷ app))

unfoldable pub dir : ZkTyp → List Text
dir untyped = []
dir zk_config = codes "java" ∷ codes "zk" ∷ codes "config" ∷ []
dir zk_route = codes "java" ∷ codes "zk" ∷ codes "route" ∷ []
dir zk_instance = codes "java" ∷ codes "zk" ∷ codes "instances" ∷ []

split-rel_dir :
    (typ : ZkTyp) (s : Text)
    → typ ≢ untyped
    → split b'/' (rel_dir typ ++ b'/' ∷ s) ≡ dir typ ++ [] ∷ split b'/' s
unfolding split cons_head rel_dir dir
split-rel_dir untyped s e = ground arith
split-rel_dir zk_config s e = refl
split-rel_dir zk_route s e = refl
split-rel_dir zk_instance s e = refl

pub dir-ArePlain : (typ : ZkTyp) → ArePlain (dir typ)
unfolding dir text_eq
dir-ArePlain untyped = tt
dir-ArePlain zk_config = ground arith
dir-ArePlain zk_route = ground arith
dir-ArePlain zk_instance = ground arith

pub joined-rel_dir :
    (typ : ZkTyp) (q : Text) (qs : List Text)
    → typ ≢ untyped
    → join b'/' (dir typ ++ q ∷ qs) ≡ rel_dir typ ++ join b'/' (q ∷ qs)
unfolding dir join rel_dir
joined-rel_dir untyped q qs known = ground arith
joined-rel_dir zk_config q qs known = refl
joined-rel_dir zk_route q qs known = refl
joined-rel_dir zk_instance q qs known = refl

-- A type's directory has a character, and no slash before it.
rel_dir-HasHead :
    (typ : ZkTyp) (s : Text)
    → typ ≢ untyped
    → (has_prefix (rel_dir typ ++ s) (codes "/") ≡ false) × (text_eq (rel_dir typ ++ s) [] ≡ false)
unfolding rel_dir has_prefix text_eq
rel_dir-HasHead untyped s known = ground arith
rel_dir-HasHead zk_config s known = (refl, refl)
rel_dir-HasHead zk_route s known = (refl, refl)
rel_dir-HasHead zk_instance s known = (refl, refl)

clean-rel_dir :
    (typ : ZkTyp) (q : Text) (qs : List Text)
    → ArePlain (q ∷ qs)
    → typ ≢ untyped
    → clean (join b'/' (rel_dir typ ∷ q ∷ qs)) ≡ rel_dir typ ++ join b'/' (q ∷ qs)
unfolding clean join reversed_onto
clean-rel_dir typ q qs plain known =
    rw
      (
        (rel_dir-HasHead typ (b'/' ∷ join b'/' (q ∷ qs)) known).0,
        split-rel_dir typ (join b'/' (q ∷ qs)) known,
        split-join q qs plain,
        resolve-gap false [] (dir typ) (q ∷ qs) (dir-ArePlain typ) plain,
        joined-rel_dir typ q qs known,
        (rel_dir-HasHead typ (join b'/' (q ∷ qs)) known).1,
      )
      refl

rel_dir-named : (typ : ZkTyp) → typ ≢ untyped → text_eq (rel_dir typ) [] ≡ false
unfolding rel_dir text_eq
rel_dir-named untyped known = ground arith
rel_dir-named zk_config known = refl
rel_dir-named zk_route known = refl
rel_dir-named zk_instance known = refl

path_join-rel_dir :
    (typ : ZkTyp) (q : Text) (qs : List Text)
    → ArePlain (q ∷ qs)
    → typ ≢ untyped
    → path_join (rel_dir typ ∷ q ∷ qs) ≡ rel_dir typ ++ join b'/' (q ∷ qs)
path_join-rel_dir typ q qs plain known =
    path_join_lem (rel_dir typ ∷ q ∷ qs) (
      without_empty-cons (rel_dir typ) (q ∷ qs) (rel_dir-named typ known)
        (without_empty-plain (q ∷ qs) plain))
    ∙ clean-rel_dir typ q qs plain known

etcd_path_v4-known :
    (typ : ZkTyp) (service : Text) (others : List Text)
    → typ ≢ untyped
    → etcd_path_v4 typ service others
      ≡ (typ, path_join (rel_dir typ ∷ codes "4" ∷ service ∷ others), [])
unfolding etcd_path_v4
etcd_path_v4-known untyped service others known = ground arith
etcd_path_v4-known zk_config service others known = refl
etcd_path_v4-known zk_route service others known = refl
etcd_path_v4-known zk_instance service others known = refl

-- The service and the rest of a path of API 4.0, as the elements of a path in etcd.
abbrev pub elements : Text → Text → List Text → List Text
elements biz app others = codes "4" ∷ join b'.' (biz ∷ app ∷ []) ∷ others

four-IsPlain : IsPlain (codes "4")
unfolding text_eq
four-IsPlain = ground arith

pub elements-ArePlain :
    (biz app : Text) (others : List Text)
    → IsPlain biz
    → IsPlain app
    → ArePlain others
    → ArePlain (elements biz app others)
elements-ArePlain biz app others h h' hs = (four-IsPlain, (service-IsPlain biz app h h', hs))

-- What is parsed out of a path of API 4.0.
pub parse_zk_path_v4_lem :
    (biz app typ_str : Text) (others : List Text)
    → ArePlain (biz ∷ app ∷ typ_str ∷ others)
    → parse_typ_v4 typ_str ≢ untyped
    → parse_zk_path_v4 (codes "/biz/" ++ join b'/' (biz ∷ app ∷ typ_str ∷ others)) ≡ (
      parse_typ_v4 typ_str,
      rel_dir (parse_typ_v4 typ_str) ++ join b'/' (elements biz app others),
      [],
    )
unfolding parse_zk_path_v4 parts_v4
parse_zk_path_v4_lem biz app typ_str others plain known =
    rw
      (
        has_prefix-append (codes "/biz/") (join b'/' (biz ∷ app ∷ typ_str ∷ others)),
        trim_prefix-append (codes "/biz/") (join b'/' (biz ∷ app ∷ typ_str ∷ others)),
        split-join biz (app ∷ typ_str ∷ others) plain,
        etcd_path_v4-known (parse_typ_v4 typ_str) (join b'.' (biz ∷ app ∷ [])) others known,
        path_join-rel_dir (parse_typ_v4 typ_str) (codes "4") (join b'.' (biz ∷ app ∷ []) ∷ others)
            (elements-ArePlain biz app others plain.0 plain.1.0 plain.1.1.1) known,
      )
      refl
