-- ===== src/Service/Load/Unreached.antt =====
-- What `StartProbe` of controllers/java/service/service.go finds in the managers that there are.
use snk_fork_dolphin.Base.{
  ◌≡◌, ◌∙◌, refl, sym, ap, arith, Bool, true, false, not, ◌&&◌, ◌||◌, List, [], ◌∷◌, none, some,
  inl, inr, if◌then◌else◌, is_empty, Option-cases, List-cases,
}
use snk_fork_dolphin.Base.Table.{Table, lookup, insert, lookup-insert}
use snk_fork_dolphin.Base.Text.{Text, text_eq, text_eq_iff}
use snk_fork_dolphin.Instances.{InsManager}
use snk_fork_dolphin.Router.Node.{ServiceNode}
use snk_fork_dolphin.Service.Load.{load_names, load, service_of}
use snk_fork_dolphin.Service.Probe.{
  Floats, ProbeInterface, Signal, Esb, JavaService, ProbeManager, new_manager, not_exist, no_esb,
  get_esbs, start_probe,
}
use snk_fork_dolphin.Types.Stage.{Stage}
use snk_fork_dolphin.Zk.Events.{mem_text}
use snk_fork_dolphin.Zk.Sync.{
  ZkManager, all_last, first_twice, instances_at, get_instance_list, list_deployment,
}

-- ZooKeeper has an instance of the deployment.
abbrev pub has_instance : Text → ZkManager → Bool
has_instance v zk = not (is_empty (instances_at v zk))

-- One of the calls of `load` found an instance of the deployment.
abbrev pub ever_loaded : Text → List (ZkManager × InsManager) → Bool
ever_loaded v [] = false
ever_loaded v ((zk, infor) ∷ ws) = has_instance v zk || ever_loaded v ws

abbrev known {κ} : {V : Type κ} → Text → Table V → Bool
known v t = elim (lookup v t) [ none ↦ false | some x ↦ true ]

is_empty-all_last : (ss : List ServiceNode) → is_empty (all_last ss) ≡ is_empty ss
unfolding all_last
is_empty-all_last [] = refl
is_empty-all_last (s ∷ []) = refl
is_empty-all_last (s ∷ t ∷ ss) = elim (List-cases (all_last (t ∷ ss))) [
  | inl none_left ↦ absurd (filled (t ∷ ss) none_left (is_empty-all_last (t ∷ ss)))
  | inr (u, us, some_left) ↦ rw some_left (unfold first_twice in refl)
]
  where
    filled : (xs : List ServiceNode) → all_last xs ≡ [] → is_empty (all_last xs) ≡ false → ⊥
    filled xs e f = ground (arith, e, f)

-- A deployment with an instance is listed.
listed : (v : Text) (t : Table (List ServiceNode)) → known v t ≡ mem_text v (list_deployment t)
unfolding lookup list_deployment
listed v [] = refl
listed v ((k, ss) ∷ t) = ground (arith, listed v t)

has_instance-list :
    (v : Text) (zk : ZkManager) → has_instance v zk ≡ not (is_empty (get_instance_list v zk))
unfolding get_instance_list
has_instance-list v zk = ap not (sym (is_empty-all_last (instances_at v zk)))

module _ (fl : Floats) where
  known-insert :
      (n v : Text) (x : JavaService fl) (t : Table (JavaService fl))
      → known v (insert n x t) ≡ (text_eq n v || known v t)
  known-insert n v x t = ground (arith, lookup-insert n v x t)

  known-load_names :
      (v : Text) (stage : Stage) (names : List Text) (zk : ZkManager) (infor : InsManager)
      (t : Table (JavaService fl))
      → known v (load_names fl stage names zk infor t)
        ≡ (known v t || (mem_text v names && has_instance v zk))
  unfolding load_names
  known-load_names v stage [] zk infor t = ground arith
  known-load_names v stage (n ∷ names) zk infor t = elim (List-cases (get_instance_list n zk)) [
    | inl none_there ↦ rw none_there (
        known-load_names v stage names zk infor t
        ∙ ground (arith, text_eq_iff n v, has_instance-list n zk, none_there))
    | inr (s, ss, there) ↦ rw there (
        known-load_names v stage names zk infor (insert n (service_of fl stage n s zk infor) t)
        ∙ ground (
          arith,
          text_eq_iff n v,
          has_instance-list n zk,
          there,
          known-insert n v (service_of fl stage n s zk infor) t,
        ))
  ]

  known-load :
      (v : Text) (zk : ZkManager) (infor : InsManager) (m : ProbeManager fl)
      → known v (load fl zk infor m).services ≡ (known v m.services || has_instance v zk)
  unfolding load instances_at
  known-load v zk infor m =
      known-load_names v m.stage (list_deployment zk.zk_ins) zk infor m.services
      ∙ ground (arith, listed v zk.zk_ins)

  -- Calls of `load`, one after the other, with what the others know by then.
  abbrev pub loads : List (ZkManager × InsManager) → ProbeManager fl → ProbeManager fl
  loads [] m = m
  loads ((zk, infor) ∷ ws) m = loads ws (load fl zk infor m)

  known-loads :
      (v : Text) (ws : List (ZkManager × InsManager)) (m : ProbeManager fl)
      → known v (loads ws m).services ≡ (known v m.services || ever_loaded v ws)
  known-loads v [] m = ground arith
  known-loads v ((zk, infor) ∷ ws) m =
      known-loads v ws (load fl zk infor m) ∙ ground (arith, known-load v zk infor m)

  esbs-loads :
      (ws : List (ZkManager × InsManager)) (m : ProbeManager fl) → (loads ws m).esbs ≡ m.esbs
  unfolding load
  esbs-loads [] m = refl
  esbs-loads ((zk, infor) ∷ ws) m = esbs-loads ws (load fl zk infor m)

  no_esbs : (ver : Text) (m : ProbeManager fl) → m.esbs ≡ [] → get_esbs fl ver m ≡ []
  unfolding get_esbs lookup
  no_esbs ver m e = ground (arith, e)

  start_probe-stops :
      (name : Text) (ifs : List ProbeInterface) (es : List (Signal (Esb fl))) (m : ProbeManager fl)
      → m.esbs ≡ []
      → start_probe fl name ifs es m ≡ inl (if known name m.services then no_esb else not_exist)
  unfolding start_probe
  start_probe-stops name ifs es m e = elim (Option-cases (lookup name m.services)) [
    | inl unknown ↦ ground (arith, unknown)
    | inr (s, there) ↦ ground (arith, there, no_esbs s.api_version m e)
  ]

  -- In a manager that `NewManager` has made, after any calls of `load`, `StartProbe` never comes to
  -- its loop: it answers that there is no ESB for a deployment of which ZooKeeper had an instance
  -- at one of the calls, and that there is no such deployment for every other.
  pub start_probe-unreached :
      (stage : Stage) (ws : List (ZkManager × InsManager)) (name : Text) (ifs : List ProbeInterface)
      (es : List (Signal (Esb fl)))
      → start_probe fl name ifs es (loads ws (new_manager fl stage))
        ≡ inl (if ever_loaded name ws then no_esb else not_exist)
  unfolding new_manager lookup
  start_probe-unreached stage ws name ifs es =
      start_probe-stops name ifs es (loads ws (new_manager fl stage))
        (esbs-loads ws (new_manager fl stage))
      ∙ ground (arith, known-loads name ws (new_manager fl stage))
