-- ===== src/Service/Alerts.antt =====
-- When `checkHostRunningAndZKinstances` and `checkZKVersion` find something to alert of.
use snk_fork_dolphin.Base.{
  ℕ, suc, ◌≡◌, ◌↔◌, refl, ap, ◌++◌, List, [], ◌∷◌, none, some, arith, length, length-append, All,
  ◌∙◌, Bool-cases, inl, inr, false, ◌||◌, if◌then◌else◌, is_empty,
}
use snk_fork_dolphin.Base.Text.{Text, text_eq}
use snk_fork_dolphin.Instances.{InsManager, running_instance}
use snk_fork_dolphin.Router.Node.{ServiceNode}
use snk_fork_dolphin.Service.{
  num_alert, num_alerts, check_host_running_and_zk_instances, other_versions, version_alert,
  get_route_version, java_key, project_of,
}
use snk_fork_dolphin.Types.Instance.{Instance}
use snk_fork_dolphin.Zk.Sync.{
  ZkManager, first_twice, all_last, instances_at, get_instance_list, get_route_config,
  list_deployment,
}

length-first_twice :
    (ss : List ServiceNode) (n : ℕ) → length ss ≡ suc n → length (first_twice ss) ≡ suc (suc n)
unfolding first_twice
length-first_twice [] n h = omega arith
length-first_twice (s ∷ ss) n h = omega arith

length-all_last : (ss : List ServiceNode) → length (all_last ss) ≡ length ss
unfolding all_last
length-all_last [] = refl
length-all_last (s ∷ []) = refl
length-all_last (s ∷ t ∷ ss) = length-first_twice _ _ (length-all_last (t ∷ ss))

All-first_twice :
    (s : ServiceNode) (ss : List ServiceNode)
    → All (λ t. t ≡ s) ss
    → All (λ t. t ≡ s) (first_twice ss)
unfolding first_twice
All-first_twice s [] h = tt
All-first_twice s (t ∷ ss) h = (h.0, h)

-- All the pointers are to the last instance.
All-all_last :
    (ss : List ServiceNode) (s : ServiceNode) → All (λ t. t ≡ s) (all_last (ss ++ s ∷ []))
unfolding all_last
All-all_last [] s = (refl, tt)
All-all_last (t ∷ []) s = All-first_twice s (s ∷ []) (refl, tt)
All-all_last (t ∷ u ∷ ss) s =
    All-first_twice s (all_last (u ∷ ss ++ s ∷ [])) (All-all_last (u ∷ ss) s)

-- As many copies as there are instances.
abbrev pub copies {ℓ κ} : {A : Type ℓ} {B : Type κ} → B → List A → List B
copies b [] = []
copies b (x ∷ xs) = b ∷ copies b xs

copies-first_twice :
    (p : Text × Text) (ss rest : List ServiceNode)
    → copies p ss ≡ p ∷ copies p rest
    → copies p (first_twice ss) ≡ p ∷ p ∷ copies p rest
unfolding first_twice
copies-first_twice p [] rest e = cc
copies-first_twice p (s ∷ ss) rest e = ap (◌∷◌ p) e

copies-all_last : (p : Text × Text) (ss : List ServiceNode) → copies p (all_last ss) ≡ copies p ss
unfolding all_last
copies-all_last p [] = refl
copies-all_last p (s ∷ []) = refl
copies-all_last p (s ∷ t ∷ ss) =
    copies-first_twice p (all_last (t ∷ ss)) ss (copies-all_last p (t ∷ ss))

other_versions_of :
    (ver : Text) (ss : List ServiceNode) (s : ServiceNode)
    → All (λ t. t ≡ s) ss
    → other_versions ver ss
      ≡ (if text_eq s.version ver then [] else copies (s.node_name, s.version) ss)
unfolding other_versions
other_versions_of ver [] s h = ground arith
other_versions_of ver (t ∷ ss) s h = rw h.0 (elim (Bool-cases (text_eq s.version ver)) [
  | inl same ↦ rw same (other_versions_of ver ss s h.1 ∙ rw same refl)
  | inr other ↦
      rw other (ap (◌∷◌ (s.node_name, s.version)) (other_versions_of ver ss s h.1 ∙ rw other refl))
])

copies_filled :
    (p : Text × Text) (ss : List ServiceNode) (s : ServiceNode)
    → is_empty (copies p (ss ++ s ∷ [])) ≡ false
copies_filled p [] s = refl
copies_filled p (t ∷ ss) s = refl

length_filled : (xs : List ServiceNode) (n : ℕ) → length xs ≡ suc n → is_empty xs ≡ false
length_filled [] n e = absurd (omega arith)
length_filled (x ∷ xs) n e = refl

list_filled : (ss : List ServiceNode) (s : ServiceNode) → is_empty (all_last (ss ++ s ∷ [])) ≡ false
list_filled ss s =
    length_filled (all_last (ss ++ s ∷ [])) (length ss)
      (length-all_last (ss ++ s ∷ []) ∙ ground (arith, length-append ss (s ∷ [])))

-- What `checkZKVersion` makes of a deployment, by the version of its last instance alone: no alert
-- where the route has no version or that instance is of the route's version, and else an alert
-- that names that instance with its version once for each instance, whatever the others are.
pub version_alert-last :
    (zk : ZkManager) (v : Text) (ss : List ServiceNode) (s : ServiceNode)
    → instances_at v zk ≡ ss ++ s ∷ []
    → let ver = get_route_version (get_route_config v zk) in
      version_alert zk v ≡ (
        if is_empty ver || text_eq s.version ver
        then none
        else some (project_of v, copies (s.node_name, s.version) (ss ++ s ∷ [])))
unfolding version_alert get_instance_list
version_alert-last zk v ss s all =
    let p : Text × Text = (s.node_name, s.version) in
    let ver = get_route_version (get_route_config v zk) in
    rw
      (
        all,
        other_versions_of ver (all_last (ss ++ s ∷ [])) s (All-all_last ss s),
        copies-all_last p (ss ++ s ∷ []),
      )
      (ground (arith, list_filled ss s, copies_filled p ss s))

module _ (ip_of : Instance → Text) (zk : ZkManager) (infor : InsManager) where
  -- The instances that ZooKeeper and the hosts have of a deployment are equally many.
  abbrev pub Agrees : Text → Type 0
  Agrees v = length (instances_at v zk) ≡ length (running_instance (java_key v) infor)

  num_alert-none : (v : Text) → (num_alert ip_of zk infor v ≡ none) ↔ Agrees v
  unfolding num_alert get_instance_list
  num_alert-none v = ground (arith, length-all_last (instances_at v zk))

  num_alerts-none : (vs : List Text) → (num_alerts ip_of zk infor vs ≡ []) ↔ All Agrees vs
  unfolding num_alerts
  num_alerts-none [] = (λ _. tt, λ _. refl)
  num_alerts-none (v ∷ vs) = ground (arith, num_alert-none v, num_alerts-none vs)

  -- `checkHostRunningAndZKinstances` sends no alert exactly when of every deployment that
  -- ZooKeeper has there run as many instances as it has, and it has no error.
  pub check_host_running-Agrees :
      ((check_host_running_and_zk_instances ip_of zk infor).0 ≡ []
        ↔ All Agrees (list_deployment zk.zk_ins))
      × ((check_host_running_and_zk_instances ip_of zk infor).1 ≡ [])
  unfolding check_host_running_and_zk_instances
  check_host_running-Agrees = (num_alerts-none (list_deployment zk.zk_ins), refl)
