-- ===== src/Service/Probe.antt =====
-- controllers/java/service/service.go: the loop that probes a service through the ESBs of its
-- interface.
use snk_fork_dolphin.Base.{
  get_elem?, ℕ, zero, suc, ◌+◌, ◌++◌, List, [], ◌∷◌, Option, none, some, if◌then◌else◌, is_empty,
  ltb, length, ◌⊎◌, inl, inr,
}
use snk_fork_dolphin.Base.Outcome.{Outcome, done, panicked, ◌>>=◌}
use snk_fork_dolphin.Base.Table.{Table, lookup, insert}
use snk_fork_dolphin.Base.Text.{Text, codes}
use snk_fork_dolphin.Router.{RouteCfg}
use snk_fork_dolphin.Service.{InterfaceIterator, next, to_iterator, get_num_version}
use snk_fork_dolphin.Types.Answer.{ProbeAnswer, warning, failure}
use snk_fork_dolphin.Types.Instance.{Instance}
use snk_fork_dolphin.Types.Stage.{Stage}

-- The arithmetic of Go's float64, and the texts of numbers.
pub record Floats : Type 1 where
  pub F : Type 0
  pub of : ℕ → F
  pub half : F
  pub plus : F → F → F
  pub times : F → F → F
  pub over : F → F → F

pub data ServiceKind : Type 0 where
  service_daemon service_service : ServiceKind

pub record ProbeInterface : Type 0 where
  pub name : Text
  pub body : Text
  pub headers : Table Text

pub data ProbeFault : Type 0 where
  not_exist no_esb no_interface : ProbeFault

-- The events that the loop of `StartProbe` selects: the timer, with what the manager's tables hold
-- by then, the ticker, with the answer of the probe, and the ends.
pub data Signal {κ} (E : Type κ) : Type κ where
  update_timer : List E → Option (List ProbeInterface) → Signal E
  tick : ProbeAnswer → Signal E
  finished stopped : Signal E

module _ (fl : Floats) where
  open fl use {F, of, half, plus, times, over}

  pub record FailRatio : Type 0 where
    pub count : ℕ
    pub avg1 : F
    pub avg5 : F
    pub avg15 : F

  -- `failRatio{}`
  abbrev pub empty_ratio : FailRatio
  empty_ratio = record { count = 0; avg1 = of 0; avg5 = of 0; avg15 = of 0 }

  -- `calFailRatio`, with `fixed1 - exp` for the decay `exp`.
  unfoldable pub cal_fail_ratio : F → ℕ → ℕ → F → F
  cal_fail_ratio old exp rest n = over (plus (times old (of exp)) (times n (of rest))) (of 2048)

  -- The share of failure of an answer.
  unfoldable pub share_of : ProbeAnswer → F
  share_of failure = of 1
  share_of warning = half
  share_of _ = of 0

  -- `failRatio.update`; 164, 34 and 11 are what the decays leave of 2048.
  unfoldable pub update_ratio : ProbeAnswer → FailRatio → FailRatio
  unfolding cal_fail_ratio share_of
  update_ratio result fr = record {
    count = fr.count + 1;
    avg1 = cal_fail_ratio fr.avg1 1884 164 (share_of result);
    avg5 = cal_fail_ratio fr.avg5 2014 34 (share_of result);
    avg15 = cal_fail_ratio fr.avg15 2037 11 (share_of result);
  }

  -- `service`, without the fields that nothing but their declaration names.
  pub record JavaService : Type 0 where
    pub stage : Stage
    pub name : Text
    pub types : ServiceKind
    pub api_version : Text
    pub route : Option RouteCfg
    pub fail_ratio : FailRatio
    pub esb_fail_ratio : Table FailRatio
    pub instances : List Instance

  -- `esb`, with the ratio of its service.
  pub record Esb : Type 0 where
    pub fail_ratio : FailRatio
    pub host : Text
    pub port : Text

  -- What `newLabelsAndFields` and its callers put into a metric.
  pub record Metric : Type 0 where
    pub env : Stage
    pub service : Text
    pub esb : Text
    pub version : Text
    pub ratio : FailRatio
    pub num_instances : ℕ
    pub num_versions : ℕ

  -- `newLabelsAndFields`, which does not read `esb`, and what its callers add.
  unfoldable pub metric_of : Stage → Text → Text → FailRatio → JavaService → Metric
  metric_of stage name esb fr s = record {
    env = stage;
    service = name;
    esb = codes "all";
    version = s.api_version;
    ratio = fr;
    num_instances = length s.instances;
    num_versions = get_num_version s.instances;
  }

  -- The variables of `StartProbe`: what it has probed, sent as metrics and told are logs.
  pub record Session : Type 0 where
    pub s : JavaService
    pub esbs : List Esb
    pub iter : InterfaceIterator ProbeInterface
    pub idx : ℕ
    pub probed : List (Text × ProbeInterface)
    pub metrics : List Metric
    pub told : List ProbeFault

  abbrev pub url_of : Esb → Text
  url_of e = e.host ++ codes ":" ++ e.port

  -- The entry of `esbFailRatio`, a fresh one for a new URL.
  unfoldable pub ratio_at : Text → Table FailRatio → FailRatio
  ratio_at url t = elim (lookup url t) [ none ↦ empty_ratio | some ef ↦ ef ]

  -- The update of an ESB, which the list holds a pointer to.
  unfoldable pub update_esb : ProbeAnswer → ℕ → List Esb → List Esb
  unfolding update_ratio
  update_esb ret i [] = []
  update_esb ret zero (e ∷ esbs) = record e { fail_ratio = update_ratio ret e.fail_ratio } ∷ esbs
  update_esb ret (suc i) (e ∷ esbs) = e ∷ update_esb ret i esbs

  -- The probe of one interface through the ESB `e`, and what follows its answer.
  unfoldable pub probe_esb : Stage → Text → Esb → ProbeInterface → ProbeAnswer → Session → Session
  unfolding update_ratio ratio_at update_esb metric_of
  probe_esb stage name e iface ret st =
      let url = url_of e in
      let ef = update_ratio ret (ratio_at url st.s.esb_fail_ratio) in
      let s = record st.s {
        fail_ratio = update_ratio ret st.s.fail_ratio;
        esb_fail_ratio = insert url ef st.s.esb_fail_ratio;
      } in
      record st {
        s = s;
        esbs = update_esb ret st.idx st.esbs;
        probed = st.probed ++ (url, iface) ∷ [];
        metrics = st.metrics ++ metric_of stage name url ef s ∷ [];
      }

  -- `e := esbs[idx]` and what is done with it; out of range it panics.
  unfoldable pub with_iface :
      Stage → Text → ProbeAnswer → ProbeInterface → Session → Outcome Session
  unfolding probe_esb
  with_iface stage name ret iface st = elim (get_elem? st.esbs st.idx) [
    | none ↦ panicked
    | some e ↦ done (probe_esb stage name e iface ret st)
  ]

  -- One tick; an index out of range in `Next` would panic too.
  unfoldable pub on_tick : Stage → Text → ProbeAnswer → Session → Outcome Session
  unfolding next with_iface
  on_tick stage name ret st =
      let (iter, found) = next st.iter in
      let st1 = record st { iter = iter } in
      let st2 = if ltb (length st.esbs) st.idx then record st1 { idx = 0 } else st1 in
      if is_empty st.esbs then done st else elim found [
        | none ↦ done st1
        | some none ↦ panicked
        | some (some iface) ↦ with_iface stage name ret iface st2
      ]

  -- The case of the timer, which is not set again and so fires once; `none` is the nil map.
  unfoldable pub on_update : List Esb → Option (List ProbeInterface) → Session → Session
  unfolding to_iterator
  on_update esbs ifs st =
      let told1 = if is_empty esbs then st.told ++ no_esb ∷ [] else st.told in
      record st {
        esbs = esbs;
        iter = to_iterator (elim ifs [ none ↦ [] | some all ↦ all ]);
        told = elim ifs [ none ↦ told1 ++ no_interface ∷ [] | some all ↦ told1 ];
      }

  -- The loop, over the events that it selects.
  unfoldable pub probe_loop : Stage → Text → List (Signal Esb) → Session → Outcome Session
  unfolding on_update
  probe_loop stage name [] st = done st
  probe_loop stage name (update_timer esbs ifs ∷ es) st =
      probe_loop stage name es (on_update esbs ifs st)
  probe_loop stage name (tick ret ∷ es) st = do
    st' ← on_tick stage name ret st
    probe_loop stage name es st'
  probe_loop stage name (finished ∷ es) st = done st
  probe_loop stage name (stopped ∷ es) st = done st

  -- `manager`, as far as `StartProbe` reads it.
  pub record ProbeManager : Type 0 where
    pub stage : Stage
    pub esbs : Table (List Esb)
    pub services : Table JavaService

  -- `NewManager`, with none of its arguments nil.
  unfoldable pub new_manager : Stage → ProbeManager
  new_manager stage = record { stage = stage; esbs = []; services = [] }

  -- `getEsbs`
  unfoldable pub get_esbs : Text → ProbeManager → List Esb
  get_esbs ver m = elim (lookup ver m.esbs) [ none ↦ [] | some es ↦ es ]

  -- `StartProbe`: the faults told before the loop starts, or how the loop leaves its variables.
  unfoldable pub start_probe :
      Text → List ProbeInterface → List (Signal Esb) → ProbeManager → ProbeFault ⊎ Outcome Session
  unfolding get_esbs to_iterator
  start_probe name ifs es m = elim (lookup name m.services) [
    | none ↦ inl not_exist
    | some s ↦
        let esbs = get_esbs s.api_version m in
        if is_empty esbs
        then inl no_esb
        else inr (
            probe_loop m.stage name es (record {
              s = s;
              esbs = esbs;
              iter = to_iterator ifs;
              idx = 0;
              probed = [];
              metrics = [];
              told = [];
            }))
  ]
