-- ===== src/Router/Node.antt =====
-- controllers/java/router/zknode.go: what a node of ZooKeeper says of an instance. The decoding of
-- JSON and of a time are parameters; times are seconds since 1970.
use snk_fork_dolphin.Base.{[], Option, none, some, if◌then◌else◌, is_empty, not, ◌&&◌}
use snk_fork_dolphin.Base.Int.{ℤ, pos, ◌-ℤ◌}
use snk_fork_dolphin.Base.Text.{Text}

pub record ServiceNode : Type 0 where
  pub api_version : Text
  pub node_name : Text
  pub host : Text
  pub typ : ℤ
  pub port : ℤ
  pub start_time : ℤ
  pub main_class : Text
  pub pid : ℤ
  pub reconnect_zk : ℤ
  pub version : Text

-- The struct that `UnmarshalJSON` decodes.
pub record RawNode : Type 0 where
  pub host : Text
  pub ip : Text
  pub typ : ℤ
  pub port : ℤ
  pub start_time : Text
  pub starttime : Text
  pub time : Text
  pub main_class : Text
  pub pid : ℤ
  pub reconnect_zk : ℤ
  pub version : Text

-- Of the three names of the start time the first that is not empty.
unfoldable pub start_text : RawNode → Text
start_text o =
    let first = if is_empty o.start_time && not (is_empty o.time) then o.time else o.start_time in
    if is_empty first && not (is_empty o.starttime) then o.starttime else first

-- The time of a text, eight hours back; an empty text leaves `old`, `none` is the error of
-- `time.Parse`.
unfoldable pub start_time_of : (Text → Option ℤ) → Text → ℤ → Option ℤ
start_time_of parse_time text old =
    if is_empty text
    then some old
    else elim (parse_time text) [ none ↦ none | some t ↦ some (t -ℤ pos 28800) ]

-- `UnmarshalJSON` of the decoded struct `o` into the node `sn`.
unfoldable pub unmarshal_node : (Text → Option ℤ) → RawNode → ServiceNode → Option ServiceNode
unmarshal_node parse_time o sn = elim (start_time_of parse_time (start_text o) sn.start_time) [
  | none ↦ none
  | some t ↦ some (record {
    api_version = sn.api_version;
    node_name = sn.node_name;
    host = if is_empty o.host then o.ip else o.host;
    typ = o.typ;
    port = o.port;
    start_time = t;
    main_class = o.main_class;
    pid = o.pid;
    reconnect_zk = o.reconnect_zk;
    version = o.version;
  })
]

-- A node with nothing in it.
abbrev pub empty_node : ServiceNode
empty_node = record {
  api_version = [];
  node_name = [];
  host = [];
  typ = pos 0;
  port = pos 0;
  start_time = pos 0;
  main_class = [];
  pid = pos 0;
  reconnect_zk = pos 0;
  version = [];
}
