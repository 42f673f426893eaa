-- ===== src/Lib.antt =====
-- Dolphin: the controller that deploys services to hosts.
--
-- Dolphin keeps in etcd, for each stage of the release process (dev, test, ... prd), deploy
-- configurations, the instances that run, and for each host how many instances of each version are
-- expected there. Its controller turns a deploy configuration into host configurations: it finds
-- hosts for new instances, exchanges old versions for new ones under an update policy, and removes
-- what is no longer asked for. Agents on the hosts follow the host configurations.
--
-- The parts, the files that model them, and the code:
--   Types: types/. Types/Resource is types/resource.go with the wrap-around of uint64,
--     Types/Host types/host.go, Types/Stage types/namespace.go, Types/Deploy types/deploy.go with
--     the deploy keys (Deploy/Key), the host selectors (Deploy/Selector) and `Validate`
--     (Deploy/Validate). Types/Fault holds the errors: a Go `error` is a list of them, empty for nil
--     and longer for a multierror.
--   EtcdKey: registry/etcdkey/, the paths in etcd.
--   HostConfig: controllers/types/impl/hc.go, `hcManager`. Its table of the expected instances is
--     `cfgs`, etcd is `store`. One function for each method; `GetHostConfig` is `get_host_config`
--     and so on. HostConfig/Tables says what the methods do to the tables, HostConfig/Mirror how
--     etcd follows them, HostConfig/Load what is read back when the controller starts.
--   Replica: controllers/scheduler/replica.go, `replicaCtrl`, which controls one deploy key.
--     Legacy, Remove, Update and Add are its loops, Policy the update policies and `Deploy`, which
--     call the loops in turn. Each of these works on the tables of HostConfig only.
--     Status is `checkStatus`, Destroyed is about `Destroy`, Distinct about hosts standing once in
--     the maps.
--   Placement: controllers/scheduler/scheduler.go and utils.go, the scheduler that finds hosts for
--     new instances: `NextHost` is the parameter `next_host` of Replica/Add. Random numbers are a
--     function from the tries left, 50 at most, as in the code.
--   Configs: controllers/types/impl/dc.go, the manager of the deploy configurations.
--   Zk: controllers/java/zk/path_util.go and zkpath.go, the paths of ZooKeeper and those in etcd
--     that they are copied to. Zk/Parsed and Zk/Stages are about the way to etcd, Zk/RoundTrip and
--     Zk/Stages about the way back. Zk/Names is the rest of zkpath.go with project/project.go, the
--     names of the deployments; Zk/Client is zk.go, Zk/Sync and Zk/Events are sync_zk.go, the
--     manager of the tables and its handler of ZooKeeper's events.
--   Router: controllers/java/router, the routes as texts (Clauses to RoundTrip are about reading
--     back what is printed) and, in Router/Node, the nodes of instances.
--   Version: controllers/java/version, which version of a cluster is expected in which environment.
--   Service: controllers/java/service/service.go, the checks of the Java services, and the loop that
--     probes them (Service/Probe; Service/Load loads them, and Load/Unreached says why none is
--     probed). It asks Zk/Sync and Instances.
--   Process: process/, the agent's view of the processes of its host: Process/Scan finds them and
--     makes instances of them (scan.go; Process/Env is about their environment), Process/Watch is
--     the loop that probes one, with Process/Check (probe.go), Process/Ports is process_net_linux.go,
--     Process/Pids process_scan.go and Process/Shell sh.go.
--   Hostinfo: types/hostinfo/info.go, what the agent knows of its host, and in Machine the
--     machine file, where it keeps its id and its stage.
--   Manager: controllers/scheduler/manager.go, the manager of the controllers of one stage, which
--     makes them and hands them the deploy configurations. Manager/Fresh is about a new manager,
--     Manager/Keys, Manager/Calls and Manager/Version about what its calls keep.
--   Instances: controllers/types/impl/instance.go, the manager of the running instances, which the
--     others ask what is running. Instances/Fatal says what its watch comes to, Instances/Latest
--     what its handler does with objects of the type that it asks for.
--
-- A method that changes its receiver takes and returns it. A table, for a Go map, is a list of keys
-- and values; a loop over a map runs in the order of the list, which is arbitrary.
-- The statements that need it suppose that a key stands once (`IsDistinct`, `IsProper`). The
-- Boolean-valued functions named `ended` answer each `select` that waits for the context to end or
-- for a timer. The loops `for num > 0` of `addInstances` and `removeExpectInstances` need not end,
-- so they run on fuel and give `none` when it runs out.
-- Panics, such as a write to a nil map, are the value `panicked`. Integers of type `uint64` wrap
-- around where the code computes with them. Integers of type `int` are not bounded: they count
-- instances, rounds, threads and ports, and no loop raises one by more than a single step.
--
-- Parameters: `Store` is registry/generic over etcd, known by its answers (`StoreLaws` says what a
-- write without an error means); `Externals` are floating-point numbers and the label selectors of
-- we.com/jiabiao/common; `next_host` is the scheduler that the controller asks for hosts. `Conn` is
-- the connection to ZooKeeper, `Outside` that with etcd and the decoders, `Floats` the numbers of
-- the ratios of failure. `Registry` and `Agent` are the registry of the types of instances and what
-- the agent knows of a host, `Sessions` is go-sh, `Regexps` the regular expressions. What a probe
-- answers, what the kernel tells of a process in /proc, and which event comes next, is part of a
-- list of rounds or of events.
--
-- Not modelled: the HTTP interface and the command line (api, cmd), logging, the sending of alerts
-- and of metrics (report), the agent's deployment of images (deploy), the registries of types/ins,
-- the encoding of the types as JSON, and the code that stems from other projects (registry/generic,
-- deploy/conf, deploy/sync, report/metric, report/influx).
pub mod Base
pub mod Types
pub mod EtcdKey
pub mod HostConfig
pub mod Configs
pub mod Instances
pub mod Placement
pub mod Replica
pub mod Manager
pub mod Zk
pub mod Service
pub mod Process
pub mod Machine
pub mod Hostinfo
pub mod Version
pub mod Router
pub mod Tests
