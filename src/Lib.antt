-- ===== src/Lib.antt =====
-- Verification of the high-availability core of APC, a controller that runs K3s clusters in Apple
-- containers. A cluster has three servers with embedded etcd; the controller keeps their exact
-- identity (containers, volumes, network, addresses), reports their health, and lets an operator stop,
-- start and restart one member at a time.
--
-- Parts and files:
--   Ha/Types: the records of internal/cluster/ha.go, ha_addresses.go, ha_etcd.go and
--   ha_desired_state.go.
--   Ha/Names, Ha/Config, Ha/Config/ByteSize, Ha/Config/Endpoint, Ha/Config/Normalize: the names of
--   resources, parseHAByteSize, haProxyEndpoint (ha_proxy.go), DefaultHAConfig, normalizeHAConfig and
--   loadHAConfig (ha.go).
--   Ha/Inspect, Ha/Inspect/Arguments, Ha/Inspect/Query: HAServerRunArguments, the inspections and the
--   exact validation of containers, volumes and networks (ha.go). Ha/Preflight: preflightHA.
--   Ha/Status: StatusHA (ha.go) and the readiness tests of ha_members.go.
--   Ha/Etcd, Ha/Etcd/ServerId, Ha/Etcd/LocalState: ha_etcd.go.
--   Ha/DesiredState: the operator's intent, ha_desired_state.go.
--   Ha/Addresses, Ha/Addresses/Envelope: ha_addresses.go and runHABounded.
--   Ha/Lock: the operation lock, ha_lock.go, and what runs under it. Ha/Files: the token, the saved
--   configuration, the kubeconfig and the removal of files (ha.go, cluster.go, lifecycle.go).
--   Ha/Lifecycle: CreateHA and StartHA; Ha/Lifecycle/Stop: StopHA and DeleteHA (ha.go).
--   Ha/Infrastructure: the creation of a cluster's network and volumes, and its rollback (ha.go).
--   Ha/Members, Ha/Members/Start, Ha/Members/Restart, Ha/Members/Operation: ha_members.go with
--   reconcileHAMember and waitHAClusterReady of ha.go. Ha/Members/Targets: ha_targets.go.
--   Ha/Proxy: the pool of the HA proxy (ha_proxy.go), its backends' health and trust, and the choice
--   of a backend. Ha/Proxy/Checks: the rounds of checks, one goroutine a backend, whose results arrive
--   in any order. Ha/Proxy/Client: the calls of handleHAProxyClient, interleaved with any steps of
--   other goroutines. Ha/Proxy/Connections: the registry of open connections as a relation of steps of
--   goroutines. Ha/Proxy/Serve: serveHAProxy until it listens.
--   SupervisorLog: the bounded log of the supervisors, and what the access control list of its path
--     may say (supervisor_log.go).
--   Launchd: the reading of `launchctl print` (internal/launchd/unattended.go).
--   Prelude, Text, Net: numbers, lists, texts and addresses as the source uses them.
--   Modules below these hold the proofs, and are named for what they prove.
--   Lab: one cluster and one host, on which the examples run.
--
-- Go code that talks to the outside is an action on a history (Host/Action): a history lists the
-- commands, probes, waits and file accesses, newest first, and the answers of the outside are functions
-- of it, gathered in the record Host, which the definitions take as a parameter: the container command
-- line, the decoders of encoding/json, the clock, the context, the file system, and path/filepath. An
-- error keeps its wrapping and its format, not the arguments of the format; where an error is returned
-- the value beside it is left out. An operation that fails keeps the history up to there.
--
-- Loops over lists are by structural recursion. The loop that writes the supervisors' log takes the
-- number of bytes as fuel, since every turn that goes on writes one. The
-- waiting loops run for the number of ticks that the host gives to the context, the number of times that
-- their select takes the ticker before the context's end, so none is left without an answer. startHAMemberLocked and reconcileHAMember call one
-- another in the source: start_step takes the recursive call as an argument. Printing a number takes
-- its successor as fuel, which is more than its digits.
--
-- Bounds: numbers are natural; a negative identifier, port or CPU count fails in the source where a
-- small natural one fails here. Byte sizes are bounded by 64 bits as in the source. Texts are lists of
-- characters, taken as ASCII where the source counts bytes.
--
-- Not modelled here: the steps inside the atomic writing of a file and inside SetCurrentCluster, which
-- are one change each, the backup and recovery of etcd snapshots, the proxy's accept loop and the
-- copying of its bytes, the supervisor's loop and the opening of its log, single-node clusters, the
-- rest of the launchd package, and the command line, firewall, image and diagnostic packages.
pub mod Prelude
pub mod Text
pub mod Net
pub mod Host
pub mod Ha
pub mod SupervisorLog
pub mod Launchd
pub mod Lab
