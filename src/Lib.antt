-- ===== src/Lib.antt =====
-- Windows Machine Config Operator: a model of its own logic, with the theorems that make it correct.
--
-- The operator (cmd/operator, controllers/, pkg/) turns Windows instances into nodes of a cluster. It writes
-- a services ConfigMap that says which Windows services, files and environment variables an instance should
-- have; the Windows Instance Config Daemon (cmd/daemon, pkg/daemon) runs on each instance and follows it.
-- While one of its controllers is busy, the operator tells the lifecycle manager that it is not upgradeable.
--
-- Which file models which part:
--   * Common: lists, maps, errors, actions on a state that may fail, slices with `reflect.DeepEqual`, the order
--     of texts, and `sort.Slice` as the interface Sorter. A Go map is the association list in the order in which `range` visits it, and
--     a theorem holds for each such list.
--   * ServicesCm (pkg/servicescm/servicescm.go): Types has the schema; Dependencies has
--     validateDependencies, validateCycles and hasCycle; Priorities has validatePriorities, validate,
--     NewData and GetBootstrapServices; ConfigMap has Generate, Parse, ValidateExpectedContent, List and
--     GetLatest. encoding/json is the record Codec. Cycles/Fuel shows that the calls of hasCycle are enough:
--     there is one for each service and one more.
--   * Daemon.EnvVar (pkg/daemon/envvar/envvar.go): Reconcile and EnsureEnvVarsAreRemoved as functions on the
--     state of the registry. The open key is the record Registry, whose laws are RegistryLaws.
--   * Daemon.Cleanup (pkg/daemon/cleanup/cleanup.go): getMergedCMData, mergeServices, merge and removeServices.
--     The calls of the service manager are the record Manager, whose laws are ManagerLaws.
--   * Daemon.Certs (pkg/daemon/certs/certs.go): Reconcile, reconcileCerts, the reading of bundle files and
--     updateImportedCABundle. The file system and the root store are the record Machine. The scan of a file
--     has as many rounds as the file has characters; Daemon.Certs.Tokens shows that they are enough.
--   * Daemon.Deconfigure (pkg/daemon/cleanup/cleanup.go): Deconfigure, on top of these three. The node of the
--     instance is nil where none was found.
--   * Daemon.Manager (pkg/daemon/manager/manager.go, pkg/daemon/winsvc/winsvc.go): GetServices, DeleteService,
--     EnsureServiceState, stopServiceAndProcess and WaitForState as actions on the state of Windows, whose calls
--     are the record WindowsApi. EnsureServiceState calls itself for the dependents of a service; the fuel that
--     bounds the depth is enough where it is more than the rank of the service, by Daemon.Manager.Dependents.
--     A wait polls 24 times behind the first: two minutes, each five seconds.
--   * Daemon.Controller (pkg/daemon/controller/controller.go): reconcileServices, reconcileService and
--     expectedServiceCommand on top of the manager, and in Reconcile the function of that name with
--     reconcileEnvVarsAndCerts, the predicates of the node, waitUntilNodeReady and Bootstrap, on top of
--     Daemon.EnvVar, Daemon.Certs and the parsing of ServicesCm. Daemon.Simulation is a small Windows on which
--     they run.
--   * Cluster (pkg/cluster/config.go): the proxy variables of the operator itself.
--   * Manifest (pkg/services/services.go, and the names in pkg/windows/windows.go as Manifest/Paths):
--     GenerateManifest with the configuration of each service. The proxy variables are an argument.
--   * Ignition (pkg/ignition/ignition.go): New, GetKubeletArgs, parseKubeletArgs and getLatestRenderedWorker. The
--     list calls and the parsing of the raw configuration are arguments.
--   * Metadata (pkg/metadata/metadata.go, pkg/patch/patch.go): the patches of labels and annotations, and the
--     waits, which poll 40 times: retry.Timeout is ten minutes, retry.Interval 15 seconds.
--   * NodeConfig (pkg/nodeconfig/nodeconfig.go): Configure, Deconfigure, SafeReboot and setNode as actions on the
--     state of the cluster and the instance, whose calls are the record World; NodeConfig/Files has the contents
--     of the files that are written. setNode polls 40 times behind the first, the wait for the secret 60 times.
--   * Controllers (controllers/controllers.go): ensureInstanceIsUpToDate, deconfigureInstance, instanceFromNode and
--     NewNodeConfig on top of NodeConfig, GetAddress, and the predicates that choose the events of nodes.
--     Controllers/ConfigMaps (controllers/configmap_controller.go) has reconcileServices and what removes outdated
--     ConfigMaps, hasAssociatedInstance and deconfigureInstances.
--   * Csr (pkg/csr/csr.go): Approve and its validation of a certificate signing request. What libraries, the
--     network and the cluster answer is the record World.
--   * Condition (pkg/condition/condition.go): MarkAsBusy, MarkAsFree, Validate, set and wait. The calls of
--     the client are the record Cluster, whose laws are ClusterLaws. A call that holds the lock is one step.
--     wait polls 8 times: retry.ResourceChangeTimeout is two minutes, retry.Interval 15 seconds.
--   * Upgrades (controllers/controllers.go, pkg/instance/instance.go, pkg/metadata/metadata.go):
--     markNodeAsUpgrading, UpToDate and UpgradeRequired, on the list of the nodes of the cluster. What the cache
--     of the client lists is an argument of markNodeAsUpgrading, as it may be behind that list.
--   * Instances (pkg/wiparser/wiparser.go, pkg/nodeutil/nodeutil.go, pkg/instance/instance.go): Parse,
--     GetNodeUsername, extractUsername, FindByAddress and NewInfo. The two calls of net.ResolveIPAddr are arguments.
--   * Registries (pkg/registries/registries.go): newMirror, newMirrorSet, mergeMirrors, mergeMirrorSets,
--     sortMirrorSets, getMergedMirrorSets and generateConfig. url.Parse and base64 are arguments.
--
-- Functions keep their names in antt's spelling; an error is a constructor, without its text. Logs, events,
-- contexts and locks are left out.
--
-- Not modelled: the other functions of controllers/ and the rest of pkg/, which are still to come; SSH,
-- PowerShell, encryption and the wiring of the commands, which are input and output or calls of libraries.
mod Common
pub mod ServicesCm
pub mod Daemon
pub mod Registries
pub mod Condition
pub mod Upgrades
pub mod Instances
pub mod Csr
pub mod Cluster
pub mod Manifest
pub mod Metadata
pub mod NodeConfig
pub mod Controllers
pub mod Ignition
