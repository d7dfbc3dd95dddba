-- ===== src/Lib.antt =====
-- The ZooKeeper operator: a Kubernetes controller that keeps a ZooKeeper ensemble as its custom
-- resource ZookeeperCluster describes it.
--
-- The program. A run of `Reconcile` (controllers/zookeepercluster_controller.go) reads the cluster,
-- fills in defaults and stores them, or else runs eight functions in order: finalizers and volume
-- claims, config map, StatefulSet (with the upgrade), the three services, disruption budget, status.
-- They make the wanted objects with pkg/zk/generators.go, merge them into what the server has with
-- pkg/zk/synchronizers.go, and note what they see in the status (api/v1beta1/status.go). main.go
-- starts this controller once it has won the election of pkg/utils/leader.go, and cmd/exporter
-- writes the objects of a cluster to files instead.
--
-- The model, file by file.
--   Prelude, Std: numbers, texts, Go maps; strconv.Itoa and Atoi, and the functions of strings and
--     filepath that the program calls. Texts of digits are read byte by byte: ASCII.
--   Kube: the fields of Kubernetes objects that the program reads or writes. A field that it only
--     passes through is kept as a serialised value.
--   Api/Types, Api/Constants, Api/Defaults, Api/Spec, Api/Ports: api/v1beta1/zookeepercluster_types.go.
--   Api/Status: api/v1beta1/status.go. A method that changes its receiver returns the new status.
--   Api/Copies: api/v1beta1/zz_generated.deepcopy.go, over values whose pointers, maps and slices
--     stand at addresses (Memory); Kube/Copies holds the copies of the Kubernetes types.
--   Utils: pkg/utils/finalizer_utils.go, pkg/utils/zookeeper_util.go and pkg/utils/leader.go.
--   Zk: pkg/zk/generators.go and pkg/zk/synchronizers.go.
--   Controller: controllers/zookeepercluster_controller.go, with Controller/Interfaces for what the
--     reconciler is given and Controller/Op for its steps.
--   Controller/Interfaces/Guarded, and the files Keeps of each part: what all steps of a run keep.
--   Controller/Op/Brings and Controller/StatefulSets/Whole/Applied: what a step that succeeds has done.
--   Controller/Ensemble: pkg/zk/zookeeper_client.go, which fills the interface that the reconciler
--     takes, over a connection of the package go-zookeeper. Controller/Ensemble/Served says what the
--     connection does where every call is served.
--   Exporter: pkg/yamlexporter/exportutil.go, GenerateYAML of the controller and
--     cmd/exporter/main.go, over a record of the calls to files and to the package yaml.
--   Operator: main.go and SetupWithManager, over a record of the calls to the manager.
--   Scenarios: concrete runs.
-- An operation keeps the name of its function in snake case: `reconcileStatefulSet` is
-- `reconcile_stateful_set`.
--
-- State. A step of a reconciliation maps the cluster in memory and a world `W` to a result, the
-- changed cluster and the changed world. What was changed before an error stays changed. The world is
-- a parameter, and so are the Kubernetes client, the client of the ensemble, the clock,
-- SetControllerReference and the test for a zero quantity: nothing is assumed of them but what a
-- theorem names. Get finds an object or answers an error; a write answers the server's version, which
-- replaces the caller's as the Go client does it.
--
-- Widths. Replica counts and ports are signed integers that the program only copies and compares; the
-- conversion of an ordinal to 32 bits and the product of the tick time in 64 bits wrap around as in
-- Go. Pointers and maps that the code compares with nil are options; a nil pointer that the code
-- follows is an empty option of a generator's result, and a panic of a step.
--
-- Loops are structural recursion over lists. The only fuel is that of the digits of a printed number,
-- one more than the number, which the round trip of Std/Strconv/RoundTrip shows to be enough.
--
-- Sharing. Outside of the deep copies, the cluster in memory is a value: where the code writes through
-- a map that two objects share, as in `create_stateful_set`, the definition changes both.
-- Controller/Upgrade/InMemory has clearUpgradeStatus once more over a status in memory, where the copy
-- that the function keeps can be told from the status that an update overwrites.
--
-- Not modelled: the registration of flags and types, logging, tests, images and charts. A Go map is a
-- list of keys and values; the order in which Go ranges over it is not specified, and where it shows,
-- in the additional lines of zoo.cfg, the model takes the list's order.
pub mod Prelude
pub mod Std
pub mod Kube
pub mod Memory
pub mod Api
pub mod Utils
pub mod Zk
pub mod Controller
pub mod Exporter
pub mod Operator
pub mod Scenarios
