-- ===== src/Lib.antt =====
-- Verification of metacontroller, which runs custom controllers for Kubernetes out of webhooks: it
-- claims the children of a parent object, asks a webhook for the children that are desired, and
-- brings the observed ones there.
--
-- The parts, and where they are modelled:
--
-- - Prelude, with Prelude/*: Boolean tests and equality tests as an interface, lists, Go maps as
--   association lists, maps of maps, results with an error, and texts cut at a separator.
-- - Json: decoded JSON, the content of an unstructured object. Objects: what is read of an object's
--   metadata through the accessors of k8s.io/apimachinery, which are a parameter.
-- - Apply: the three-way merge of pkg/dynamic/apply/apply.go. `merge_objects` is Merge, `merge` is
--   merge, `merge_object` is mergeObject, `merge_array` and `merge_list_map` are the lists,
--   `detect_list_map_key` is detectListMapKey. Go recurses on the desired value, so `merge` runs on
--   fuel and `merge_value` gives it one more than the height of the desired value, which is enough.
-- - Names: the text form of GroupVersionKind (pkg/controller/common/api/api.go), ParseAPIVersion of
--   pkg/controller/common/common.go, and the key `kind.group` of the composite controller.
-- - ObjectMap: RelativeObjectMap (pkg/controller/common/api/v1/common.go) and UniformObjectMap
--   (pkg/controller/common/api/v2/common.go), which differ in how an object is named; the operations
--   take the naming. `convert` is Convert.
-- - ControllerRef: pkg/dynamic/controllerref with the adapted
--   pkg/third_party/kubernetes/controller_ref_manager.go: owner references, `claim_object` and
--   `claim_children`. The state has the memory of CanAdopt and the calls made of the API server.
-- - Revision: the children that a ControllerRevision claims, in
--   pkg/controller/composite/controller_revision.go, and `sync_revision_claims`, which is
--   syncRevisionClaims of pkg/controller/composite/rolling_update.go.
-- - Status: conditions (pkg/dynamic/object/status.go), and childStatusCheck of
--   pkg/controller/composite/rolling_update.go. The nested field helpers are a parameter with what
--   they document as a hypothesis.
-- - Manage: deleteChildren and the cache of server-side applies in
--   pkg/controller/common/manage_children.go.
-- - Update: ApplyUpdate of pkg/controller/common/manage_children.go, which merges by Apply and reverts
--   what is not the controller's, with nullifyLastAppliedAnnotation of
--   pkg/controller/common/diff.go.
-- - Rolling: shouldContinueRolling and the update strategies of
--   pkg/controller/composite/rolling_update.go, over ObjectMap, Update and Status. Pass is
--   syncRollingUpdate, over Revision; Names is about the names of observed and of claimed children.
-- - Appliers: the dynamic and the server-side applier, and ManageChildren, of
--   pkg/controller/common/manage_children.go, over Manage and Update. `manage_children` deletes the
--   observed children that are not desired and applies the desired ones, kind by kind.
-- - Informers: the shared informers of pkg/dynamic/informer. `resource` is Resource and
--   `close_informer` is the closeFn of factory.go; Index has the index functions and listings of
--   informer.go. Users that subscribe and close are a step relation.
-- - Clientset: AtomicUpdate and its kin (pkg/dynamic/clientset/clientset.go). client-go's
--   RetryOnConflict is a parameter that names the last attempt. Finalizers:
--   pkg/controller/common/finalizer/finalizer.go over these loops.
-- - Composite: pkg/controller/composite/controller.go. Selector is makeSelector, Claims is
--   claimChildren, Events the handlers that queue a parent, Queue the work queue with sync, and Sync is
--   syncParentObject, stage by stage over a record of the components that it calls. Revisions is
--   manageRevisions, and what syncRevisions makes of the answers for each revision
--   (controller_revision.go).
-- - Decorator: pkg/controller/decorator. Selector is selector.go; Keys, Strings, Children and Sync are
--   the queue's keys, updateStringMap, getChildren and syncParentObject of controller.go.
--
-- ControllerRef, Manage, Appliers and Clientset ask the API server, whose answers are a parameter; a
-- call is recorded in the state. Manage takes the reasons of errors from ControllerRef, and
-- Composite.Claims its claims, from the candidates that Informers.Index lists. Object maps say which
-- observed and which desired children there are, by the names that Revision claims and that Manage
-- and Appliers act on.
--
-- A Go map is an association list whose order stands for an unspecified order of iteration;
-- statements about maps speak of lookups. Error texts, logs and metrics are left out, and so is what
-- the errors of a loop are joined into. A value that Go changes in place is the result of the
-- function. A delay that the hook answers in seconds as a floating-point number is a natural number of
-- nanoseconds, 0 where it is not positive; a delay from whole seconds wraps around as in 64 bits.
-- Where Go would panic on a nil object, that is an outcome of its own.
--
-- Not modelled: the revisions' patches and the calls of the hook for them; the start of a composite
-- controller; the start and the events of a decorator controller; related objects and webhooks; the
-- construction of dynamic clients, their discovery and the cache of an informer, which stand on
-- client-go, sync primitives and HTTP; start-up, options and metrics, which are I/O; and generated
-- code.
pub mod Prelude
pub mod Json
pub mod Apply
pub mod Names
pub mod Objects
pub mod ObjectMap
pub mod Revision
pub mod ControllerRef
pub mod Status
pub mod Manage
pub mod Update
pub mod Rolling
pub mod Appliers
pub mod Informers
pub mod Clientset
pub mod Finalizers
pub mod Composite
pub mod Decorator
