-- ===== src/Lib.antt =====
-- A model of the replication side of the VAST CSI extensions controller (extensions-controller/).
--
-- The program. A user writes a VastStorageClassReplication (VSCR) or a VastVolumeReplication (VVR): a
-- primary StorageClass, a topology of edges between StorageClasses, and a schedule. The admission
-- webhooks check it. The reconcilers then find the replication peer of each edge, make one protection
-- policy for each, wait until the other side has its mirror, and add the path and its streams; on
-- deletion they take the policies away again.
--
-- The files.
--   Prelude: shared names. Results has the results of fallible code, Effects has code that calls
--     services (the world goes in and comes out), Triples has conditions on that world, Dict has Go
--     maps as association lists, Order has `sort.Strings` and `sort.Slice`,
--     Texts has functions of the package strings.
--   Spec: extensions-controller/api/v1alpha1. Durations has ParseEveryToSeconds, Templates the
--     schedule, Classes the lists of StorageClasses and TargetsFor, Validation the Validate methods.
--   K8s: internal/common/k8s_client/storageclass.go and ppathdir.go, what a StorageClass says of itself.
--   Vms: internal/common/vmsrest. Peers is peer_resolution.go, Wait is wait.go, Tenants is tenant.go,
--     Policies is discover_policies.go, Ppath is ppath.go: Streams has the functions that a cluster is
--     asked through, Primary has EnsurePpath, Constellation has EnsureConstellationPpath.
--   Admission: internal/webhook/vast_replication_crd_validation_webhook.go, one file for each group
--     of checks, and Handlers for the two Handle methods.
--   Controller: internal/controller. KeyLocker is key_locker.go, as atomic actions of threads. Content
--     and OwnerRefs are the deletion in vastreplicationcontent_controller.go, where a reconcile is one
--     step with the answers of the API server as an argument. Remap is pvcremap_controller.go: Pods has
--     the patches, Reconcile the two reconciles. Objects is replication_object_controller.go: Sync has
--     the shared helpers, Group reconcileVGR, Volume reconcileVR, and Touch the touch functions of
--     internal/common/k8s_client/vastreplicationcontent.go, whose patch of a
--     VRC (with PatchWithRetry of client.go) stands in Controller/Objects.antt.
--   Cosi: internal/common/cosi (flatten.go here, Bundle is credentials_bundle.go, Params is
--     parameters.go) and the two controllers of credentials: Flattener and Resync.
--   Webhooks: internal/webhook. PvcLabels is pvc_label_webhook.go, BucketParams is
--     bucket_params_webhook.go.
--   Errors: internal/common/errors/errors.go, internal/common/errors.go and the decision to try again
--     in internal/controller/errors.go and reconciler.go.
--   Scenarios: the theorems on concrete objects and services.
--
-- Conventions. An error is a constructor that names the branch which returned it; its text is left
-- out, except in Errors, where the code searches it. A pointer receiver that the code changes comes
-- back as a result. A Go map that is iterated is a list in some order. An int64 is its 64-bit pattern,
-- and arithmetic on it wraps. Calls of Kubernetes, of the VAST clusters, of time.Parse and of
-- encoding/json are parameters; what a theorem needs of them is a hypothesis that Scenarios fulfils.
--
-- Fuel. The loop of itoa recurses on the free places of its buffer. `WaitResource` is the only loop
-- with fuel: one round for each interval that fits into the timeout, and two for its ends, which the
-- theorem on it shows to be enough.
--
-- Not modelled: the reconcilers of VSCR and VVR, the provisioning of replicated volumes, object
-- builders, the provisioner, events, logs, commands, generated code, and the Python driver.
pub mod Prelude
pub mod Spec
pub mod K8s
pub mod Vms
pub mod Admission
pub mod Controller
pub mod Errors
pub mod Cosi
pub mod Webhooks
pub mod Scenarios
