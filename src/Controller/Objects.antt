-- ===== src/Controller/Objects.antt =====
-- extensions-controller/internal/controller/replication_object_controller.go: the
-- VastReplicationContent (VRC) that stands for each VolumeGroupReplication (VGR) and each
-- VolumeReplication (VR), and what of internal/common/k8s_client it calls. Events and logs are left out.
pub mod Sync
pub mod Group
pub mod Volume
pub mod Laws
pub mod Stored
pub mod Pvcs
pub mod Touch
pub mod Names
use vast_csi.Prelude.{
  ℕ, String, Bool, true, false, not, ◌||◌, ◌&&◌, Option, none, some, List, [], ◌∷◌, Result, ok, err,
  str_eq, get_str, trim_space, if◌then◌else◌,
}
use vast_csi.Spec.Types.{ReplicationTarget}
use vast_csi.K8s.{StorageClass}

pub data ProvisionerType : Type 0 where
  block file : ProvisionerType

pub data DestinationKind : Type 0 where
  volume_replication volume_group_replication : DestinationKind

pub record VrcSpec : Type 0 where
  pub storage_class : String
  pub kind : DestinationKind
  pub pvcs : List String
  pub sync_pvcpv : Bool
  pub provisioner_type : ProvisionerType
  pub replication_state : String
  pub protected_path_name : String
  pub replication_path : String
  pub protection_policy_names : List String

pub record Vrc : Type 0 where
  pub name : String
  pub namespace : String
  pub labels : List (String × String)
  pub finalizers : List String
  pub owners : List (String × String)
  pub deleting : Bool
  pub spec : VrcSpec

-- A VGR or VR. `state` is the status in lower case, with none for Unknown. `selector` is the label
-- selector of a VGR, `data_source` the PVC of a VR, and an owner is its kind and name.
pub record Object : Type 0 where
  pub name : String
  pub namespace : String
  pub labels : List (String × String)
  pub owners : List (String × String)
  pub deleting : Bool
  pub state : Option String
  pub selector : Option (List (String × String))
  pub pvc_refs : List String
  pub data_source : String

-- A VSCR or VVR. `ppath_name` is in its status.
pub record ParentCr : Type 0 where
  pub name : String
  pub namespace : String
  pub volume_namespace : String
  pub primary_storage_class : String
  pub protection_topology : List ReplicationTarget
  pub sync_pvcpv : Bool
  pub ppath_name : String

pub record SourcePath : Type 0 where
  pub name : String
  pub source_dir : String

-- What can end a reconcile. `retry_after` asks for a delay in seconds.
pub data ObjectError (E : Type 0) : Type 0 where
  call_failed client_failed path_query_failed : E → ObjectError E
  missing_label no_owner no_policies vrc_terminating : ObjectError E
  retry_after : ℕ → ObjectError E → ObjectError E
  not_found : E → ObjectError E

-- The calls: of the API server, of a VAST cluster, and of the backoff of the object. `patch_vrc` is the
-- merge patch from a first object to a second one, and `retry_on_conflict` is that of client-go.
pub record ObjectApi (W Rest E : Type 0) : Type 0 where
  pub is_not_found : E → Bool
  pub is_network_error : ObjectError E → Bool
  pub next_backoff : ℕ
  pub get_object : String → String → Result E Object
  pub get_parent : String → String → Result E ParentCr
  pub get_storage_class : String → Result E StorageClass
  pub new_from_storage_class : StorageClass → Result E Rest
  pub is_missing_path : E → Bool
  pub get_ppath : Rest → String → Result E SourcePath
  pub set_owner : Object → Vrc → Result E Vrc
  pub get_vrc : String → String → W → Result E Vrc
  pub create_vrc : Vrc → W → W × Result E (Unit {0})
  pub patch_vrc : Vrc → Vrc → W → W × Result E (Unit {0})
  pub retry_on_conflict : (W → W × Result E (Unit {0})) → W → W × Result E (Unit {0})
  pub delete_vrc : Vrc → W → W × Result E (Unit {0})
  pub set_annotation : Vrc → String → W → W × Result E (Unit {0})

-- `OwnerByKind`
unfoldable pub owner_by_kind : String → List (String × String) → Option String
owner_by_kind kind [] = none
owner_by_kind kind ((k, name) ∷ refs) = if str_eq k kind then some name else owner_by_kind kind refs

-- `ParentNamespace`
unfoldable pub parent_namespace : List (String × String) → String → String → String
parent_namespace labels ns_key fallback =
    let ns = trim_space (get_str ns_key labels) in if str_eq ns "" then fallback else ns

-- `ParentCRFromObject`: name and namespace.
unfoldable pub parent_cr_from_object : Object → String → String → String → String × String
parent_cr_from_object obj name_label ns_label owner_kind =
    let name = get_str name_label obj.labels in
    let ns = parent_namespace obj.labels ns_label obj.namespace in
    elim (owner_by_kind owner_kind obj.owners) [
      | none ↦ (name, ns)
      | some owner ↦ if str_eq name "" then (owner, obj.namespace) else (name, ns)
    ]

-- `PVCNamespace`
unfoldable pub pvc_namespace : ParentCr → String
pvc_namespace parent =
    let ns = trim_space parent.volume_namespace in if str_eq ns "" then parent.namespace else ns

-- `PatchWithRetry` and `PatchVastReplicationContentSpec`: the object is read again before it is patched.
module _ {W Rest E : Type 0} (api : ObjectApi W Rest E) where
  unfoldable pub patch_read : (Vrc → Vrc) → Result E Vrc → W → W × Result E (Unit {0})
  patch_read mutate_fn (err e) w = (w, err e)
  patch_read mutate_fn (ok base) w = api.patch_vrc base (mutate_fn base) w

  unfoldable pub patch_with_retry : String → String → (Vrc → Vrc) → W → W × Result E (Unit {0})
  patch_with_retry name ns mutate_fn =
      api.retry_on_conflict (λ w. patch_read mutate_fn (api.get_vrc name ns w) w)

  abbrev pub with_desired : Vrc → Vrc → Vrc
  with_desired vrc read = record read {
    spec = record read.spec {
      pvcs = vrc.spec.pvcs;
      replication_state = vrc.spec.replication_state;
    };
  }

  unfoldable pub patch_vrc_spec : Vrc → W → W × Result E (Unit {0})
  patch_vrc_spec vrc = patch_with_retry vrc.name vrc.namespace (with_desired vrc)
