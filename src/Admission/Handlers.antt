-- ===== src/Admission/Handlers.antt =====
-- The two `Handle` methods. A decoder's answer is an argument: none stands for its error.
use vast_csi.Prelude.{String, Bool, true, Option, none, some, List, Result, ok, err, if◌then◌else◌}
use vast_csi.Spec.Types.{
  ReplicationTarget, VastStorageClassReplicationSpec, VastVolumeReplicationSpec,
}
use vast_csi.Spec.Classes.{all_storage_classes}
use vast_csi.Spec.Validation.{SpecError, validate_vscr, validate_vvr}
use vast_csi.K8s.{is_block_storage_class, is_subsystem_level}
use vast_csi.Admission.{Response, denied, errored, allow, ◌⨾◌, invalid_spec, class_not_found}
use vast_csi.Admission.Topology.{validate_topology_immutable}
use vast_csi.Admission.Clients.{Outside, validate_and_default_topology}
use vast_csi.Admission.Storage.{
  validate_storage_class_consistency, validate_subsystem_level_tenant_name,
  validate_subsystem_presence, validate_vvr_pvc_storage_class,
}
use vast_csi.Admission.Claims.{Replication, vscr, validate}

-- The operation, and the old topology of an update as the decoder gives it.
pub data Operation : Type 0 where
  create other : Operation
  update : Option (List ReplicationTarget) → Operation

abbrev pub update_response : Operation → List ReplicationTarget → Response
update_response create topology = allow
update_response other topology = allow
update_response (update none) topology = errored
update_response (update (some old)) topology = validate_topology_immutable old topology

abbrev pub spec_response : Result SpecError (Unit {0}) → Response
spec_response (ok _) = allow
spec_response (err e) = denied (invalid_spec e)

-- The part that runs on creation only.
abbrev pub on_create : Operation → Response → Response
on_create create r = r
on_create other r = allow
on_create (update _) r = allow

-- A request, with the JSON text of `peerName` in each entry of the topology as it was sent.
pub record Request (Spec : Type 0) : Type 0 where
  pub operation : Operation
  pub namespace : String
  pub name : String
  pub sent_peers : List String
  pub spec : Spec

module _ {Rest E : Type 0} (outside : Outside Rest E) (time_parse : String → String → Bool) where
  -- The checks on the subsystem in the creation of a VSCR.
  unfoldable pub check_primary : String → List ReplicationTarget → Response
  check_primary primary topology = elim (outside.get_storage_class primary) [
    | none ↦ denied (class_not_found primary)
    | some sc ↦
        if is_block_storage_class sc
        then if is_subsystem_level sc
          then validate_subsystem_level_tenant_name outside primary (all_storage_classes topology)
          else validate_subsystem_presence outside (all_storage_classes topology) true
        else allow
  ]

  unfoldable pub create_vscr : Request VastStorageClassReplicationSpec → Response
  create_vscr r =
      let (response, topology) =
        validate_and_default_topology outside r.sent_peers r.spec.protection_topology in
      response ⨾ check_primary r.spec.primary_storage_class topology

  -- `vscrAdmissionHandler.Handle`; the two lists are those of the objects in the cluster.
  unfoldable pub handle_vscr :
      Option (List Replication)
      → Option (List Replication)
      → Option (Request VastStorageClassReplicationSpec)
      → Response
  handle_vscr vscrs vvrs none = errored
  handle_vscr vscrs vvrs (some r) =
      update_response r.operation r.spec.protection_topology
      ⨾ spec_response (validate_vscr time_parse r.spec)
      ⨾ on_create r.operation (create_vscr r)
      ⨾ validate_storage_class_consistency outside (all_storage_classes r.spec.protection_topology)
      ⨾ validate vscrs vvrs (record { kind = vscr; namespace = r.namespace; name = r.name })
          (all_storage_classes r.spec.protection_topology)

  -- `pvc_namespace` is the value of `obj.PVCNamespace()`.
  unfoldable pub create_vvr : String → Request VastVolumeReplicationSpec → Response
  create_vvr pvc_namespace r =
      let (response, topology) =
        validate_and_default_topology outside r.sent_peers r.spec.protection_topology in
      response
      ⨾ validate_vvr_pvc_storage_class outside pvc_namespace r.spec.volume_name
          r.spec.primary_storage_class
      ⨾ validate_subsystem_presence outside (all_storage_classes topology) true

  -- `vvrAdmissionHandler.Handle`
  unfoldable pub handle_vvr : String → Option (Request VastVolumeReplicationSpec) → Response
  handle_vvr pvc_namespace none = errored
  handle_vvr pvc_namespace (some r) =
      update_response r.operation r.spec.protection_topology
      ⨾ spec_response (validate_vvr time_parse r.spec)
      ⨾ on_create r.operation (create_vvr pvc_namespace r)
      ⨾ validate_storage_class_consistency outside (all_storage_classes r.spec.protection_topology)
      ⨾ allow
