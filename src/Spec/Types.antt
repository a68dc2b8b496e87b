-- ===== src/Spec/Types.antt =====
-- extensions-controller/api/v1alpha1: the structs that a user writes.
use vast_csi.Prelude.{ℕ, Bool, String, List}

-- One undirected edge of the replication mesh.
pub record ReplicationTarget : Type 0 where
  pub source : String
  pub destination : String
  pub peer_name : String
  pub target_exported_dir : String

pub record ProtectionPolicyFrame : Type 0 where
  pub every : String
  pub keep_local : String
  pub keep_remote : String
  pub start_at : String

pub record ProtectionPolicyTemplate : Type 0 where
  pub params : List ProtectionPolicyFrame

-- `sync_interval_seconds` is the int64 as its 64-bit pattern.
pub record VastStorageClassReplicationSpec : Type 0 where
  pub primary_storage_class : String
  pub protection_topology : List ReplicationTarget
  pub protection_policy_template : ProtectionPolicyTemplate
  pub sync_interval_seconds : ℕ
  pub pvc_remap : Bool
  pub sync_pvcpv : Bool

pub record VastVolumeReplicationSpec : Type 0 where
  pub volume_name : String
  pub primary_storage_class : String
  pub protection_topology : List ReplicationTarget
  pub protection_policy_template : ProtectionPolicyTemplate
  pub sync_interval_seconds : ℕ
