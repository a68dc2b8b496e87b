-- ===== src/Scenarios.antt =====
-- Concrete objects and services on which the theorems are used.
mod Specs
mod Clusters
mod Webhooks
mod Paths
mod Locks
mod Contents
mod Owners
mod Tenants
mod Remaps
mod Replicas
mod Credentials
mod Labels
mod Failed
mod Deletions
use vast_csi.Prelude.{
  String, ℕ, Bool, true, false, Option, none, some, Result, ok, List, [], ◌∷◌, keep_if, has,
}
use vast_csi.Spec.Types.{
  ReplicationTarget, ProtectionPolicyFrame, ProtectionPolicyTemplate,
  VastStorageClassReplicationSpec, VastVolumeReplicationSpec,
}

abbrev pub edge_of : String → String → String → ReplicationTarget
edge_of source destination peer = record {
  source = source;
  destination = destination;
  peer_name = peer;
  target_exported_dir = "";
}

-- Three StorageClasses, all connected.
abbrev pub triangle : List ReplicationTarget
triangle =
    edge_of "gold" "silver" "p" ∷ edge_of "bronze" "gold" "" ∷ edge_of "silver" "bronze" "r" ∷ []

abbrev pub hourly : ProtectionPolicyTemplate
hourly = record {
  params = record { every = "1h"; keep_local = ""; keep_remote = "2d"; start_at = "" } ∷ [];
}

abbrev pub gold_vscr : VastStorageClassReplicationSpec
gold_vscr = record {
  primary_storage_class = "gold";
  protection_topology = triangle;
  protection_policy_template = hourly;
  sync_interval_seconds = 0;
  pvc_remap = false;
  sync_pvcpv = true;
}

abbrev pub gold_vvr : VastVolumeReplicationSpec
gold_vvr = record {
  volume_name = "data";
  primary_storage_class = "gold";
  protection_topology = triangle;
  protection_policy_template = hourly;
  sync_interval_seconds = 0;
}

-- A `time.Parse` that knows no text.
abbrev pub no_layout : String → String → Bool
no_layout layout text = false

-- A cluster that is the list of its peers.
abbrev pub list_names : List String → Option (List String) → Result String (List String)
list_names peers none = ok peers
list_names peers (some names) = ok (keep_if (λ n. has n names) peers)

abbrev pub clusters : List (String × List String)
clusters =
    ("gold", "p" ∷ "q" ∷ []) ∷ ("silver", "p" ∷ "r" ∷ []) ∷ ("bronze", "q" ∷ "r" ∷ "s" ∷ []) ∷ []
