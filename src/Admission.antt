-- ===== src/Admission.antt =====
-- extensions-controller/internal/webhook/vast_replication_crd_validation_webhook.go: the admission of
-- VastStorageClassReplication and VastVolumeReplication. What the code reads of Kubernetes and of the
-- clusters is an argument; a response keeps the branch that made it, and the index its message shows.
pub mod Topology
pub mod Clients
pub mod Storage
pub mod Claims
pub mod Handlers
pub mod Shape
pub mod Exclusive
pub mod Laws
use vast_csi.Prelude.{ℕ, String, Bool, true, false, Option, none, some, List}
use vast_csi.Spec.Validation.{SpecError}
use vast_csi.Vms.Peers.{PeerError}

pub data Denial : Type 0 where
  entries_changed : Denial
  ends_changed dir_changed : ℕ → Denial
  invalid_spec : SpecError → Denial
  class_not_found : String → Denial
  invalid_peer : ℕ → PeerError → Denial
  no_pvc pvc_without_class pvc_of_other_class : Denial
  mixed_drivers missing_tenant_name missing_subsystem : String → Denial
  subsystem_absent subsystem_exists : String → Denial
  already_used : String → Denial

-- `admission.Response`. The patch is the new text of the `peerName` of each entry.
pub data Response : Type 0 where
  allowed : Option (List String) → Response
  denied : Denial → Response
  errored : Response

abbrev pub is_allowed : Response → Bool
is_allowed (allowed _) = true
is_allowed (denied _) = false
is_allowed errored = false

abbrev pub patch_of : Response → Option (List String)
patch_of (allowed patch) = patch
patch_of (denied _) = none
patch_of errored = none

-- `admission.Allowed("")`
abbrev pub allow : Response
allow = allowed none

-- `if resp := ...; !resp.Allowed { return resp }`, and the rest of the function.
infixr 5 ◌⨾◌
abbrev pub ◌⨾◌ : Response → Response → Response
allowed _ ⨾ s = s
denied d ⨾ s = denied d
errored ⨾ s = errored
