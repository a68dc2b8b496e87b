-- ===== src/Vms/Policies.antt =====
-- extensions-controller/internal/common/vmsrest/discover_policies.go: the ProtectionPolicy of each
-- edge of the mesh. The calls on a cluster are arguments, and so is the client of a StorageClass.
pub mod Discovery
pub mod Deletion
pub mod Links
pub mod Cleanup
pub mod Entries
pub mod Reach
use vast_csi.Prelude.{
  ℕ, String, ◌<>◌, Bool, true, false, Option, none, some, List, [], ◌∷◌, ◌++◌, map, Result, ok, err,
  reject_if, str_eq, not, lookup, insert, append_to, if◌then◌else◌, ◌>>=◌ as ◌>>>=◌,
}
use vast_csi.Prelude.Effects.{Io, ◌>>=◌, ◌>>◌, done, lift, wrap}
use vast_csi.Spec.Types.{ReplicationTarget, ProtectionPolicyFrame, ProtectionPolicyTemplate}
use vast_csi.Vms.Tenants.{TenantInfo, TenantError, tenant_from_mapping}
use vast_csi.Vms.Wait.{WaitError, Clock, present, wait_for_resource}

pub record ReplicationEdge : Type 0 where
  pub side_a : String
  pub side_b : String
  pub peer_name : String

pub record ReplicationLink : Type 0 where
  pub policy_name : String
  pub policy_id : ℕ
  pub local_peer_target_name : String
  pub remote_peer_target_name : String
  pub local_peer_name : String
  pub remote_peer_name : String
  pub edge : ReplicationEdge
  pub local_tenant : TenantInfo
  pub remote_tenant : TenantInfo

-- `NewReplicationEdgesList`
unfoldable pub new_replication_edges_list : List ReplicationTarget → String → List ReplicationEdge
new_replication_edges_list [] primary_sc = []
new_replication_edges_list (t ∷ ts) primary_sc =
    let edges = new_replication_edges_list ts primary_sc in
    if str_eq t.destination primary_sc
    then record { side_a = t.destination; side_b = t.source; peer_name = t.peer_name } ∷ edges
    else record { side_a = t.source; side_b = t.destination; peer_name = t.peer_name } ∷ edges

pub record PolicyTemplateParams : Type 0 where
  pub owner_name : String
  pub frames : List (List (String × String))

-- `if v != "" { m[k] = v }`
abbrev pub set_if : String → String → List (String × String) → List (String × String)
set_if k v m = if str_eq v "" then m else insert k v m

unfoldable pub frame_params : ProtectionPolicyFrame → List (String × String)
frame_params f = set_if "start-at" f.start_at (
    set_if "keep-remote" f.keep_remote (set_if "keep-local" f.keep_local (("every", f.every) ∷ [])))

unfoldable pub spec_template_to_params : String → ProtectionPolicyTemplate → PolicyTemplateParams
spec_template_to_params owner_name tpl = record {
  owner_name = owner_name;
  frames = map frame_params tpl.params;
}

-- The fields of the models that the code reads.
pub record ReplicationPeer : Type 0 where
  pub id : ℕ
  pub name : String
  pub peer_name : String
  pub status : String

pub record ProtectionPolicy : Type 0 where
  pub id : ℕ
  pub name : String

-- The body of the request that creates a policy; `clone_type` is always NATIVE_REPLICATION.
pub record PolicyRequest : Type 0 where
  pub name : String
  pub target_object_id : ℕ
  pub prefix : String
  pub frames : List (List (String × String))
  pub tenant_id : ℕ
  pub remote_tenant_guid : String

-- The calls on a cluster. `create_policy` includes the decoding of its answer.
pub record PolicyApi (W Rest E : Type 0) : Type 0 where
  pub list_peers : Rest → List String → Io W E (List ReplicationPeer)
  pub get_policy : Rest → String → Io W E ProtectionPolicy
  pub create_policy : Rest → PolicyRequest → Io W E ProtectionPolicy
  pub policy_exists : Rest → String → Io W E Bool
  pub delete_policy : Rest → ℕ → Io W E (Unit {0})
  pub clock : Clock W

pub data PolicyError (E : Type 0) : Type 0 where
  list_failed : String → E → PolicyError E
  no_rest_client : String → PolicyError E
  tenant : TenantError → PolicyError E
  peer_not_found : String → PolicyError E
  peer_not_healthy : String → String → PolicyError E
  create_failed : String → E → PolicyError E
  not_mirrored : String → WaitError E → PolicyError E

-- StorageClass name to peer name to peer.
abbrev pub NativeTargets : Type 0
NativeTargets = List (String × List (String × ReplicationPeer))

unfoldable pub by_name_from :
    List (String × ReplicationPeer) → List ReplicationPeer → List (String × ReplicationPeer)
by_name_from by_name [] = by_name
by_name_from by_name (p ∷ peers) = by_name_from (insert p.name p by_name) peers

abbrev pub tenant_result :
    {E : Type 0} → Result TenantError TenantInfo → Result (PolicyError E) TenantInfo
tenant_result (ok t) = ok t
tenant_result (err e) = err (tenant e)

-- `restByStorageClass[scName]`
unfoldable pub find_client :
    {Rest E : Type 0} → List (String × Rest) → String → Result (PolicyError E) Rest
find_client clients sc_name = elim (lookup sc_name clients) [
  | none ↦ err (no_rest_client sc_name)
  | some rest ↦ ok rest
]

-- `nativeTargets[scName][peerName]`, where a missing cluster reads as an empty map.
unfoldable pub find_peer :
    {E : Type 0} → NativeTargets → String → String → Result (PolicyError E) ReplicationPeer
find_peer targets sc_name peer_name = elim (lookup sc_name targets) [
  | none ↦ err (peer_not_found sc_name)
  | some by_name ↦ elim (lookup peer_name by_name) [
    | none ↦ err (peer_not_found sc_name)
    | some peer ↦
        if str_eq peer.status "OK" then ok peer else err (peer_not_healthy sc_name peer.status)
  ]
]

-- `newReplicationLink`
abbrev pub new_replication_link :
    ProtectionPolicy
    → ReplicationPeer
    → ReplicationPeer
    → ReplicationEdge
    → TenantInfo
    → TenantInfo
    → ReplicationLink
new_replication_link policy peer_a peer_b edge local_tenant remote_tenant = record {
  policy_name = policy.name;
  policy_id = policy.id;
  local_peer_target_name = peer_a.name;
  remote_peer_target_name = peer_b.name;
  local_peer_name = peer_a.peer_name;
  remote_peer_name = peer_b.peer_name;
  edge = edge;
  local_tenant = local_tenant;
  remote_tenant = remote_tenant;
}

-- "{ownerName}-{peerName}"
abbrev pub policy_name_of : String → String → String
policy_name_of owner_name peer_name = owner_name <> "-" <> peer_name
