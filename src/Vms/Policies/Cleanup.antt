-- ===== src/Vms/Policies/Cleanup.antt =====
-- The map of ProtectionPolicyNamesByStorageClass, against the edges of the mesh.
use vast_csi.Prelude.{
  String, Bool, not, ◌&&◌, ◌||◌, ◌≡◌, ap, ◌∙◌, List, [], ◌∷◌, arith, any, has, has-++, str_eq,
  append_to, get_list, get_list-append_to, get_list-nil,
}
use vast_csi.Spec.Types.{ReplicationTarget}
use vast_csi.Vms.Policies.{ReplicationEdge, new_replication_edges_list, policy_name_of}
use vast_csi.Vms.Policies.Deletion.{
  note_policy, policy_names_from, protection_policy_names_by_storage_class,
}

has-append_to :
    (k j x name : String) (m : List (String × List String))
    → has name (get_list j (append_to k x m))
      ≡ (has name (get_list j m) || (str_eq k j && str_eq x name))
unfolding has
has-append_to k j x name m =
    ap (has name) (get_list-append_to k j x m) ∙ ground (arith, has-++ name (get_list j m) (x ∷ []))

-- The edge has a policy of that name, on that StorageClass's cluster.
abbrev pub has_policy_on : String → String → String → ReplicationEdge → Bool
has_policy_on owner_name sc name e =
    not (str_eq e.peer_name "")
    && (str_eq e.side_a sc || str_eq e.side_b sc)
    && str_eq (policy_name_of owner_name e.peer_name) name

has-note_policy :
    (owner_name primary_sc sc name : String) (names : List (String × List String))
    (t : ReplicationTarget) (ts : List ReplicationTarget)
    → (has name (get_list sc (note_policy owner_name primary_sc names t))
        || any (has_policy_on owner_name sc name) (new_replication_edges_list ts primary_sc))
      ≡ (has name (get_list sc names)
          || any
              (has_policy_on owner_name sc name)
              (new_replication_edges_list (t ∷ ts) primary_sc))
unfolding new_replication_edges_list
has-note_policy owner_name primary_sc sc name names t ts =
    let policy = policy_name_of owner_name t.peer_name in
    let src = has-append_to t.source sc policy name names in
    let dst = has-append_to t.destination sc policy name names in
    let src_dst = has-append_to t.source sc policy name (append_to t.destination policy names) in
    let dst_src = has-append_to t.destination sc policy name (append_to t.source policy names) in
    ground arith

policy_names_from_lem :
    (owner_name primary_sc sc name : String) (names : List (String × List String))
    (topology : List ReplicationTarget)
    → has name (get_list sc (policy_names_from owner_name primary_sc names topology)) ≡ (
        has name (get_list sc names)
        || any (has_policy_on owner_name sc name) (new_replication_edges_list topology primary_sc))
unfolding policy_names_from new_replication_edges_list
policy_names_from_lem owner_name primary_sc sc name names [] = ground arith
policy_names_from_lem owner_name primary_sc sc name names (t ∷ ts) =
    policy_names_from_lem owner_name primary_sc sc name (note_policy owner_name primary_sc names t)
      ts
    ∙ has-note_policy owner_name primary_sc sc name names t ts

-- The map has a policy name under a StorageClass exactly when some edge that `DiscoverLinkPolicies`
-- works on has its policy under that name there, on either side.
pub protection_policy_names_iff :
    (owner_name primary_sc sc name : String) (topology : List ReplicationTarget)
    → has name
        (get_list sc (protection_policy_names_by_storage_class owner_name primary_sc topology))
      ≡ any (has_policy_on owner_name sc name) (new_replication_edges_list topology primary_sc)
unfolding protection_policy_names_by_storage_class has
protection_policy_names_iff owner_name primary_sc sc name topology =
    policy_names_from_lem owner_name primary_sc sc name [] topology
    ∙ ground (arith, get_list-nil {A = String} sc)
