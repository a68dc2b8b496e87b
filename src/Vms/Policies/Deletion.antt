-- ===== src/Vms/Policies/Deletion.antt =====
-- `ProtectionPolicyNamesByStorageClass` and `DeleteProtectionPolicies` of discover_policies.go. Errors
-- are logged and left at that, so the deletion returns the changed world only.
use vast_csi.Prelude.{String, List, [], ◌∷◌, Result, ok, err, str_eq, append_to, if◌then◌else◌}
use vast_csi.Prelude.Effects.{Io}
use vast_csi.Spec.Types.{ReplicationTarget}
use vast_csi.Vms.Policies.{ProtectionPolicy, PolicyApi, policy_name_of}

-- One entry of `ProtectionPolicyNamesByStorageClass`.
abbrev pub note_policy :
    String → String → List (String × List String) → ReplicationTarget → List (String × List String)
note_policy owner_name primary_sc names t =
    let policy_name = policy_name_of owner_name t.peer_name in
    if str_eq t.peer_name ""
    then names
    else if str_eq t.destination primary_sc
    then append_to t.source policy_name (append_to t.destination policy_name names)
    else append_to t.destination policy_name (append_to t.source policy_name names)

unfoldable pub policy_names_from :
    String
    → String
    → List (String × List String)
    → List ReplicationTarget
    → List (String × List String)
policy_names_from owner_name primary_sc names [] = names
policy_names_from owner_name primary_sc names (t ∷ ts) =
    policy_names_from owner_name primary_sc (note_policy owner_name primary_sc names t) ts

unfoldable pub protection_policy_names_by_storage_class :
    String → String → List ReplicationTarget → List (String × List String)
protection_policy_names_by_storage_class owner_name primary_sc topology =
    policy_names_from owner_name primary_sc [] topology

module _ {W Rest E : Type 0} (api : PolicyApi W Rest E) (client_of : String → Io W E Rest) where
  -- The body of the inner loop of `DeleteProtectionPolicies`: errors are logged only.
  unfoldable pub delete_found : Rest → W × Result E ProtectionPolicy → W
  delete_found rest (w, ok policy) = (api.delete_policy rest policy.id w).0
  delete_found rest (w, err _) = w

  unfoldable pub delete_policies : Rest → List String → W → W
  delete_policies rest [] w = w
  delete_policies rest (name ∷ names) w =
      delete_policies rest names (delete_found rest (api.get_policy rest name w))

  unfoldable pub delete_with : List String → W × Result E Rest → W
  delete_with names (w, ok rest) = delete_policies rest names w
  delete_with names (w, err _) = w

  unfoldable pub delete_all_policies : List (String × List String) → W → W
  delete_all_policies [] w = w
  delete_all_policies ((sc_name, names) ∷ more) w =
      delete_all_policies more (delete_with names (client_of sc_name w))

  unfoldable pub delete_protection_policies : String → String → List ReplicationTarget → W → W
  delete_protection_policies owner_name primary_sc topology =
      delete_all_policies (protection_policy_names_by_storage_class owner_name primary_sc topology)
