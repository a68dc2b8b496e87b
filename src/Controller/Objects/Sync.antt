-- ===== src/Controller/Objects/Sync.antt =====
-- The helpers that both reconciles of replication_object_controller.go share.
use vast_csi.Prelude.{
  String, Bool, true, false, not, ◌||◌, ◌&&◌, Option, none, some, List, [], ◌∷◌, Result, ok, err,
  str_eq, get_list, if◌then◌else◌,
}
use vast_csi.Spec.Types.{ReplicationTarget}
use vast_csi.K8s.{StorageClass, is_block_storage_class}
use vast_csi.Vms.Policies.Deletion.{protection_policy_names_by_storage_class}
use vast_csi.Controller.Objects.{
  ProvisionerType, block, file, DestinationKind, Vrc, Object, ParentCr, SourcePath, ObjectError,
  call_failed, client_failed, path_query_failed, no_policies, retry_after, not_found, ObjectApi,
}

-- `DisplayableList.Equal`
unfoldable pub same_list : List String → List String → Bool
same_list [] [] = true
same_list [] (_ ∷ _) = false
same_list (_ ∷ _) [] = false
same_list (a ∷ rest) (b ∷ others) = str_eq a b && same_list rest others

-- The object afterwards, and whether it has changed.
unfoldable pub sync_vrc_pvcs : Vrc → List String → Vrc × Bool
sync_vrc_pvcs vrc pvcs =
    if same_list pvcs vrc.spec.pvcs
    then (vrc, false)
    else (record vrc { spec = record vrc.spec { pvcs = pvcs } }, true)

unfoldable pub sync_vrc_replication_state : Vrc → String → Vrc × Bool
sync_vrc_replication_state vrc state =
    if str_eq state "" || str_eq vrc.spec.replication_state state
    then (vrc, false)
    else (record vrc { spec = record vrc.spec { replication_state = state } }, true)

-- `strings.ToLower` has been applied to `state`.
unfoldable pub current_state_str : Option String → String
current_state_str none = ""
current_state_str (some state) = state

unfoldable pub initial_state_from_primary : String → String → String → String
initial_state_from_primary current source_sc_name primary_sc_name =
    if not (str_eq current "")
    then current
    else if str_eq source_sc_name primary_sc_name
    then "primary"
    else "secondary"

unfoldable pub provisioner_of : StorageClass → ProvisionerType
provisioner_of sc = if is_block_storage_class sc then block else file

abbrev pub is_nil_list : List String → Bool
is_nil_list [] = true
is_nil_list (_ ∷ _) = false

module _ {E : Type 0} where
  unfoldable pub protection_policy_names_for_vrc :
      String → String → List ReplicationTarget → String → Result (ObjectError E) (List String)
  protection_policy_names_for_vrc owner_name primary_sc topology sc_name =
      let names =
        get_list sc_name
          (protection_policy_names_by_storage_class owner_name primary_sc topology) in
      if is_nil_list names then err no_policies else ok names

-- The new object, as `buildContent` and what follows it fill it in.
unfoldable pub new_vrc :
    DestinationKind
    → Bool
    → Object
    → ParentCr
    → StorageClass
    → String
    → String
    → String
    → List String
    → List (String × String)
    → SourcePath
    → List String
    → Vrc
new_vrc kind sync_pvcpv obj parent sc sc_name name ns pvcs labels path policies = record {
  name = name;
  namespace = ns;
  labels = labels;
  finalizers = "vastdata.com/replication-content-protection" ∷ [];
  owners = [];
  deleting = false;
  spec = record {
    storage_class = sc_name;
    kind = kind;
    pvcs = pvcs;
    sync_pvcpv = sync_pvcpv;
    provisioner_type = provisioner_of sc;
    replication_state =
        initial_state_from_primary (current_state_str obj.state) sc_name
          parent.primary_storage_class;
    protected_path_name = path.name;
    replication_path = path.source_dir;
    protection_policy_names = policies;
  };
}

module _ {W Rest E : Type 0} (api : ObjectApi W Rest E) where
  abbrev pub found_path : Result E SourcePath → Result (ObjectError E) SourcePath
  found_path (ok path) = ok path
  found_path (err e) =
      if api.is_missing_path e
      then err (retry_after 60 (not_found e))
      else err (path_query_failed e)

  abbrev pub query_path : String → Result E Rest → Result (ObjectError E) SourcePath
  query_path ppath_name (err e) = err (client_failed e)
  query_path ppath_name (ok rest) = found_path (api.get_ppath rest ppath_name)

  unfoldable pub resolve_source_ppath : StorageClass → String → Result (ObjectError E) SourcePath
  resolve_source_ppath sc ppath_name = query_path ppath_name (api.new_from_storage_class sc)

  -- `handlePPathNetworkError`, and the return where it gives nothing.
  unfoldable pub ppath_error : ObjectError E → ObjectError E
  ppath_error e = if api.is_network_error e then retry_after api.next_backoff e else e

  -- A call whose error ends the reconcile.
  abbrev pub ended : W × Result E (Unit {0}) → W × Result (ObjectError E) (Unit {0})
  ended (w, ok _) = (w, ok tt)
  ended (w, err e) = (w, err (call_failed e))

  -- A read: an object that is not there ends the reconcile without an error.
  unfoldable pub absent_or_failed : {A : Type 0} → A → E → Result (ObjectError E) A
  absent_or_failed a e = if api.is_not_found e then ok a else err (call_failed e)

  abbrev pub read : {A : Type 0} → Result E A → Result (ObjectError E) A
  read (ok a) = ok a
  read (err e) = err (call_failed e)

  -- The branch of a VGR or VR that is being deleted, after the read of its VRC.
  unfoldable pub delete_its_vrc : Result E Vrc → W → W × Result (ObjectError E) (Unit {0})
  delete_its_vrc (err e) w = (w, absent_or_failed tt e)
  delete_its_vrc (ok vrc) w = if vrc.deleting then (w, ok tt) else ended (api.delete_vrc vrc w)

  unfoldable pub create_owned : Result E Vrc → W → W × Result (ObjectError E) (Unit {0})
  create_owned (err e) w = (w, err (call_failed e))
  create_owned (ok vrc) w = ended (api.create_vrc vrc w)

  -- The creation, after the protected path of the source has been looked up.
  unfoldable pub create_with :
      DestinationKind
      → Bool
      → Object
      → ParentCr
      → StorageClass
      → String
      → String
      → String
      → List String
      → List (String × String)
      → Result (ObjectError E) SourcePath
      → W
      → W × Result (ObjectError E) (Unit {0})
  create_with kind sync_pvcpv obj parent sc sc_name name ns pvcs labels (err e) w =
      (w, err (ppath_error e))
  create_with kind sync_pvcpv obj parent sc sc_name name ns pvcs labels (ok path) w =
      let policies =
        protection_policy_names_for_vrc {E = E} parent.name parent.primary_storage_class
          parent.protection_topology sc_name in
      elim policies [
        | err e ↦ (w, err e)
        | ok names ↦
            create_owned
              (api.set_owner obj
                (new_vrc kind sync_pvcpv obj parent sc sc_name name ns pvcs labels path names))
              w
      ]
