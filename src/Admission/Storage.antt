-- ===== src/Admission/Storage.antt =====
-- `validateStorageClassConsistency`, `validateSubsystemLevelTenantName`, `validateSubsystemPresence`
-- and `validateVVRPVCStorageClass`.
use vast_csi.Prelude.{
  String, Bool, true, false, not, Option, none, some, List, [], ◌∷◌, str_eq, get_str, if◌then◌else◌,
}
use vast_csi.K8s.{StorageClass, is_block_storage_class}
use vast_csi.Admission.{
  Response, denied, errored, allow, class_not_found, no_pvc, pvc_without_class, pvc_of_other_class,
  mixed_drivers, missing_tenant_name, missing_subsystem, subsystem_absent, subsystem_exists,
}
use vast_csi.Admission.Clients.{Outside}

-- `==` on booleans
abbrev pub same_bool : Bool → Bool → Bool
same_bool true b = b
same_bool false b = not b

module _ {Rest E : Type 0} (outside : Outside Rest E) where
  unfoldable pub check_drivers : Bool → List String → Response
  check_drivers first_is_block [] = allow
  check_drivers first_is_block (sc_name ∷ more) =
      let rest = check_drivers first_is_block more in
      elim (outside.get_storage_class sc_name) [
        | none ↦ denied (class_not_found sc_name)
        | some sc ↦
            if same_bool (is_block_storage_class sc) first_is_block
            then rest
            else denied (mixed_drivers sc_name)
      ]

  unfoldable pub validate_storage_class_consistency : List String → Response
  validate_storage_class_consistency [] = allow
  validate_storage_class_consistency (first ∷ []) = allow
  validate_storage_class_consistency (first ∷ second ∷ more) =
      elim (outside.get_storage_class first) [
        | none ↦ denied (class_not_found first)
        | some sc ↦ check_drivers (is_block_storage_class sc) (second ∷ more)
      ]

  unfoldable pub validate_subsystem_level_tenant_name : String → List String → Response
  validate_subsystem_level_tenant_name primary_sc_name [] = allow
  validate_subsystem_level_tenant_name primary_sc_name (sc_name ∷ more) =
      let rest = validate_subsystem_level_tenant_name primary_sc_name more in
      if str_eq sc_name primary_sc_name then rest else elim (outside.get_storage_class sc_name) [
        | none ↦ denied (class_not_found sc_name)
        | some sc ↦
            if str_eq (get_str "tenant_name" sc.parameters) ""
            then denied (missing_tenant_name sc_name)
            else rest
      ]

  -- The answer on the view of one StorageClass.
  abbrev pub presence_answer : String → Bool → Option Bool → Response → Response
  presence_answer sc_name must_exist none rest = errored
  presence_answer sc_name true (some true) rest = rest
  presence_answer sc_name true (some false) rest = denied (subsystem_absent sc_name)
  presence_answer sc_name false (some true) rest = denied (subsystem_exists sc_name)
  presence_answer sc_name false (some false) rest = rest

  -- One StorageClass that exists; `rest` is the answer on those after it.
  unfoldable pub check_presence : String → Bool → StorageClass → Response → Response
  check_presence sc_name must_exist sc rest =
      let subsystem_name = get_str "subsystem" sc.parameters in
      if not (is_block_storage_class sc)
      then rest
      else if str_eq subsystem_name ""
      then denied (missing_subsystem sc_name)
      else elim (outside.new_from_storage_class sc) [
        | none ↦ errored
        | some client ↦
            presence_answer sc_name must_exist
              (outside.view_exists client subsystem_name (get_str "tenant_name" sc.parameters)) rest
      ]

  unfoldable pub validate_subsystem_presence : List String → Bool → Response
  validate_subsystem_presence [] must_exist = allow
  validate_subsystem_presence (sc_name ∷ more) must_exist =
      let rest = validate_subsystem_presence more must_exist in
      elim (outside.get_storage_class sc_name) [
        | none ↦ denied (class_not_found sc_name)
        | some sc ↦ check_presence sc_name must_exist sc rest
      ]

  unfoldable pub validate_vvr_pvc_storage_class : String → String → String → Response
  validate_vvr_pvc_storage_class ns volume_name primary = elim (outside.get_pvc ns volume_name) [
    | none ↦ denied no_pvc
    | some none ↦ denied pvc_without_class
    | some (some sc_name) ↦
        if str_eq sc_name ""
        then denied pvc_without_class
        else if str_eq sc_name primary
        then allow
        else denied pvc_of_other_class
  ]
