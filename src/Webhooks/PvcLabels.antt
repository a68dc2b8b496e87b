-- ===== src/Webhooks/PvcLabels.antt =====
-- internal/webhook/pvc_label_webhook.go. The texts of the responses and the logs are left out, and so is
-- the marshalling of a PVC that was decoded before. `matches` is the match of a pattern with a text.
use vast_csi.Prelude.{
  String, Bool, true, false, not, ◌||◌, ◌&&◌, Option, none, some, List, [], ◌∷◌, Result, ok, err,
  str_eq, any, lookup, insert, has_key, get_str, if◌then◌else◌,
}
use vast_csi.K8s.{StorageClass}

-- A PVC; `storage_class_name` is the pointer, with none for nil.
pub record PvcObject : Type 0 where
  pub name : String
  pub namespace : String
  pub storage_class_name : Option String
  pub labels : List (String × String)

pub record ScInfo : Type 0 where
  pub provisioner : String
  pub subsystem : String

-- A VGR or VR: whether its status is Secondary, and whether its spec asks for a resync.
pub record SiteState : Type 0 where
  pub secondary : Bool
  pub resync : Bool

pub record FilterConfig : Type 0 where
  pub csi_driver_name : String
  pub csi_driver_name_regex : String
  pub storage_class_name : String
  pub storage_class_name_regex : String
  pub pvc_name_regex : String

pub record LabelApi (E : Type 0) : Type 0 where
  pub get_storage_class : String → Result E StorageClass
  pub list_vgrs : String → List (String × String) → Result E (List SiteState)
  pub list_vrs : String → List (String × String) → Result E (List SiteState)
  pub matches : String → String → Bool

-- An admission response; a patch is told by the labels of the PVC afterwards.
pub data PvcResponse : Type 0 where
  allowed denied : PvcResponse
  patched : List (String × String) → PvcResponse

abbrev pub Cache : Type 0
Cache = List (String × ScInfo)

-- The order is that of the code: a fixed name goes before a pattern.
unfoldable pub matches_filter : (String → String → Bool) → String → String → Bool → String → Bool
matches_filter matches name regex otherwise s =
    if not (str_eq name "")
    then str_eq s name
    else if not (str_eq regex "")
    then matches regex s
    else otherwise

-- A site that has become read-only; csi-addons reports Secondary during a resync too.
unfoldable pub is_read_only : SiteState → Bool
is_read_only site = site.secondary && not site.resync

module _ {E : Type 0} (api : LabelApi E) where
  -- What follows the read of the StorageClass.
  unfoldable pub fetched : Cache → String → Result E StorageClass → Cache × Result E ScInfo
  fetched cache sc_name (err e) = (cache, err e)
  fetched cache sc_name (ok sc) =
      let info : ScInfo = record {
        provisioner = sc.provisioner;
        subsystem = get_str "subsystem" sc.parameters;
      } in
      (insert sc_name info cache, ok info)

  unfoldable pub cached_sc_info : Cache → String → Cache × Result E ScInfo
  cached_sc_info cache sc_name = elim (lookup sc_name cache) [
    | some info ↦ (cache, ok info)
    | none ↦ fetched cache sc_name (api.get_storage_class sc_name)
  ]

  -- A list that fails is logged, and nothing is denied for it.
  unfoldable pub any_read_only : Result E (List SiteState) → Bool
  any_read_only (ok sites) = any is_read_only sites
  any_read_only (err e) = false

  unfoldable pub check_replication_state : String → String → Bool
  check_replication_state namespace sc_name =
      let selector =
        ("app.kubernetes.io/managed-by", "vast-extensions-controller")
        ∷ ("vastdata.com/storageClass", sc_name)
        ∷ [] in
      any_read_only (api.list_vgrs namespace selector)
      || any_read_only (api.list_vrs namespace selector)

  unfoldable pub is_managed : PvcObject → Bool
  is_managed pvc =
      str_eq (get_str "app.kubernetes.io/managed-by" pvc.labels) "vast-extensions-controller"

  unfoldable pub add_storage_class : String → List (String × String) → List (String × String)
  add_storage_class sc_name labels =
      if has_key "vastdata.com/storageClass" labels
      then labels
      else insert "vastdata.com/storageClass" sc_name labels

  unfoldable pub lacks_subsystem : ScInfo → List (String × String) → Bool
  lacks_subsystem info labels =
      not (str_eq info.subsystem "") && not (has_key "vastdata.com/subsystem" labels)

  unfoldable pub inject_labels : String → ScInfo → List (String × String) → PvcResponse
  inject_labels sc_name info labels =
      let first = add_storage_class sc_name labels in
      if has_key "vastdata.com/storageClass" labels && not (lacks_subsystem info first)
      then allowed
      else if lacks_subsystem info first
      then patched (insert "vastdata.com/subsystem" info.subsystem first)
      else patched first

  -- From the filter by driver on.
  unfoldable pub respond : FilterConfig → PvcObject → String → Result E ScInfo → PvcResponse
  respond cfg pvc sc_name (err e) = allowed
  respond cfg pvc sc_name (ok info) =
      if not (
        matches_filter api.matches cfg.csi_driver_name cfg.csi_driver_name_regex false
          info.provisioner)
      then allowed
      else if not (is_managed pvc) && check_replication_state pvc.namespace sc_name
      then denied
      else if not (
          matches_filter api.matches cfg.storage_class_name cfg.storage_class_name_regex true
            sc_name)
      then allowed
      else if not (matches_filter api.matches "" cfg.pvc_name_regex true pvc.name)
      then allowed
      else inject_labels sc_name info pvc.labels

  unfoldable pub handle_named : FilterConfig → Cache → PvcObject → String → Cache × PvcResponse
  handle_named cfg cache pvc sc_name =
      let seen = cached_sc_info cache sc_name in (seen.0, respond cfg pvc sc_name seen.1)

  -- `Handle`; `none` is a request that cannot be decoded.
  unfoldable pub handle_pvc : FilterConfig → Cache → Option PvcObject → Cache × PvcResponse
  handle_pvc cfg cache none = (cache, allowed)
  handle_pvc cfg cache (some pvc) = elim pvc.storage_class_name [
    | none ↦ (cache, allowed)
    | some sc_name ↦
        if str_eq sc_name "" then (cache, allowed) else handle_named cfg cache pvc sc_name
  ]
