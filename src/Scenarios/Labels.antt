-- ===== src/Scenarios/Labels.antt =====
-- The theorem about the PVC webhook, on a StorageClass that one group of volumes has as a secondary.
use vast_csi.Prelude.{
  inl, inr, String, true, false, ◌≡◌, refl, some, List, [], ◌∷◌, ok, str_eq, str_eq_iff, lookup,
}
use vast_csi.K8s.{StorageClass}
use vast_csi.Webhooks.PvcLabels.{SiteState, PvcObject, FilterConfig, LabelApi, denied, handle_pvc}
use vast_csi.Webhooks.Refused.{handle_pvc-IsDeniedFor}

abbrev fast : StorageClass
fast = record { name = "fast"; provisioner = "csi.vastdata.com"; parameters = [] }

abbrev frozen : SiteState
frozen = record { secondary = true; resync = false }

abbrev cluster : LabelApi String
cluster = record {
  get_storage_class = λ _. ok fast;
  list_vgrs = λ _ _. ok (frozen ∷ []);
  list_vrs = λ _ _. ok [];
  matches = λ _ _. false;
}

abbrev filters : FilterConfig
filters = record {
  csi_driver_name = "csi.vastdata.com";
  csi_driver_name_regex = "";
  storage_class_name = "";
  storage_class_name_regex = "";
  pvc_name_regex = "";
}

abbrev pvc_of : List (String × String) → PvcObject
pvc_of labels = record {
  name = "data";
  namespace = "app";
  storage_class_name = some "fast";
  labels = labels;
}

handle_pvc-IsDeniedFor_example : (handle_pvc cluster filters [] (some (pvc_of []))).1 ≡ denied
unfolding str_eq lookup
handle_pvc-IsDeniedFor_example = (handle_pvc-IsDeniedFor cluster filters [] (pvc_of [])).1 (
  "fast",
  "csi.vastdata.com",
  (
    refl,
    (λ e. absurd (let t = (str_eq_iff "fast" "").1 e in cc)),
    inr (refl, (fast, refl, refl)),
    inl ((λ e. absurd (let t = (str_eq_iff "csi.vastdata.com" "").1 e in cc)), refl),
    (λ e. absurd (let t = (str_eq_iff "" "vast-extensions-controller").1 e in cc)),
    inl (frozen ∷ [], frozen, refl, inl refl, refl, refl),
  ),
)
