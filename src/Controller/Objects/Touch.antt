-- ===== src/Controller/Objects/Touch.antt =====
-- The touch functions of internal/common/k8s_client/vastreplicationcontent.go: an annotation on the VRCs
-- of a VSCR makes their controller look at them again.
use vast_csi.Prelude.{
  String, ◌<>◌, not, List, [], ◌∷◌, Result, ok, err, str_eq, keep_if, if◌then◌else◌,
}
use vast_csi.Spec.Classes.{all_storage_classes}
use vast_csi.Controller.Objects.{Vrc, ParentCr, ObjectError, call_failed, ObjectApi, pvc_namespace}
use vast_csi.Controller.Objects.Sync.{ended}

-- The name under which `touchVRCsForStorageClasses` looks for the VRC of a StorageClass.
unfoldable pub touched_name : ParentCr → String → String
touched_name vscr sc_name = vscr.name <> ("-" <> sc_name)

module _ {W Rest E : Type 0} (api : ObjectApi W Rest E) where
  -- One round, after the read of the VRC.
  unfoldable pub touch_found : String → Result E Vrc → W → W × Result (ObjectError E) (Unit {0})
  touch_found key (err e) w = (w, (if api.is_not_found e then ok tt else err (call_failed e)))
  touch_found key (ok vrc) w = ended api (api.set_annotation vrc key w)

  -- The other rounds, unless this one has ended with an error.
  unfoldable pub touch_rest :
      (W → W × Result (ObjectError E) (Unit {0}))
      → W × Result (ObjectError E) (Unit {0})
      → W × Result (ObjectError E) (Unit {0})
  touch_rest others (w, ok _) = others w
  touch_rest others (w, err e) = (w, err e)

  -- `touchVRCsForStorageClasses`; the names that it returns are only logged.
  unfoldable pub touch_vrcs_for_storage_classes :
      ParentCr → List String → String → W → W × Result (ObjectError E) (Unit {0})
  touch_vrcs_for_storage_classes vscr [] key w = (w, ok tt)
  touch_vrcs_for_storage_classes vscr (sc_name ∷ sc_names) key w =
      touch_rest (touch_vrcs_for_storage_classes vscr sc_names key)
        (touch_found key (api.get_vrc (touched_name vscr sc_name) (pvc_namespace vscr) w) w)

  unfoldable pub touch_secondary_vrcs : ParentCr → W → W × Result (ObjectError E) (Unit {0})
  touch_secondary_vrcs vscr w =
      touch_vrcs_for_storage_classes vscr
        (keep_if (λ sc. not (str_eq sc vscr.primary_storage_class))
          (all_storage_classes vscr.protection_topology))
        "vastdata.com/mirror-sync-requested-at" w

  unfoldable pub touch_constellation_vrcs : ParentCr → W → W × Result (ObjectError E) (Unit {0})
  touch_constellation_vrcs vscr w =
      touch_vrcs_for_storage_classes vscr (all_storage_classes vscr.protection_topology)
        "vastdata.com/resync-requested-at" w
