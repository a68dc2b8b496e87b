-- ===== src/Controller/Remap/Reconcile.antt =====
-- `Reconcile` of pvcremap_controller.go for both kinds of parent, and the names of the requests that its
-- watches enqueue.
use vast_csi.Prelude.{
  String, ◌<>◌, dots_to_dashes, Bool, not, ◌||◌, List, [], ◌∷◌, Result, ok, err, ◌>>=◌,
  if◌then◌else◌,
}
use vast_csi.K8s.{has_prefix, trim_prefix}
use vast_csi.Controller.Remap.{
  Pvc, RemapApi, RemapError, get_object, list_mirrors, Table, managed, build_sibling_remap_table,
}
use vast_csi.Controller.Remap.Pods.{do_remap}

-- A VSCR or VVR, as far as it is read; `pvc_namespace` is what `PVCNamespace` returns.
pub record Parent : Type 0 where
  pub pvc_remap : Bool
  pub deleting : Bool
  pub primary_storage_class : String
  pub pvc_namespace : String
  pub volume_name : String

-- A VolumeGroupReplication or VolumeReplication: whether its spec and its status are at primary, and the
-- PVCs of a group.
pub record Replicated : Type 0 where
  pub spec_primary : Bool
  pub status_primary : Bool
  pub pvc_refs : List String

pub record ParentApi (E : Type 0) : Type 0 where
  pub get_vscr : String → String → Result E Parent
  pub get_vvr : String → String → Result E Parent
  pub get_vgr : String → String → Result E Replicated
  pub get_vr : String → String → Result E Replicated

unfoldable pub vgr_name_for_sc : String → String → String
vgr_name_for_sc vscr_name sc_name = vscr_name <> ("-" <> dots_to_dashes sc_name)

unfoldable pub vr_name_for_sc : String → String → String
vr_name_for_sc vvr_name sc_name = vvr_name <> ("-" <> dots_to_dashes sc_name)

abbrev pub label_storage_class : String
label_storage_class = "vastdata.com/storageClass"

abbrev pub label_source_vvr : String
label_source_vvr = "vastdata.com/source-vvr"

module _ {W E : Type 0} (api : RemapApi W E) (parents : ParentApi E) where
  -- A read that failed: an object that is not there is no error.
  unfoldable pub missing : E → W → W × Result (RemapError E) (Unit {0})
  missing e w = (w, (if api.is_not_found e then ok tt else err (get_object e)))

  -- What follows the read of the VGR or VR, with the way to build the table.
  unfoldable pub remap_confirmed :
      String
      → (Replicated → Result (RemapError E) Table)
      → Result E Replicated
      → W
      → W × Result (RemapError E) (Unit {0})
  remap_confirmed ns build (err e) w = missing e w
  remap_confirmed ns build (ok object) w =
      if not object.spec_primary || not object.status_primary
      then (w, ok tt)
      else do_remap api ns (build object) w

  unfoldable pub after_vscr : String → Result E Parent → W → W × Result (RemapError E) (Unit {0})
  after_vscr name (err e) w = missing e w
  after_vscr name (ok vscr) w =
      if not vscr.pvc_remap || vscr.deleting
      then (w, ok tt)
      else remap_confirmed vscr.pvc_namespace
          (λ vgr. build_sibling_remap_table api vscr.pvc_namespace vgr.pvc_refs)
          (parents.get_vgr (vgr_name_for_sc name vscr.primary_storage_class) vscr.pvc_namespace) w

  unfoldable pub reconcile_vscr : String → String → W → W × Result (RemapError E) (Unit {0})
  reconcile_vscr name ns w = after_vscr name (parents.get_vscr name ns) w

  -- The claim of the primary: the mirror for the new primary, or else the source.
  unfoldable pub primary_pvc : String → Result E (List Pvc) → Result (RemapError E) String
  primary_pvc source (err e) = err (list_mirrors e)
  primary_pvc source (ok []) = ok source
  primary_pvc source (ok (mirror ∷ _)) = ok mirror.name

  unfoldable pub build_for_vvr : String → Parent → Result (RemapError E) Table
  build_for_vvr name vvr =
      primary_pvc vvr.volume_name (
        api.list_pvcs vvr.pvc_namespace (
          managed
          ∷ (label_storage_class, vvr.primary_storage_class)
          ∷ (label_source_vvr, name)
          ∷ []))
      >>= λ primary. build_sibling_remap_table api vvr.pvc_namespace (primary ∷ [])

  unfoldable pub after_vvr : String → Result E Parent → W → W × Result (RemapError E) (Unit {0})
  after_vvr name (err e) w = missing e w
  after_vvr name (ok vvr) w =
      if not vvr.pvc_remap || vvr.deleting
      then (w, ok tt)
      else remap_confirmed vvr.pvc_namespace (λ vr. build_for_vvr name vvr)
          (parents.get_vr (vr_name_for_sc name vvr.primary_storage_class) vvr.pvc_namespace) w

  unfoldable pub reconcile_vvr : String → String → W → W × Result (RemapError E) (Unit {0})
  reconcile_vvr name ns w = after_vvr name (parents.get_vvr name ns) w

  unfoldable pub reconcile : String → String → W → W × Result (RemapError E) (Unit {0})
  reconcile name ns w =
      if has_prefix name "vscr/"
      then reconcile_vscr (trim_prefix name "vscr/") ns w
      else if has_prefix name "vvr/"
      then reconcile_vvr (trim_prefix name "vvr/") ns w
      else (w, ok tt)
