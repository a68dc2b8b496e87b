-- ===== src/Controller/Objects/Group.antt =====
-- `reconcileVGR` of replication_object_controller.go.
use vast_csi.Prelude.{
  String, Bool, ◌||◌, ◌&&◌, Option, none, some, List, [], ◌∷◌, Result, ok, err, ◌>>=◌, ◌>>◌,
  reject_if, str_eq, get_str, sort_strings, if◌then◌else◌,
}
use vast_csi.K8s.{StorageClass}
use vast_csi.Controller.Objects.{
  volume_group_replication, Vrc, Object, ParentCr, ObjectError, missing_label, no_owner,
  vrc_terminating, ObjectApi, parent_cr_from_object, patch_vrc_spec,
}
use vast_csi.Controller.Objects.Sync.{
  sync_vrc_pvcs, sync_vrc_replication_state, current_state_str, resolve_source_ppath, ended,
  absent_or_failed, read, delete_its_vrc, create_with,
}
use vast_csi.Controller.Objects.Touch.{touch_secondary_vrcs}

-- `vgr.Spec.Source.Selector.MatchLabels[...]`, and the empty text where there is no selector.
unfoldable pub selected_storage_class : Option (List (String × String)) → String
selected_storage_class none = ""
selected_storage_class (some labels) = get_str "vastdata.com/storageClass" labels

abbrev pub vscr_labels : ParentCr → List (String × String)
vscr_labels vscr =
    ("app.kubernetes.io/managed-by", "vast-extensions-controller")
    ∷ ("vastdata.com/source-vscr", vscr.name)
    ∷ ("vastdata.com/source-vscr-namespace", vscr.namespace)
    ∷ []

-- Both synchronisations, the PVCs first: the VRC, and whether its PVCs have changed, and whether
-- anything has.
unfoldable pub sync_for_vgr : Vrc → Object → Vrc × Bool × Bool
sync_for_vgr existing vgr =
    let first = sync_vrc_pvcs existing (sort_strings vgr.pvc_refs) in
    let second = sync_vrc_replication_state first.0 (current_state_str vgr.state) in
    (second.0, first.1, second.1 || first.1)

module _ {W Rest E : Type 0} (api : ObjectApi W Rest E) (name ns : String) where
  -- The reads before the VRC: the VSCR, the name of the StorageClass, and the StorageClass.
  unfoldable pub read_for_vgr : Object → Result (ObjectError E) (ParentCr × String × StorageClass)
  read_for_vgr vgr = do
    let parent =
        parent_cr_from_object vgr "vastdata.com/source-vscr" "vastdata.com/source-vscr-namespace"
          "VastStorageClassReplication"
    reject_if (str_eq parent.0 "") no_owner
    vscr ← read api (api.get_parent parent.0 parent.1)
    let sc_name = selected_storage_class vgr.selector
    reject_if (str_eq sc_name "") missing_label
    sc ← read api (api.get_storage_class sc_name)
    ok (vscr, sc_name, sc)

  -- What follows the patch: the secondaries are told of new PVCs of the primary.
  unfoldable pub tell_secondaries :
      ParentCr
      → String
      → Bool
      → W × Result (ObjectError E) (Unit {0})
      → W × Result (ObjectError E) (Unit {0})
  tell_secondaries vscr sc_name pvc_changed (w, err e) = (w, err e)
  tell_secondaries vscr sc_name pvc_changed (w, ok _) =
      if pvc_changed && str_eq sc_name vscr.primary_storage_class
      then touch_secondary_vrcs api vscr w
      else (w, ok tt)

  unfoldable pub update_for_vgr :
      Object → ParentCr → String → Vrc → W → W × Result (ObjectError E) (Unit {0})
  update_for_vgr vgr vscr sc_name existing w =
      let synced = sync_for_vgr existing vgr in
      tell_secondaries vscr sc_name synced.1
        (if synced.2 then ended api (patch_vrc_spec api synced.0 w) else (w, ok tt))

  unfoldable pub create_for_vgr :
      Object → ParentCr → String → StorageClass → W → W × Result (ObjectError E) (Unit {0})
  create_for_vgr vgr vscr sc_name sc w =
      create_with api volume_group_replication vscr.sync_pvcpv vgr vscr sc sc_name name ns
        (sort_strings vgr.pvc_refs) (vscr_labels vscr) (resolve_source_ppath api sc vscr.ppath_name)
        w

  -- What follows the read of the VRC.
  unfoldable pub ensure_for_vgr :
      Object
      → ParentCr
      → String
      → StorageClass
      → Result E Vrc
      → W
      → W × Result (ObjectError E) (Unit {0})
  ensure_for_vgr vgr vscr sc_name sc (err e) w =
      if api.is_not_found e
      then create_for_vgr vgr vscr sc_name sc w
      else (w, absent_or_failed api tt e)
  ensure_for_vgr vgr vscr sc_name sc (ok existing) w =
      if existing.deleting
      then (w, err vrc_terminating)
      else update_for_vgr vgr vscr sc_name existing w

  unfoldable pub reconcile_live_vgr :
      Object
      → Result (ObjectError E) (ParentCr × String × StorageClass)
      → W
      → W × Result (ObjectError E) (Unit {0})
  reconcile_live_vgr vgr (err e) w = (w, err e)
  reconcile_live_vgr vgr (ok (vscr, sc_name, sc)) w =
      ensure_for_vgr vgr vscr sc_name sc (api.get_vrc name ns w) w

  unfoldable pub reconcile_found_vgr : Result E Object → W → W × Result (ObjectError E) (Unit {0})
  reconcile_found_vgr (err e) w = (w, absent_or_failed api tt e)
  reconcile_found_vgr (ok vgr) w =
      if vgr.deleting
      then delete_its_vrc api (api.get_vrc name ns w) w
      else reconcile_live_vgr vgr (read_for_vgr vgr) w

  unfoldable pub reconcile_vgr : W → W × Result (ObjectError E) (Unit {0})
  reconcile_vgr w = reconcile_found_vgr (api.get_object name ns) w
