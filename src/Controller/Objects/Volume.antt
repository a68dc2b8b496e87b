-- ===== src/Controller/Objects/Volume.antt =====
-- `reconcileVR` of replication_object_controller.go.
use vast_csi.Prelude.{
  String, Bool, true, List, [], ◌∷◌, Result, ok, err, ◌>>=◌, ◌>>◌, reject_if, str_eq, get_str,
  if◌then◌else◌,
}
use vast_csi.K8s.{StorageClass}
use vast_csi.Controller.Objects.{
  volume_replication, Vrc, Object, ParentCr, ObjectError, missing_label, no_owner, vrc_terminating,
  ObjectApi, parent_cr_from_object, patch_vrc_spec,
}
use vast_csi.Controller.Objects.Sync.{
  sync_vrc_pvcs, sync_vrc_replication_state, current_state_str, resolve_source_ppath, ended,
  absent_or_failed, read, delete_its_vrc, create_with,
}

abbrev pub vvr_labels : ParentCr → List (String × String)
vvr_labels vvr =
    ("app.kubernetes.io/managed-by", "vast-extensions-controller")
    ∷ ("vastdata.com/source-vvr", vvr.name)
    ∷ ("vastdata.com/source-vvr-namespace", vvr.namespace)
    ∷ []

-- `syncVRCReplicationState(...) || syncVRCPVCs(...)`: where the state has changed, the PVCs are not
-- looked at.
unfoldable pub sync_for_vr : Vrc → Object → Vrc × Bool
sync_for_vr existing vr =
    let first = sync_vrc_replication_state existing (current_state_str vr.state) in
    if first.1 then first else sync_vrc_pvcs first.0 (vr.data_source ∷ [])

module _ {W Rest E : Type 0} (api : ObjectApi W Rest E) (name ns : String) where
  -- The reads before the VRC: the name of the StorageClass, the StorageClass, and the VVR.
  unfoldable pub read_for_vr : Object → Result (ObjectError E) (ParentCr × String × StorageClass)
  read_for_vr vr = do
    let sc_name = get_str "vastdata.com/storageClass" vr.labels
    reject_if (str_eq sc_name "") missing_label
    sc ← read api (api.get_storage_class sc_name)
    let parent =
        parent_cr_from_object vr "vastdata.com/source-vvr" "vastdata.com/source-vvr-namespace"
          "VastVolumeReplication"
    reject_if (str_eq parent.0 "") no_owner
    vvr ← read api (api.get_parent parent.0 parent.1)
    ok (vvr, sc_name, sc)

  unfoldable pub update_for_vr : Object → Vrc → W → W × Result (ObjectError E) (Unit {0})
  update_for_vr vr existing w =
      let synced = sync_for_vr existing vr in
      if synced.1 then ended api (patch_vrc_spec api synced.0 w) else (w, ok tt)

  -- What follows the read of the VRC.
  unfoldable pub ensure_for_vr :
      Object
      → ParentCr
      → String
      → StorageClass
      → Result E Vrc
      → W
      → W × Result (ObjectError E) (Unit {0})
  ensure_for_vr vr vvr sc_name sc (err e) w =
      if api.is_not_found e
      then create_with api volume_replication true vr vvr sc sc_name name ns (vr.data_source ∷ [])
          (vvr_labels vvr) (resolve_source_ppath api sc vvr.ppath_name) w
      else (w, absent_or_failed api tt e)
  ensure_for_vr vr vvr sc_name sc (ok existing) w =
      if existing.deleting then (w, err vrc_terminating) else update_for_vr vr existing w

  unfoldable pub reconcile_live_vr :
      Object
      → Result (ObjectError E) (ParentCr × String × StorageClass)
      → W
      → W × Result (ObjectError E) (Unit {0})
  reconcile_live_vr vr (err e) w = (w, err e)
  reconcile_live_vr vr (ok (vvr, sc_name, sc)) w =
      ensure_for_vr vr vvr sc_name sc (api.get_vrc name ns w) w

  unfoldable pub reconcile_found_vr : Result E Object → W → W × Result (ObjectError E) (Unit {0})
  reconcile_found_vr (err e) w = (w, absent_or_failed api tt e)
  reconcile_found_vr (ok vr) w =
      if vr.deleting
      then delete_its_vrc api (api.get_vrc name ns w) w
      else reconcile_live_vr vr (read_for_vr vr) w

  unfoldable pub reconcile_vr : W → W × Result (ObjectError E) (Unit {0})
  reconcile_vr w = reconcile_found_vr (api.get_object name ns) w
