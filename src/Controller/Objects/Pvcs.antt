-- ===== src/Controller/Objects/Pvcs.antt =====
-- What the reconcile of a VR leaves in a VRC that was there before.
use vast_csi.Prelude.{
  String, Bool, false, ◌≡◌, ◌≢◌, ◌↔◌, ◌⊎◌, ap, subst, ◌∙◌, [], ◌∷◌, Result, ok, err, str_eq_iff,
  arith, Bool-cases, inl, inr, if◌then◌else◌,
}
use vast_csi.K8s.{StorageClass}
use vast_csi.Controller.Objects.{
  VrcSpec, Vrc, Object, ParentCr, ObjectError, vrc_terminating, ObjectApi, patch_vrc_spec,
  with_desired,
}
use vast_csi.Controller.Objects.Sync.{
  sync_vrc_pvcs, sync_vrc_replication_state, current_state_str, ended, delete_its_vrc,
}
use vast_csi.Controller.Objects.Volume.{
  sync_for_vr, read_for_vr, update_for_vr, ensure_for_vr, reconcile_live_vr, reconcile_found_vr,
  reconcile_vr,
}
use vast_csi.Controller.Objects.Laws.{sync_for_vr_pvcs_iff}
use vast_csi.Controller.Objects.Stored.{IsStore, Stored, at_name, ended_ok, patch_vrc_spec-ok}

-- The VRC had the PVC, or the state of the VR is not known, or the VRC had that state.
abbrev pub HadPvcOrState : Vrc → Object → Type 0
HadPvcOrState existing vr =
    (existing.spec.pvcs ≡ vr.data_source ∷ [])
    ⊎ (current_state_str vr.state ≡ "")
    ⊎ (existing.spec.replication_state ≡ current_state_str vr.state)

-- The state of the VR where that is known, and its PVC exactly in those cases.
abbrev pub IsInStep : Vrc → Object → VrcSpec → Type 0
IsInStep existing vr spec =
    (current_state_str vr.state ≢ "" → spec.replication_state ≡ current_state_str vr.state)
    × ((spec.pvcs ≡ vr.data_source ∷ []) ↔ HadPvcOrState existing vr)

sync_for_vr-state :
    (existing : Vrc) (vr : Object)
    → current_state_str vr.state ≢ ""
    → (sync_for_vr existing vr).0.spec.replication_state ≡ current_state_str vr.state
unfolding sync_for_vr sync_vrc_replication_state sync_vrc_pvcs
sync_for_vr-state existing vr n =
    let empty = str_eq_iff (current_state_str vr.state) "" in
    let same = str_eq_iff existing.spec.replication_state (current_state_str vr.state) in
    ground (arith, empty, same)

sync_for_vr-IsInStep :
    (existing : Vrc) (vr : Object) → IsInStep existing vr (sync_for_vr existing vr).0.spec
sync_for_vr-IsInStep existing vr = (sync_for_vr-state existing vr, sync_for_vr_pvcs_iff existing vr)

sync_for_vr_same :
    (existing : Vrc) (vr : Object)
    → (sync_for_vr existing vr).1 ≡ false
    → (sync_for_vr existing vr).0 ≡ existing
unfolding sync_for_vr sync_vrc_pvcs sync_vrc_replication_state
sync_for_vr_same existing vr h = ground arith

sync_for_vr_name :
    (existing : Vrc) (vr : Object)
    → ((sync_for_vr existing vr).0.name ≡ existing.name)
      × ((sync_for_vr existing vr).0.namespace ≡ existing.namespace)
unfolding sync_for_vr sync_vrc_pvcs sync_vrc_replication_state
sync_for_vr_name existing vr = ground arith

module _ {W Rest E : Type 0} (api : ObjectApi W Rest E) (store : IsStore api) (name ns : String)
    (vr : Object) (existing : Vrc) where
  update_for_vr-Stored :
      (w w' : W)
      → api.get_vrc name ns w ≡ ok existing
      → update_for_vr api name ns vr existing w ≡ (w', ok tt)
      → Stored api name ns (IsInStep existing vr) w'
  unfolding update_for_vr
  update_for_vr-Stored w w' get h = elim (Bool-cases (sync_for_vr existing vr).1) [
    | inl e ↦ patched (subst run e h)
    | inr e ↦ kept e (subst run e h)
  ]
    where
      run : Bool → Type 0
      run b =
          (if b then ended api (patch_vrc_spec api (sync_for_vr existing vr).0 w) else (w, ok tt))
          ≡ (w', ok tt)

      synced : IsInStep existing vr (sync_for_vr existing vr).0.spec
      synced = sync_for_vr-IsInStep existing vr

      patched :
          ended api (patch_vrc_spec api (sync_for_vr existing vr).0 w) ≡ (w', ok tt)
          → Stored api name ns (IsInStep existing vr) w'
      patched q =
          let done = ended_ok api (patch_vrc_spec api (sync_for_vr existing vr).0 w) w' q in
          let (read, got) = patch_vrc_spec-ok api store (sync_for_vr existing vr).0 w w' done in
          let (same, same_ns) = sync_for_vr_name existing vr in
          let (n, m) = store.named name ns w existing get in
          (
            with_desired api (sync_for_vr existing vr).0 read,
            at_name api (same ∙ n) (same_ns ∙ m) w' got,
            synced,
          )

      kept :
          (sync_for_vr existing vr).1 ≡ false
          → ◌≡◌ {A = W × Result (ObjectError E) (Unit {0})} (w, ok tt) (w', ok tt)
          → Stored api name ns (IsInStep existing vr) w'
      kept e q =
          let old =
            subst (λ v. IsInStep existing vr v.spec) (sync_for_vr_same existing vr e) synced in
          subst (Stored api name ns (IsInStep existing vr)) (ap (λ r. r.0) q) (existing, get, old)

  ensure_for_vr-Stored :
      (vvr : ParentCr) (sc_name : String) (sc : StorageClass) (w w' : W)
      → api.get_vrc name ns w ≡ ok existing
      → ensure_for_vr api name ns vr vvr sc_name sc (ok existing) w ≡ (w', ok tt)
      → Stored api name ns (IsInStep existing vr) w'
  unfolding ensure_for_vr
  ensure_for_vr-Stored vvr sc_name sc w w' get h = elim (Bool-cases existing.deleting) [
    | inl f ↦ absurd (ground arith)
    | inr f ↦ update_for_vr-Stored w w' get (
        subst
          (λ b.
            (if b then (w, err vrc_terminating) else update_for_vr api name ns vr existing w)
            ≡ (w', ok tt))
          f h)
  ]

-- Where the API server keeps what it is given, a reconcile of a VR that is not being deleted and that
-- succeeds, with a VRC that is there when it starts, leaves a VRC under that name with the state of the VR
-- where that is known. It leaves it with the PVC of the VR exactly when the VRC has had that PVC, or the
-- state of the VR is not known, or the VRC has had that state: a VRC that is given a new state keeps its PVCs.
pub reconcile_vr-IsInStep :
    {W Rest E : Type 0}
    → (api : ObjectApi W Rest E) (name ns : String) (vr : Object) (existing : Vrc) (w w' : W)
    → IsStore api
    → api.get_object name ns ≡ ok vr
    → vr.deleting ≡ false
    → api.get_vrc name ns w ≡ ok existing
    → reconcile_vr api name ns w ≡ (w', ok tt)
    → (vrc : Vrc) × (api.get_vrc name ns w' ≡ ok vrc) × IsInStep existing vr vrc.spec
unfolding reconcile_vr reconcile_found_vr reconcile_live_vr
reconcile_vr-IsInStep {W} {Rest} {E} api name ns vr existing w w' store get live there h =
    let found = subst (λ r. reconcile_found_vr api name ns r w ≡ (w', ok tt)) get h in
    let alive =
      subst
        (λ b.
          (if b
            then delete_its_vrc api (api.get_vrc name ns w) w
            else reconcile_live_vr api name ns vr (read_for_vr api name ns vr) w)
          ≡ (w', ok tt))
        live found in
    at (read_for_vr api name ns vr) alive
  where
    at :
        (r : Result (ObjectError E) (ParentCr × String × StorageClass))
        → reconcile_live_vr api name ns vr r w ≡ (w', ok tt)
        → Stored api name ns (IsInStep existing vr) w'
    at (err e) h = absurd cc
    at (ok (vvr, sc_name, sc)) h =
        ensure_for_vr-Stored api store name ns vr existing vvr sc_name sc w w' there
          (subst (λ r. ensure_for_vr api name ns vr vvr sc_name sc r w ≡ (w', ok tt)) there h)
