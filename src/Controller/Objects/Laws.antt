-- ===== src/Controller/Objects/Laws.antt =====
-- What the reconcile of a group leaves in its VRC.
use vast_csi.Prelude.{
  String, Bool, true, false, ◌||◌, ◌≡◌, ◌≢◌, ◌↔◌, ◌⊎◌, refl, sym, ap, ◌∙◌, some, List, [], ◌∷◌,
  str_eq, str_eq_iff, sort_strings, arith, Bool-cases, inl, inr,
}
use vast_csi.K8s.{StorageClass}
use vast_csi.Controller.Objects.{VrcSpec, Vrc, Object, ParentCr, SourcePath, DestinationKind}
use vast_csi.Controller.Objects.Sync.{
  same_list, sync_vrc_pvcs, sync_vrc_replication_state, current_state_str,
  initial_state_from_primary, new_vrc,
}
use vast_csi.Controller.Objects.Volume.{sync_for_vr}
use vast_csi.Controller.Objects.Group.{sync_for_vgr}

same_list-eq : (xs ys : List String) → same_list xs ys ≡ true → xs ≡ ys
unfolding same_list
same_list-eq [] [] h = refl
same_list-eq [] (y ∷ ys) h = absurd cc
same_list-eq (x ∷ xs) [] h = absurd cc
same_list-eq (x ∷ xs) (y ∷ ys) h = ground (arith, str_eq_iff x y, same_list-eq xs ys)

-- The PVCs of the group in order, and its state where that is known.
abbrev pub Follows : Object → VrcSpec → Type 0
Follows vgr spec =
    (spec.pvcs ≡ sort_strings vgr.pvc_refs)
    × ((state : String) → vgr.state ≡ some state → state ≢ "" → spec.replication_state ≡ state)

sync_vrc_pvcs_lem : (vrc : Vrc) (pvcs : List String) → (sync_vrc_pvcs vrc pvcs).0.spec.pvcs ≡ pvcs
unfolding sync_vrc_pvcs
sync_vrc_pvcs_lem vrc pvcs = elim (Bool-cases (same_list pvcs vrc.spec.pvcs)) [
  | inl e ↦ rw e (sym (same_list-eq pvcs vrc.spec.pvcs e))
  | inr e ↦ rw e refl
]

sync_vrc_replication_state_lem :
    (vrc : Vrc) (state : String)
    → ((sync_vrc_replication_state vrc state).0.spec.pvcs ≡ vrc.spec.pvcs)
      × (state ≢ "" → (sync_vrc_replication_state vrc state).0.spec.replication_state ≡ state)
unfolding sync_vrc_replication_state
sync_vrc_replication_state_lem vrc state =
    elim (Bool-cases (str_eq state "" || str_eq vrc.spec.replication_state state)) [
      | inl e ↦ rw e (
        refl,
        λ n. ground (arith, str_eq_iff state "", str_eq_iff vrc.spec.replication_state state),
      )
      | inr e ↦ rw e (refl, λ n. refl)
    ]

pub sync_for_vgr-Follows :
    (existing : Vrc) (vgr : Object) → Follows vgr (sync_for_vgr existing vgr).0.spec
unfolding sync_for_vgr current_state_str
sync_for_vgr-Follows existing vgr =
    let first = sync_vrc_pvcs existing (sort_strings vgr.pvc_refs) in
    let second = sync_vrc_replication_state_lem first.0 (current_state_str vgr.state) in
    (
      second.0 ∙ sync_vrc_pvcs_lem existing (sort_strings vgr.pvc_refs),
      λ state e n.
          let known : current_state_str vgr.state ≡ state = ap current_state_str e in
          second.1 (λ q. n (sym known ∙ q)) ∙ known,
    )

pub sync_for_vgr_same :
    (existing : Vrc) (vgr : Object)
    → (sync_for_vgr existing vgr).2 ≡ false
    → (sync_for_vgr existing vgr).0 ≡ existing
unfolding sync_for_vgr sync_vrc_pvcs sync_vrc_replication_state
sync_for_vgr_same existing vgr h = ground arith

pub sync_for_vgr_name :
    (existing : Vrc) (vgr : Object)
    → ((sync_for_vgr existing vgr).0.name ≡ existing.name)
      × ((sync_for_vgr existing vgr).0.namespace ≡ existing.namespace)
unfolding sync_for_vgr sync_vrc_pvcs sync_vrc_replication_state
sync_for_vgr_name existing vgr = ground arith

pub new_vrc-Follows :
    (kind : DestinationKind) (sync : Bool) (vgr : Object) (parent : ParentCr) (sc : StorageClass)
    (sc_name name ns : String) (labels : List (String × String)) (path : SourcePath)
    (policies : List String)
    → Follows vgr
        (new_vrc kind sync vgr parent sc sc_name name ns
          (sort_strings vgr.pvc_refs)
          labels
          path
          policies).spec
unfolding new_vrc initial_state_from_primary current_state_str
new_vrc-Follows kind sync vgr parent sc sc_name name ns labels path policies =
    (refl, λ state e n. rw e (ground (arith, str_eq_iff state "")))

-- When the VRC in memory has the PVC of the VR: a VRC with a new state keeps its PVCs.
pub sync_for_vr_pvcs_iff :
    (existing : Vrc) (vr : Object)
    → ((sync_for_vr existing vr).0.spec.pvcs ≡ vr.data_source ∷ []) ↔ (
        (existing.spec.pvcs ≡ vr.data_source ∷ [])
        ⊎ (current_state_str vr.state ≡ "")
        ⊎ (existing.spec.replication_state ≡ current_state_str vr.state))
unfolding sync_for_vr sync_vrc_replication_state
sync_for_vr_pvcs_iff existing vr =
    elim (Bool-cases (str_eq state "" || str_eq existing.spec.replication_state state)) [
      | inl e ↦ rw e (λ p. inr (known e), λ q. sync_vrc_pvcs_lem existing (vr.data_source ∷ []))
      | inr e ↦ rw e (λ p. inl p, λ q. kept e q)
    ]
  where
    state : String
    state = current_state_str vr.state

    known :
        (str_eq state "" || str_eq existing.spec.replication_state state) ≡ true
        → (state ≡ "") ⊎ (existing.spec.replication_state ≡ state)
    known e = elim (Bool-cases (str_eq state "")) [
      | inl f ↦ inl ((str_eq_iff state "").0 f)
      | inr f ↦ inr ((str_eq_iff existing.spec.replication_state state).0 (ground arith))
    ]

    kept :
        (str_eq state "" || str_eq existing.spec.replication_state state) ≡ false
        → ((existing.spec.pvcs ≡ vr.data_source ∷ [])
            ⊎ (state ≡ "")
            ⊎ (existing.spec.replication_state ≡ state))
        → existing.spec.pvcs ≡ vr.data_source ∷ []
    kept e (inl p) = p
    kept e (inr (inl s)) = absurd (ground (arith, str_eq_iff state ""))
    kept e (inr (inr s)) = absurd (ground (arith, str_eq_iff existing.spec.replication_state state))
