-- ===== src/Controller/Remap/Requests.antt =====
-- The requests of the remap controller, and when it changes anything.
use text.Mathlib.TextPositions.{starts_with-append}
use text.Mathlib.TextEquality.{starts_with_iff}
use text.Mathlib.TextLemmas.{append_inj, append_assoc}
use vast_csi.Prelude.{
  String, ◌<>◌, ◌≡◌, ◌≢◌, sym, ◌∙◌, true, false, not, ◌||◌, arith, refl, Bool-cases, inl, inr,
  str_eq, str_eq_iff, Result, ok, err,
}
use vast_csi.K8s.{has_prefix, trim_prefix-append}
use vast_csi.Controller.Remap.{RemapApi, RemapError, Table, build_sibling_remap_table}
use vast_csi.Controller.Remap.Reconcile.{
  Parent, Replicated, ParentApi, vgr_name_for_sc, missing, remap_confirmed, after_vscr,
  reconcile_vscr, reconcile_vvr, reconcile,
}

vvr-not-vscr : (name : String) → has_prefix ("vvr/" <> name) "vscr/" ≡ false
unfolding str_eq
vvr-not-vscr name = elim (Bool-cases (has_prefix ("vvr/" <> name) "vscr/")) [
  | inl h ↦
      let (r, e) = (starts_with_iff ("vvr/" <> name) "vscr/").0 h in
      let same =
        (append_inj {s₁ = "vscr"} {s₂ = "vvr/"} {t₁ = "/" <> r} {t₂ = name}
          (sym (append_assoc "vscr" "/" r) ∙ e) refl).0 in
      cc ((str_eq_iff "vscr" "vvr/").1 same)
  | inr h ↦ h
]

-- The parent asks for the remap and is not being deleted, and its object is at primary, in its spec and
-- in its status.
abbrev pub IsConfirmed : Parent → Replicated → Type 0
IsConfirmed parent object =
    (parent.pvc_remap ≡ true)
    × (parent.deleting ≡ false)
    × (object.spec_primary ≡ true)
    × (object.status_primary ≡ true)

module _ {W E : Type 0} (api : RemapApi W E) (parents : ParentApi E) (ns : String) (w : W) where
  -- A request whose name was put together from the prefix of a kind and the name of a parent is handled
  -- as that parent, whatever the name is.
  pub reconcile_routes :
      (name : String)
      → (reconcile api parents ("vscr/" <> name) ns w ≡ reconcile_vscr api parents name ns w)
        × (reconcile api parents ("vvr/" <> name) ns w ≡ reconcile_vvr api parents name ns w)
  unfolding reconcile
  reconcile_routes name = (
    rw (starts_with-append "vscr/" name, trim_prefix-append "vscr/" name) refl,
    rw (vvr-not-vscr name, starts_with-append "vvr/" name, trim_prefix-append "vvr/" name) refl,
  )

  remap_confirmed_changes :
      (pvc_ns : String) (build : Replicated → Result (RemapError E) Table) (r : Result E Replicated)
      → (remap_confirmed api parents pvc_ns build r w).0 ≢ w
      → (object : Replicated) × (r ≡ ok object)
        × (object.spec_primary ≡ true)
        × (object.status_primary ≡ true)
  unfolding remap_confirmed missing
  remap_confirmed_changes pvc_ns build (err e) h = absurd (h refl)
  remap_confirmed_changes pvc_ns build (ok object) h =
      elim (Bool-cases (not object.spec_primary || not object.status_primary)) [
        | inl e ↦ absurd (h (rw e refl))
        | inr e ↦ (object, refl, ground arith, ground arith)
      ]

  -- A reconcile of a VSCR patches nothing unless it has read the VSCR and the group of its primary
  -- StorageClass, the remap is asked for, the VSCR is not being deleted, and the group is at primary.
  pub reconcile_vscr-IsConfirmed :
      (name : String)
      → (reconcile_vscr api parents name ns w).0 ≢ w
      → (vscr : Parent) × (vgr : Replicated) × (parents.get_vscr name ns ≡ ok vscr)
        × (parents.get_vgr (vgr_name_for_sc name vscr.primary_storage_class) vscr.pvc_namespace
            ≡ ok vgr)
        × IsConfirmed vscr vgr
  unfolding reconcile_vscr after_vscr missing
  reconcile_vscr-IsConfirmed name h = at (parents.get_vscr name ns) refl h
    where
      at :
          (r : Result E Parent)
          → parents.get_vscr name ns ≡ r
          → (after_vscr api parents name r w).0 ≢ w
          → (vscr : Parent) × (vgr : Replicated) × (parents.get_vscr name ns ≡ ok vscr)
            × (parents.get_vgr (vgr_name_for_sc name vscr.primary_storage_class) vscr.pvc_namespace
                ≡ ok vgr)
            × IsConfirmed vscr vgr
      at (err e) same h = absurd (h refl)
      at (ok vscr) same h = elim (Bool-cases (not vscr.pvc_remap || vscr.deleting)) [
        | inl e ↦ absurd (h (rw e refl))
        | inr e ↦
            let (vgr, read, spec, status) =
              remap_confirmed_changes vscr.pvc_namespace
                (λ vgr. build_sibling_remap_table api vscr.pvc_namespace vgr.pvc_refs)
                (parents.get_vgr (vgr_name_for_sc name vscr.primary_storage_class)
                  vscr.pvc_namespace)
                (λ q. h (rw e q)) in
            (vscr, vgr, same, read, (ground arith, ground arith, spec, status))
      ]
