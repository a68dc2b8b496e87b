-- ===== src/Webhooks/Denial.antt =====
-- When the PVC webhook of pvc_label_webhook.go denies a PVC, told by the tests of the code.
use vast_csi.Prelude.{
  String, true, false, ◌≡◌, ◌≢◌, ◌↔◌, refl, sym, subst, ok-inj, ◌∙◌, Option, none, some, List,
  Result, ok, err, str_eq, str_eq_iff, arith, Bool-cases, inl, inr, if◌then◌else◌,
}
use vast_csi.Webhooks.PvcLabels.{
  PvcObject, ScInfo, FilterConfig, LabelApi, allowed, denied, Cache, matches_filter, cached_sc_info,
  check_replication_state, is_managed, inject_labels, respond, handle_named, handle_pvc,
}

module _ {E : Type 0} (api : LabelApi E) (cfg : FilterConfig) where
  -- The driver of the StorageClass passes the filter, the controller does not manage the PVC, and a
  -- group or volume of the StorageClass is read-only.
  abbrev pub IsRefused : PvcObject → String → ScInfo → Type 0
  IsRefused pvc sc_name info =
      (matches_filter api.matches cfg.csi_driver_name cfg.csi_driver_name_regex false
          info.provisioner
        ≡ true)
      × (is_managed api pvc ≡ false)
      × (check_replication_state api pvc.namespace sc_name ≡ true)

  inject_labels-not-denied :
      (sc_name : String) (info : ScInfo) (labels : List (String × String))
      → inject_labels api sc_name info labels ≢ denied
  unfolding inject_labels
  inject_labels-not-denied sc_name info labels h = ground arith

  denies-at :
      (pvc : PvcObject) (sc_name : String) (info : ScInfo)
      → IsRefused pvc sc_name info
      → respond api cfg pvc sc_name (ok info) ≡ denied
  unfolding respond
  denies-at pvc sc_name info (p, q, r) = rw (p, q, r) refl

  respond-IsRefused :
      (pvc : PvcObject) (sc_name : String) (r : Result E ScInfo)
      → (respond api cfg pvc sc_name r ≡ denied)
        ↔ ((info : ScInfo) × (r ≡ ok info) × IsRefused pvc sc_name info)
  unfolding respond
  respond-IsRefused pvc sc_name (err e) = (λ h. absurd (ground arith), λ (info, e, q). absurd cc)
  respond-IsRefused pvc sc_name (ok info) = (
    λ h. (
      info,
      refl,
      (
        ground (arith, inject_labels-not-denied sc_name info pvc.labels),
        ground (arith, inject_labels-not-denied sc_name info pvc.labels),
        ground (arith, inject_labels-not-denied sc_name info pvc.labels),
      ),
    ),
    λ (info', e, (p, q, r)).
        subst (λ i. respond api cfg pvc sc_name (ok i) ≡ denied) (sym (ok-inj e))
          (denies-at pvc sc_name info' (p, q, r)),
  )

  -- Whether the PVC names a StorageClass that refuses it.
  abbrev pub IsRefusedBy : Cache → PvcObject → String → ScInfo → Type 0
  IsRefusedBy cache pvc sc_name info =
      (pvc.storage_class_name ≡ some sc_name)
      × (sc_name ≢ "")
      × ((cached_sc_info api cache sc_name).1 ≡ ok info)
      × IsRefused pvc sc_name info

  handle_pvc-at :
      (cache : Cache) (pvc : PvcObject) (sc_name : String)
      → pvc.storage_class_name ≡ some sc_name
      → (handle_pvc api cfg cache (some pvc)).1 ≡ (
          if str_eq sc_name ""
          then allowed
          else respond api cfg pvc sc_name (cached_sc_info api cache sc_name).1)
  unfolding handle_pvc handle_named
  handle_pvc-at cache pvc sc_name at =
      rw at (elim (Bool-cases (str_eq sc_name "")) [ inl e ↦ rw e refl | inr e ↦ rw e refl ])

  handle_pvc-at_none :
      (cache : Cache) (pvc : PvcObject)
      → pvc.storage_class_name ≡ none
      → (handle_pvc api cfg cache (some pvc)).1 ≡ allowed
  unfolding handle_pvc
  handle_pvc-at_none cache pvc at = rw at refl

  -- The response to a PVC that names a StorageClass.
  denies_at_name :
      (pvc : PvcObject) (sc_name : String) (r : Result E ScInfo)
      → ((if str_eq sc_name "" then allowed else respond api cfg pvc sc_name r) ≡ denied)
        ↔ ((sc_name ≢ "") × (respond api cfg pvc sc_name r ≡ denied))
  denies_at_name pvc sc_name r = (
    λ h. elim (Bool-cases (str_eq sc_name "")) [
      | inl e ↦ absurd (
          let d =
            subst (λ b. (if b then allowed else respond api cfg pvc sc_name r) ≡ denied) e h in
          cc)
      | inr e ↦ (
        ground (arith, str_eq_iff sc_name ""),
        subst (λ b. (if b then allowed else respond api cfg pvc sc_name r) ≡ denied) e h,
      )
    ],
    λ (full, h).
        let other : str_eq sc_name "" ≡ false = ground (arith, str_eq_iff sc_name "") in rw other h,
  )

  denies_named :
      (cache : Cache) (pvc : PvcObject) (o : Option String)
      → pvc.storage_class_name ≡ o
      → (handle_pvc api cfg cache (some pvc)).1 ≡ denied
      → (sc_name : String) × (info : ScInfo) × IsRefusedBy cache pvc sc_name info
  denies_named cache pvc none at h = absurd (let e = handle_pvc-at_none cache pvc at in cc)
  denies_named cache pvc (some sc_name) at h =
      let (full, responded) =
        (denies_at_name pvc sc_name (cached_sc_info api cache sc_name).1).0
          (sym (handle_pvc-at cache pvc sc_name at) ∙ h) in
      let (info, seen, refused) =
        (respond-IsRefused pvc sc_name (cached_sc_info api cache sc_name).1).0 responded in
      (sc_name, info, (at, full, seen, refused))

  -- The same for the whole handler, told by the tests of the code.
  pub handle_pvc_denies_iff :
      (cache : Cache) (pvc : PvcObject)
      → ((handle_pvc api cfg cache (some pvc)).1 ≡ denied)
        ↔ ((sc_name : String) × (info : ScInfo) × IsRefusedBy cache pvc sc_name info)
  handle_pvc_denies_iff cache pvc = (
    denies_named cache pvc pvc.storage_class_name refl,
    λ (sc_name, info, (named, full, seen, refused)).
        handle_pvc-at cache pvc sc_name named
        ∙ (denies_at_name pvc sc_name (cached_sc_info api cache sc_name).1).1 (
          full,
          (respond-IsRefused pvc sc_name (cached_sc_info api cache sc_name).1).1
              (info, seen, refused),
        ),
  )
