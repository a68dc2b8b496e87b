-- ===== src/Webhooks/Refused.antt =====
-- When the PVC webhook of pvc_label_webhook.go denies a PVC, told by the StorageClass, its driver and the sites of the namespace.
use vast_csi.Prelude.{
  String, true, false, ◌≡◌, ◌≢◌, ◌↔◌, ◌⊎◌, refl, sym, ap, subst, ok-inj, ◌∙◌, Option, none, some,
  List, [], ◌∷◌, Result, ok, err, str_eq_iff, arith, Bool-cases, inl, inr, lookup, get_str, any,
  Among,
}
use vast_csi.K8s.{StorageClass}
use vast_csi.Webhooks.PvcLabels.{
  PvcObject, ScInfo, SiteState, FilterConfig, LabelApi, denied, Cache, matches_filter, is_read_only,
  fetched, cached_sc_info, any_read_only, check_replication_state, is_managed, handle_pvc,
}
use vast_csi.Webhooks.Denial.{handle_pvc_denies_iff}

-- A list that could be read has a site that is Secondary and is not in a resync.
abbrev pub HasReadOnly : {E : Type 0} → Result E (List SiteState) → Type 0
HasReadOnly {E} r =
    (sites : List SiteState) × (site : SiteState) × (r ≡ ok sites)
    × Among site sites
    × (site.secondary ≡ true)
    × (site.resync ≡ false)

any-Among :
    (sites : List SiteState)
    → (any is_read_only sites ≡ true)
      ↔ ((site : SiteState) × Among site sites × (site.secondary ≡ true) × (site.resync ≡ false))
unfolding is_read_only
any-Among [] = (λ h. absurd (ground arith), λ (site, m, s, r). absurd m)
any-Among (x ∷ sites) = (
  λ h. elim (Bool-cases (is_read_only x)) [
    | inl e ↦ (x, inl refl, ground arith, ground arith)
    | inr e ↦ let (site, m, s, r) = (any-Among sites).0 (ground arith) in (site, inr m, s, r)
  ],
  λ (site, m, s, r). elim m [
    | inl e ↦ let here : is_read_only x ≡ true = ap is_read_only e ∙ ground arith in ground arith
    | inr m' ↦ let more = (any-Among sites).1 (site, m', s, r) in ground arith
  ],
)

any_read_only_iff :
    {E : Type 0}
    → (api : LabelApi E) (r : Result E (List SiteState))
    → (any_read_only api r ≡ true) ↔ HasReadOnly r
unfolding any_read_only
any_read_only_iff api (err e) =
    (λ h. absurd (ground arith), λ (sites, site, same, m, s, q). absurd cc)
any_read_only_iff api (ok sites) = (
  λ h. let (site, m, s, r) = (any-Among sites).0 h in (sites, site, refl, m, s, r),
  λ (others, site, same, m, s, r).
      (any-Among sites).1 (site, subst (Among site) (sym (ok-inj same)) m, s, r),
)

module _ {E : Type 0} (api : LabelApi E) (cfg : FilterConfig) where
  abbrev pub selector_of : String → List (String × String)
  selector_of sc_name =
      ("app.kubernetes.io/managed-by", "vast-extensions-controller")
      ∷ ("vastdata.com/storageClass", sc_name)
      ∷ []

  -- A group or a volume that the controller made for the StorageClass is read-only in the namespace.
  abbrev pub IsReadOnlySite : String → String → Type 0
  IsReadOnlySite namespace sc_name =
      HasReadOnly (api.list_vgrs namespace (selector_of sc_name))
      ⊎ HasReadOnly (api.list_vrs namespace (selector_of sc_name))

  check_replication_state_iff :
      (namespace sc_name : String)
      → (check_replication_state api namespace sc_name ≡ true) ↔ IsReadOnlySite namespace sc_name
  unfolding check_replication_state
  check_replication_state_iff namespace sc_name =
      let (vgr_to, vgr_from) =
        any_read_only_iff api (api.list_vgrs namespace (selector_of sc_name)) in
      let (vr_to, vr_from) = any_read_only_iff api (api.list_vrs namespace (selector_of sc_name)) in
      (
        λ h. elim (Bool-cases (any_read_only api (api.list_vgrs namespace (selector_of sc_name)))) [
          | inl e ↦ inl (vgr_to e)
          | inr e ↦ inr (vr_to (ground arith))
        ],
        λ h. elim h [
          | inl s ↦ let e = vgr_from s in ground arith
          | inr s ↦ let e = vr_from s in ground arith
        ],
      )

  -- The driver is the configured one, or, if none is configured, it matches a configured pattern.
  abbrev pub IsOurDriver : String → Type 0
  IsOurDriver provisioner =
      ((cfg.csi_driver_name ≢ "") × (provisioner ≡ cfg.csi_driver_name))
      ⊎ ((cfg.csi_driver_name ≡ "")
          × (cfg.csi_driver_name_regex ≢ "")
          × (api.matches cfg.csi_driver_name_regex provisioner ≡ true))

  matches_filter-IsOurDriver :
      (provisioner : String)
      → (matches_filter api.matches cfg.csi_driver_name cfg.csi_driver_name_regex false provisioner
          ≡ true)
        ↔ IsOurDriver provisioner
  unfolding matches_filter
  matches_filter-IsOurDriver provisioner =
      let name = str_eq_iff cfg.csi_driver_name "" in
      let regex = str_eq_iff cfg.csi_driver_name_regex "" in
      let same = str_eq_iff provisioner cfg.csi_driver_name in
      (λ h. ground (arith, name, regex, same), λ h. ground (arith, name, regex, same))

  -- The driver that the cache knows for the StorageClass, or else the one of the StorageClass itself.
  abbrev pub HasDriver : Cache → String → String → Type 0
  HasDriver cache sc_name provisioner =
      ((info : ScInfo) × (lookup sc_name cache ≡ some info) × (info.provisioner ≡ provisioner))
      ⊎ ((lookup sc_name cache ≡ none)
          × ((sc : StorageClass) × (api.get_storage_class sc_name ≡ ok sc)
              × (sc.provisioner ≡ provisioner)))

  fetched-ok :
      (cache : Cache) (sc_name : String) (r : Result E StorageClass) (info : ScInfo)
      → (fetched api cache sc_name r).1 ≡ ok info
      → (sc : StorageClass) × (r ≡ ok sc) × (sc.provisioner ≡ info.provisioner)
  unfolding fetched
  fetched-ok cache sc_name (err e) info h = absurd cc
  fetched-ok cache sc_name (ok sc) info h = (sc, refl, ap (λ i. i.provisioner) (ok-inj h))

  IsSeenAs : Cache → String → ScInfo → Option ScInfo → Type 0
  IsSeenAs cache sc_name info o =
      (elim o as (λ _. Cache × Result E ScInfo) [
        | some known ↦ (cache, ok known)
        | none ↦ fetched api cache sc_name (api.get_storage_class sc_name)
      ]).1
      ≡ ok info

  cached-HasDriver :
      (cache : Cache) (sc_name : String) (info : ScInfo)
      → (cached_sc_info api cache sc_name).1 ≡ ok info
      → HasDriver cache sc_name info.provisioner
  unfolding cached_sc_info IsSeenAs
  cached-HasDriver cache sc_name info h = at (lookup sc_name cache) refl
    where
      at : (o : Option ScInfo) → lookup sc_name cache ≡ o → HasDriver cache sc_name info.provisioner
      at none q = inr (
        q,
        fetched-ok cache sc_name (api.get_storage_class sc_name) info
            (subst (IsSeenAs cache sc_name info) q h),
      )
      at (some known) q =
          inl (known, q, ap (λ i. i.provisioner) (ok-inj (subst (IsSeenAs cache sc_name info) q h)))

  HasDriver-cached :
      (cache : Cache) (sc_name provisioner : String)
      → HasDriver cache sc_name provisioner
      → (info : ScInfo) × ((cached_sc_info api cache sc_name).1 ≡ ok info)
        × (info.provisioner ≡ provisioner)
  unfolding cached_sc_info IsSeenAs fetched
  HasDriver-cached cache sc_name provisioner (inl (info, q, same)) =
      (info, subst (IsSeenAs cache sc_name info) (sym q) refl, same)
  HasDriver-cached cache sc_name provisioner (inr (q, (sc, read, same))) =
      let info : ScInfo = record {
        provisioner = sc.provisioner;
        subsystem = get_str "subsystem" sc.parameters;
      } in
      let got : (fetched api cache sc_name (api.get_storage_class sc_name)).1 ≡ ok info =
        subst (λ r. (fetched api cache sc_name r).1 ≡ ok info) (sym read) refl in
      (info, subst (IsSeenAs cache sc_name info) (sym q) got, same)

  -- What the webhook denies.
  abbrev pub IsDeniedFor : Cache → PvcObject → String → String → Type 0
  IsDeniedFor cache pvc sc_name provisioner =
      (pvc.storage_class_name ≡ some sc_name)
      × (sc_name ≢ "")
      × HasDriver cache sc_name provisioner
      × IsOurDriver provisioner
      × (get_str "app.kubernetes.io/managed-by" pvc.labels ≢ "vast-extensions-controller")
      × IsReadOnlySite pvc.namespace sc_name

  is_managed_iff :
      (pvc : PvcObject)
      → (is_managed api pvc ≡ false)
        ↔ (get_str "app.kubernetes.io/managed-by" pvc.labels ≢ "vast-extensions-controller")
  unfolding is_managed
  is_managed_iff pvc =
      let label =
        str_eq_iff (get_str "app.kubernetes.io/managed-by" pvc.labels)
          "vast-extensions-controller" in
      (λ h e. ground (arith, label, e), λ h. ground (arith, label, h))

  -- The webhook denies a decoded PVC exactly when all of this holds. The PVC names a StorageClass. The
  -- driver of the StorageClass, from the cache if it is there and else read, is the configured one, or
  -- matches the configured pattern where no driver is configured. The PVC has no label that says that the
  -- controller manages it. And some VolumeGroupReplication or VolumeReplication that the controller
  -- manages for the StorageClass in the namespace of the PVC is Secondary and not in a resync.
  pub handle_pvc-IsDeniedFor :
      (cache : Cache) (pvc : PvcObject)
      → ((handle_pvc api cfg cache (some pvc)).1 ≡ denied)
        ↔ ((sc_name : String) × (provisioner : String) × IsDeniedFor cache pvc sc_name provisioner)
  handle_pvc-IsDeniedFor cache pvc = (
    λ h.
        let (sc_name, info, (named, full, seen, (driver, unmanaged, frozen))) =
          (handle_pvc_denies_iff api cfg cache pvc).0 h in
        (
          sc_name,
          info.provisioner,
          (
            named,
            full,
            cached-HasDriver cache sc_name info seen,
            (matches_filter-IsOurDriver info.provisioner).0 driver,
            (is_managed_iff pvc).0 unmanaged,
            (check_replication_state_iff pvc.namespace sc_name).0 frozen,
          ),
        ),
    λ (sc_name, provisioner, (named, full, has, ours, unmanaged, frozen)).
        let (info, seen, same) = HasDriver-cached cache sc_name provisioner has in
        (handle_pvc_denies_iff api cfg cache pvc).1 (
          sc_name,
          info,
          (
            named,
            full,
            seen,
            (
              (matches_filter-IsOurDriver info.provisioner).1 (subst IsOurDriver (sym same) ours),
              (is_managed_iff pvc).1 unmanaged,
              (check_replication_state_iff pvc.namespace sc_name).1 frozen,
            ),
          ),
        ),
  )
