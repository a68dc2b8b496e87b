-- ===== src/Vms/Tenants/Laws.antt =====
-- Which tenant `ResolveTenant` and `TenantFromMapping` of tenant.go return.
use vast_csi.Prelude.{
  ℕ, String, Bool, not, ◌&&◌, ◌≡◌, ◌≢◌, refl, ap, ◌∙◌, none, some, List, Option, Result, ok, err,
  reject_if, str_eq, str_eq_iff, lookup, get_str, ◌==◌, ◌>>=◌, ◌>>◌, inl, inr, ◌↔◌, Bool-cases,
  arith, if◌then◌else◌,
}
use vast_csi.K8s.{StorageClass, is_block_storage_class}
use vast_csi.Vms.Tenants.{
  TenantInfo, TenantError, missing_from_mapping, empty_guid, empty_id, tenant_lookup, view_lookup,
  policy_lookup, tenant_from_mapping, ResolveError, TenantApi, under, resolve_tenant_by_id,
  resolve_block_tenant, resolve_file_tenant, resolve_tenant,
}

-- The cached tenant is returned exactly when the mapping has an entry for the StorageClass whose guid is
-- not empty and whose id is not 0.
pub tenant_from_mapping_iff :
    (m : List (String × TenantInfo)) (sc_name : String) (t : TenantInfo)
    → (tenant_from_mapping m sc_name ≡ ok t)
      ↔ (lookup sc_name m ≡ some t) × (t.guid ≢ "") × (t.id ≢ 0)
unfolding tenant_from_mapping
tenant_from_mapping_iff m sc_name t = at (lookup sc_name m)
  where
    at :
        (o : Option TenantInfo)
        → ((elim o as (λ _. Result TenantError TenantInfo) [
          | none ↦ err (missing_from_mapping sc_name)
          | some u ↦
              reject_if (str_eq u.guid "") (empty_guid sc_name)
              >> (reject_if (u.id == 0) (empty_id sc_name) >> ok u)
        ])
            ≡ ok t)
          ↔ (o ≡ some t) × (t.guid ≢ "") × (t.id ≢ 0)
    at none = ground arith
    at (some u) = ground (arith, str_eq_iff u.guid "", str_eq_iff t.guid "")

-- The parameter that names the view of a block StorageClass, or the view policy of another one.
abbrev pub required : StorageClass → String
required sc =
    if is_block_storage_class sc
    then get_str "subsystem" sc.parameters
    else get_str "view_policy" sc.parameters

-- A block StorageClass may name its tenant.
abbrev pub names_tenant : StorageClass → Bool
names_tenant sc = is_block_storage_class sc && not (str_eq (get_str "tenant_name" sc.parameters) "")

module _ {E : Type 0} where
  -- The id of the tenant that the view or the view policy belongs to.
  abbrev pub owner_id : TenantApi E → StorageClass → Result E ℕ
  owner_id rest sc =
      if is_block_storage_class sc
      then rest.view_tenant_id (required sc)
      else rest.view_policy_tenant_id (required sc)

  under-ok :
      {A : Type 0} (f : E → ResolveError E) (r : Result E A) (a : A)
      → (under f r ≡ ok a) ↔ (r ≡ ok a)
  under-ok f (ok b) a = ground arith
  under-ok f (err e) a = ground arith

  by_id :
      (rest : TenantApi E) (f : E → ResolveError E) (r : Result E ℕ) (t : TenantInfo)
      → ((under f r >>= resolve_tenant_by_id rest) ≡ ok t)
        ↔ (id : ℕ) × (r ≡ ok id) × (rest.tenant_by_id id ≡ ok t)
  unfolding resolve_tenant_by_id
  by_id rest f (ok i) t = (
    λ h. (i, refl, (under-ok tenant_lookup (rest.tenant_by_id i) t).0 h),
    λ (id, e, h).
        let same : i ≡ id = ground arith in
        (under-ok tenant_lookup (rest.tenant_by_id i) t).1 (ap rest.tenant_by_id same ∙ h),
  )
  by_id rest f (err e) t = (λ h. absurd cc, λ (id, p, h). absurd cc)

  -- A required parameter, and what comes after the test of it.
  present_iff :
      {Q : Type 0} (s : String) (e : ResolveError E) (r : Result (ResolveError E) TenantInfo)
      (t : TenantInfo)
      → ((r ≡ ok t) ↔ Q)
      → ((if str_eq s "" then err e else r) ≡ ok t) ↔ (s ≢ "") × Q
  present_iff s e r t (to, from) = elim (Bool-cases (str_eq s "")) [
    | inl h ↦ rw h (λ p. absurd cc, λ (n, q). absurd (n ((str_eq_iff s "").0 h)))
    | inr h ↦
        let n : s ≢ "" = ground (arith, str_eq_iff s "") in rw h (λ p. (n, to p), λ (m, q). from q)
  ]

  -- A tenant is returned exactly when the StorageClass has the parameter that names its view or view
  -- policy, and the cluster returns that tenant: by the name that a block StorageClass gives, and
  -- otherwise by the id that the view or the view policy belongs to.
  pub resolve_tenant_iff :
      (rest : TenantApi E) (sc : StorageClass) (t : TenantInfo)
      → (resolve_tenant rest sc ≡ ok t)
        ↔ (required sc ≢ "")
          × (if names_tenant sc
              then rest.tenant_by_name (get_str "tenant_name" sc.parameters) ≡ ok t
              else (id : ℕ) × (owner_id rest sc ≡ ok id) × (rest.tenant_by_id id ≡ ok t))
  unfolding resolve_tenant resolve_block_tenant resolve_file_tenant
  resolve_tenant_iff rest sc t = elim (Bool-cases (is_block_storage_class sc)) [
    | inl b ↦ rw b (
        present_iff subsystem _ _ t (elim (Bool-cases (str_eq tenant_name "")) [
          | inl e ↦ rw e (by_id rest view_lookup (rest.view_tenant_id subsystem) t)
          | inr e ↦ rw e (under-ok tenant_lookup (rest.tenant_by_name tenant_name) t)
        ]))
    | inr b ↦ rw b (
        present_iff view_policy _ _ t
          (by_id rest policy_lookup (rest.view_policy_tenant_id view_policy) t))
  ]
    where
      subsystem : String
      subsystem = get_str "subsystem" sc.parameters

      tenant_name : String
      tenant_name = get_str "tenant_name" sc.parameters

      view_policy : String
      view_policy = get_str "view_policy" sc.parameters
