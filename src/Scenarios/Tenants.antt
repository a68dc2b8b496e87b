-- ===== src/Scenarios/Tenants.antt =====
-- The theorems about tenants, on a block StorageClass without a tenant name.
use vast_csi.Prelude.{
  ℕ, String, ◌≡◌, ◌≢◌, ◌↔◌, some, List, [], ◌∷◌, ok, err, lookup, get_str, if◌then◌else◌,
}
use vast_csi.K8s.{StorageClass}
use vast_csi.Vms.Tenants.{TenantInfo, TenantApi, tenant_from_mapping, resolve_tenant}
use vast_csi.Vms.Tenants.Laws.{
  tenant_from_mapping_iff, resolve_tenant_iff, required, names_tenant, owner_id,
}

abbrev seven : TenantInfo
seven = record { name = "t"; guid = "g"; id = 7 }

abbrev mapping : List (String × TenantInfo)
mapping = ("gold", seven) ∷ []

tenant_from_mapping_iff_example :
    (tenant_from_mapping mapping "gold" ≡ ok seven)
    ↔ (lookup "gold" mapping ≡ some seven) × (seven.guid ≢ "") × (seven.id ≢ 0)
tenant_from_mapping_iff_example = tenant_from_mapping_iff mapping "gold" seven

abbrev one_tenant : TenantApi String
one_tenant = record {
  tenant_by_name = λ name. ok seven;
  tenant_by_id = λ id. ok seven;
  view_tenant_id = λ name. ok 7;
  view_policy_tenant_id = λ name. err "no view policy";
}

abbrev block_sc : StorageClass
block_sc = record {
  name = "gold";
  provisioner = "block.csi.vastdata.com";
  parameters = ("subsystem", "sub") ∷ [];
}

resolve_tenant_iff_example :
    (resolve_tenant one_tenant block_sc ≡ ok seven)
    ↔ (required block_sc ≢ "")
      × (if names_tenant block_sc
          then one_tenant.tenant_by_name (get_str "tenant_name" block_sc.parameters) ≡ ok seven
          else (id : ℕ) × (owner_id one_tenant block_sc ≡ ok id)
            × (one_tenant.tenant_by_id id ≡ ok seven))
resolve_tenant_iff_example = resolve_tenant_iff one_tenant block_sc seven
