-- ===== src/Vms/Tenants.antt =====
-- extensions-controller/internal/common/vmsrest/tenant.go: the VAST tenant of a StorageClass. The
-- queries of the cluster are arguments; a Go map is an association list.
pub mod Laws
use vast_csi.Prelude.{
  ℕ, String, none, some, List, Result, ok, err, reject_if, str_eq, lookup, get_str, ◌==◌, ◌>>=◌,
  ◌>>◌, if◌then◌else◌,
}
use vast_csi.K8s.{StorageClass, is_block_storage_class}

-- `id` is the int64 as its 64-bit pattern.
pub record TenantInfo : Type 0 where
  pub name : String
  pub guid : String
  pub id : ℕ

pub data TenantError : Type 0 where
  missing_from_mapping empty_guid empty_id : String → TenantError

unfoldable pub tenant_from_mapping :
    List (String × TenantInfo) → String → Result TenantError TenantInfo
tenant_from_mapping m sc_name = elim (lookup sc_name m) [
  | none ↦ err (missing_from_mapping sc_name)
  | some t ↦ do
    reject_if (str_eq t.guid "") (empty_guid sc_name)
    reject_if (t.id == 0) (empty_id sc_name)
    ok t
]

pub data ResolveError (E : Type 0) : Type 0 where
  missing_parameter : String → ResolveError E
  tenant_lookup view_lookup policy_lookup : E → ResolveError E

-- The calls on a cluster. A view and a view policy are their tenant's id.
pub record TenantApi (E : Type 0) : Type 0 where
  pub tenant_by_name : String → Result E TenantInfo
  pub tenant_by_id : ℕ → Result E TenantInfo
  pub view_tenant_id : String → Result E ℕ
  pub view_policy_tenant_id : String → Result E ℕ

module _ {E : Type 0} where
  abbrev pub under : {A : Type 0} → (E → ResolveError E) → Result E A → Result (ResolveError E) A
  under f (ok a) = ok a
  under f (err e) = err (f e)

  unfoldable pub resolve_tenant_by_id : TenantApi E → ℕ → Result (ResolveError E) TenantInfo
  resolve_tenant_by_id rest id = under tenant_lookup (rest.tenant_by_id id)

  unfoldable pub resolve_block_tenant :
      TenantApi E → StorageClass → Result (ResolveError E) TenantInfo
  resolve_block_tenant rest sc =
      let subsystem = get_str "subsystem" sc.parameters in
      let tenant_name = get_str "tenant_name" sc.parameters in
      if str_eq subsystem ""
      then err (missing_parameter "subsystem")
      else if str_eq tenant_name ""
      then under view_lookup (rest.view_tenant_id subsystem) >>= resolve_tenant_by_id rest
      else under tenant_lookup (rest.tenant_by_name tenant_name)

  unfoldable pub resolve_file_tenant :
      TenantApi E → StorageClass → Result (ResolveError E) TenantInfo
  resolve_file_tenant rest sc =
      let view_policy = get_str "view_policy" sc.parameters in
      if str_eq view_policy ""
      then err (missing_parameter "view_policy")
      else under policy_lookup (rest.view_policy_tenant_id view_policy)
        >>= resolve_tenant_by_id rest

  unfoldable pub resolve_tenant : TenantApi E → StorageClass → Result (ResolveError E) TenantInfo
  resolve_tenant rest sc =
      if is_block_storage_class sc
      then resolve_block_tenant rest sc
      else resolve_file_tenant rest sc
