-- ===== src/Vms/Policies/Reach.antt =====
-- What `DeleteProtectionPolicies` does on the clusters, against the edges of the mesh.
use vast_csi.Prelude.{
  String, true, ◌≡◌, refl, sym, subst, ◌∙◌, ◌⊎◌, List, [], ◌∷◌, Result, ok, err, All, arith,
  Bool-cases, inl, inr, any, has, str_eq, str_eq_iff, lookup, get_list, or_nil,
}
use vast_csi.Prelude.Effects.{Io}
use vast_csi.Spec.Types.{ReplicationTarget}
use vast_csi.Vms.Policies.{ProtectionPolicy, PolicyApi, new_replication_edges_list}
use vast_csi.Vms.Policies.Deletion.{
  protection_policy_names_by_storage_class, delete_found, delete_policies, delete_with,
  delete_all_policies, delete_protection_policies,
}
use vast_csi.Vms.Policies.Cleanup.{has_policy_on, protection_policy_names_iff}
use vast_csi.Vms.Policies.Entries.{AllEntries, protection_policy_names-AllEntries}

module _ {W Rest E : Type 0} (api : PolicyApi W Rest E) (client_of : String → Io W E Rest)
    (owner_name primary_sc : String) (topology : List ReplicationTarget) (P : W → Type 0) where
  -- Some edge of the mesh has its policy under that name on the cluster of the StorageClass.
  abbrev pub Belongs : String → String → Type 0
  Belongs sc name =
      any (has_policy_on owner_name sc name) (new_replication_edges_list topology primary_sc) ≡ true

  -- What keeps the condition: building a client, looking up a policy, and deleting a policy that was found
  -- under the name of an edge's policy by the client of a StorageClass where that edge has it.
  pub record IsKept : Type 0 where
    pub built : (sc : String) (w : W) → P w → P (client_of sc w).0
    pub looked_up : (rest : Rest) (name : String) (w : W) → P w → P (api.get_policy rest name w).0
    pub deleted :
        (sc name : String) (rest : Rest) (policy : ProtectionPolicy) (u u' v w : W)
        → Belongs sc name
        → client_of sc u ≡ (u', ok rest)
        → api.get_policy rest name v ≡ (w, ok policy)
        → P w
        → P (api.delete_policy rest policy.id w).0

  -- What brings the condition about: the client of the StorageClass can always be built, some edge has a
  -- policy of the name there, and with that client either the policy is not found, or it is found and its
  -- deletion is called.
  pub record IsReached : Type 0 where
    pub sc : String
    pub name : String
    pub rest : Rest
    pub belongs : Belongs sc name
    pub builds : (w : W) → (v : W) × (client_of sc w ≡ (v, ok rest))
    pub not_found : (w v : W) (e : E) → api.get_policy rest name w ≡ (v, err e) → P v
    pub removed :
        (w v : W) (policy : ProtectionPolicy)
        → api.get_policy rest name w ≡ (v, ok policy)
        → P (api.delete_policy rest policy.id v).0

  module _ (kept : IsKept) where
    delete_found-kept :
        (sc name : String) (rest : Rest) (u u' v : W)
        → Belongs sc name
        → client_of sc u ≡ (u', ok rest)
        → P v
        → P (delete_found api client_of rest (api.get_policy rest name v))
    unfolding delete_found
    delete_found-kept sc name rest u u' v belongs built p =
        at (api.get_policy rest name v) refl (kept.looked_up rest name v p)
      where
        at :
            (r : W × Result E ProtectionPolicy)
            → api.get_policy rest name v ≡ r
            → P r.0
            → P (delete_found api client_of rest r)
        at (w, err e) got q = q
        at (w, ok policy) got q = kept.deleted sc name rest policy u u' v w belongs built got q

    delete_policies-kept :
        (sc : String) (rest : Rest) (names : List String) (u u' v : W)
        → All (Belongs sc) names
        → client_of sc u ≡ (u', ok rest)
        → P v
        → P (delete_policies api client_of rest names v)
    unfolding delete_policies
    delete_policies-kept sc rest [] u u' v all built p = p
    delete_policies-kept sc rest (name ∷ names) u u' v (b, all) built p =
        delete_policies-kept sc rest names u u'
          (delete_found api client_of rest (api.get_policy rest name v)) all built
          (delete_found-kept sc name rest u u' v b built p)

    delete_with-kept :
        (sc : String) (names : List String) (u : W) (r : W × Result E Rest)
        → client_of sc u ≡ r
        → All (Belongs sc) names
        → P r.0
        → P (delete_with api client_of names r)
    unfolding delete_with
    delete_with-kept sc names u (w, err e) built all p = p
    delete_with-kept sc names u (w, ok rest) built all p =
        delete_policies-kept sc rest names u w w all built p

    delete_all_policies-kept :
        (m : List (String × List String)) (w : W)
        → AllEntries Belongs m
        → P w
        → P (delete_all_policies api client_of m w)
    unfolding delete_all_policies
    delete_all_policies-kept [] w all p = p
    delete_all_policies-kept ((sc, names) ∷ m) w (a, all) p =
        delete_all_policies-kept m (delete_with api client_of names (client_of sc w)) all
          (delete_with-kept sc names w (client_of sc w) refl a (kept.built sc w p))

    module _ (reached : IsReached) where
      delete_found-reached :
          (w : W)
          → P (delete_found api client_of reached.rest (api.get_policy reached.rest reached.name w))
      unfolding delete_found
      delete_found-reached w = at (api.get_policy reached.rest reached.name w) refl
        where
          at :
              (r : W × Result E ProtectionPolicy)
              → api.get_policy reached.rest reached.name w ≡ r
              → P (delete_found api client_of reached.rest r)
          at (v, err e) got = reached.not_found w v e got
          at (v, ok policy) got = reached.removed w v policy got

      delete_policies-reached :
          (names : List String) (u u' w : W)
          → All (Belongs reached.sc) names
          → client_of reached.sc u ≡ (u', ok reached.rest)
          → has reached.name names ≡ true
          → P (delete_policies api client_of reached.rest names w)
      unfolding delete_policies has
      delete_policies-reached [] u u' w all built h = absurd (ground arith)
      delete_policies-reached (name ∷ names) u u' w (b, all) built h =
          let after =
            delete_found api client_of reached.rest (api.get_policy reached.rest name w) in
          elim (Bool-cases (str_eq name reached.name)) [
            | inl e ↦ delete_policies-kept reached.sc reached.rest names u u' after all built (
                subst
                  (λ n.
                    P (delete_found api client_of reached.rest (api.get_policy reached.rest n w)))
                  (sym ((str_eq_iff name reached.name).0 e)) (delete_found-reached w))
            | inr e ↦ delete_policies-reached names u u' after all built (ground arith)
          ]

      delete_with-reached :
          (names : List String) (w : W)
          → All (Belongs reached.sc) names
          → has reached.name names ≡ true
          → P (delete_with api client_of names (client_of reached.sc w))
      unfolding delete_with
      delete_with-reached names w all h =
          let (v, built) = reached.builds w in
          subst (λ r. P (delete_with api client_of names r)) (sym built)
            (delete_policies-reached names w v v all built h)

      delete_all_policies-reached :
          (m : List (String × List String)) (w : W)
          → AllEntries Belongs m
          → has reached.name (get_list reached.sc m) ≡ true
          → P (delete_all_policies api client_of m w)
      unfolding delete_all_policies get_list lookup or_nil has
      delete_all_policies-reached [] w all h = absurd (ground arith)
      delete_all_policies-reached ((sc, names) ∷ m) w (a, all) h =
          let after = delete_with api client_of names (client_of sc w) in
          elim (Bool-cases (str_eq sc reached.sc)) [
            | inl e ↦
                let same = (str_eq_iff sc reached.sc).0 e in
                let there = rw e at h in
                delete_all_policies-kept m after all (
                  subst (λ c. P (delete_with api client_of names (client_of c w))) (sym same)
                    (delete_with-reached names w (subst (λ c. All (Belongs c) names) same a) there))
            | inr e ↦ let there = rw e at h in delete_all_policies-reached m after all there
          ]

-- `DeleteProtectionPolicies`, for any condition on the world that no building of a client and no lookup
-- breaks, and no deletion of a policy that was found under the name of an edge's policy on the cluster of
-- a StorageClass where that edge has it. If the condition holds before, it holds afterwards, so nothing
-- else is done. And it holds afterwards in any case if it is brought about for some such policy, on a
-- cluster whose client can be built, both by a lookup that does not find the policy and by the call that
-- deletes it where it is found: each policy is looked up, and deleted if it is there.
pub delete_protection_policies-IsReached :
    {W Rest E : Type 0}
    → (api : PolicyApi W Rest E) (client_of : String → Io W E Rest) (owner_name primary_sc : String)
      (topology : List ReplicationTarget) (P : W → Type 0) (w : W)
    → IsKept api client_of owner_name primary_sc topology P
    → (P w) ⊎ IsReached api client_of owner_name primary_sc topology P
    → P (delete_protection_policies api client_of owner_name primary_sc topology w)
unfolding delete_protection_policies
delete_protection_policies-IsReached api client_of owner_name primary_sc topology P w kept h =
    let m = protection_policy_names_by_storage_class owner_name primary_sc topology in
    let all =
      protection_policy_names-AllEntries owner_name primary_sc
        (Belongs api client_of owner_name primary_sc topology P) topology (λ sc name b. b) in
    elim h [
      | inl p ↦
          delete_all_policies-kept api client_of owner_name primary_sc topology P kept m w all p
      | inr reached ↦
          delete_all_policies-reached api client_of owner_name primary_sc topology P kept reached m
            w all
            (protection_policy_names_iff owner_name primary_sc reached.sc reached.name topology
              ∙ reached.belongs)
    ]
