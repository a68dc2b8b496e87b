-- ===== src/Vms/Policies/Discovery.antt =====
-- `DiscoverLinkPolicies` and `ensurePolicy` of discover_policies.go.
use vast_csi.Prelude.{String, ◌<>◌, List, [], ◌∷◌, map, Result, ok, err, append_to, ◌>>=◌ as ◌>>>=◌}
use vast_csi.Prelude.Effects.{Io, ◌>>=◌, ◌>>◌, done, lift, wrap}
use vast_csi.Vms.Tenants.{TenantInfo, tenant_from_mapping}
use vast_csi.Vms.Wait.{present, wait_for_resource}
use vast_csi.Vms.Policies.{
  ReplicationEdge, ReplicationLink, PolicyTemplateParams, ReplicationPeer, ProtectionPolicy,
  PolicyApi, PolicyError, list_failed, create_failed, not_mirrored, NativeTargets, by_name_from,
  tenant_result, find_client, find_peer, new_replication_link, policy_name_of,
}

-- What `DiscoverLinkPolicies` has looked up for an edge before it asks for the policy.
pub record EdgeContext (Rest : Type 0) : Type 0 where
  pub rest_a : Rest
  pub rest_b : Rest
  pub local_tenant : TenantInfo
  pub remote_tenant : TenantInfo
  pub peer_a : ReplicationPeer
  pub peer_b : ReplicationPeer

unfoldable pub edge_context :
    {Rest E : Type 0}
    → List (String × Rest)
    → List (String × TenantInfo)
    → NativeTargets
    → ReplicationEdge
    → Result (PolicyError E) (EdgeContext Rest)
edge_context clients tenants targets edge = find_client clients edge.side_a >>>= λ rest_a.
    find_client clients edge.side_b >>>= λ rest_b.
    tenant_result (tenant_from_mapping tenants edge.side_a) >>>= λ local_tenant.
    tenant_result (tenant_from_mapping tenants edge.side_b) >>>= λ remote_tenant.
    find_peer targets edge.side_a edge.peer_name >>>= λ peer_a.
    find_peer targets edge.side_b edge.peer_name >>>= λ peer_b. ok (record {
      rest_a = rest_a;
      rest_b = rest_b;
      local_tenant = local_tenant;
      remote_tenant = remote_tenant;
      peer_a = peer_a;
      peer_b = peer_b;
    })

module _ {W Rest E : Type 0} (api : PolicyApi W Rest E) where
  -- `buildNativeReplicaTargetsBySC`
  unfoldable pub build_native_replica_targets_by_sc :
      List (String × Rest) → List String → Io W (PolicyError E) NativeTargets
  build_native_replica_targets_by_sc [] want_peer_names = done []
  build_native_replica_targets_by_sc ((sc_name, rest) ∷ clients) want_peer_names = do
    peers ← wrap (list_failed sc_name) (api.list_peers rest want_peer_names)
    result ← build_native_replica_targets_by_sc clients want_peer_names
    done ((sc_name, by_name_from [] peers) ∷ result)

  -- The second half of `ensurePolicy`.
  unfoldable pub create_policy :
      Rest
      → ReplicationEdge
      → TenantInfo
      → TenantInfo
      → PolicyTemplateParams
      → ReplicationPeer
      → String
      → Io W (PolicyError E) ProtectionPolicy
  create_policy rest edge local_tenant remote_tenant tmpl peer_a prefix =
      wrap (create_failed edge.side_a) (
        api.create_policy rest (record {
          name = policy_name_of tmpl.owner_name edge.peer_name;
          target_object_id = peer_a.id;
          prefix = prefix;
          frames = tmpl.frames;
          tenant_id = local_tenant.id;
          remote_tenant_guid = remote_tenant.guid;
        }))

  -- What `ensurePolicy` does with the answer of its first query: any error leads to a creation.
  unfoldable pub policy_or_create :
      Io W (PolicyError E) ProtectionPolicy
      → W × Result E ProtectionPolicy
      → W × Result (PolicyError E) ProtectionPolicy
  policy_or_create create (w, ok existing) = (w, ok existing)
  policy_or_create create (w, err _) = create w

  unfoldable pub ensure_policy :
      Rest
      → ReplicationEdge
      → TenantInfo
      → TenantInfo
      → PolicyTemplateParams
      → ReplicationPeer
      → ReplicationPeer
      → String
      → Io W (PolicyError E) ReplicationLink
  ensure_policy rest edge local_tenant remote_tenant tmpl peer_a peer_b prefix = do
    policy ← λ w.
        policy_or_create (create_policy rest edge local_tenant remote_tenant tmpl peer_a prefix)
          (api.get_policy rest (policy_name_of tmpl.owner_name edge.peer_name) w)
    done (new_replication_link policy peer_a peer_b edge local_tenant remote_tenant)

  -- Waiting until the policy is on side B: for 60 s, in steps of 5 s.
  unfoldable pub wait_for_mirror :
      ReplicationEdge → Rest → ReplicationLink → Io W (PolicyError E) (Unit {0})
  wait_for_mirror edge rest_b pair =
      wrap (not_mirrored edge.side_b)
        (wait_for_resource api.clock (api.policy_exists rest_b pair.policy_name) present 60 5)

  unfoldable pub link_from :
      PolicyTemplateParams
      → ReplicationEdge
      → EdgeContext Rest
      → Io W (PolicyError E) ReplicationLink
  link_from tmpl edge c = do
    pair ←
        ensure_policy c.rest_a edge c.local_tenant c.remote_tenant tmpl c.peer_a c.peer_b
          (tmpl.owner_name <> "-" <> c.peer_a.peer_name <> "-" <> c.peer_b.peer_name)
    wait_for_mirror edge c.rest_b pair
    done pair

  -- One round of the loop of `DiscoverLinkPolicies`.
  unfoldable pub discover_link_policy :
      List (String × Rest)
      → List (String × TenantInfo)
      → NativeTargets
      → PolicyTemplateParams
      → ReplicationEdge
      → Io W (PolicyError E) ReplicationLink
  discover_link_policy clients tenants targets tmpl edge =
      lift (edge_context clients tenants targets edge) >>= link_from tmpl edge

  unfoldable pub discover_edges :
      List (String × Rest)
      → List (String × TenantInfo)
      → NativeTargets
      → PolicyTemplateParams
      → List (String × List ReplicationLink)
      → List ReplicationEdge
      → Io W (PolicyError E) (List (String × List ReplicationLink))
  discover_edges clients tenants targets tmpl result [] = done result
  discover_edges clients tenants targets tmpl result (edge ∷ edges) = do
    pair ← discover_link_policy clients tenants targets tmpl edge
    discover_edges clients tenants targets tmpl (append_to edge.side_a pair result) edges

  unfoldable pub discover_link_policies :
      List (String × Rest)
      → List (String × TenantInfo)
      → List ReplicationEdge
      → PolicyTemplateParams
      → Io W (PolicyError E) (List (String × List ReplicationLink))
  discover_link_policies clients tenants edges tmpl = do
    targets ← build_native_replica_targets_by_sc clients (map (λ e. e.peer_name) edges)
    discover_edges clients tenants targets tmpl [] edges
