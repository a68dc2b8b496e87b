-- ===== src/Vms/Policies/Links.antt =====
-- What `DiscoverLinkPolicies` returns.
use vast_csi.Prelude.{
  String, ◌<>◌, true, false, ◌≡◌, refl, sym, ap, subst, ◌∙◌, ◌≢◌, some, List, [], ◌∷◌, ◌++◌, map,
  Result, ok, err, arith, keep_if, if◌then◌else◌, Pairwise, str_eq, str_eq_iff, lookup, append_to,
  get_list, get_list-append_to, get_list-nil, append-nil, append_assoc, Bool-cases, inl, inr,
  Option-cases, >>=-eq-ok, ok-inj,
}
use vast_csi.Prelude.Effects.{resume-ok, wrap_result, done, ◌>>◌}
use vast_csi.Vms.Tenants.{TenantInfo, tenant_from_mapping}
use vast_csi.Vms.Policies.{
  ReplicationEdge, ReplicationLink, ReplicationPeer, ProtectionPolicy, PolicyTemplateParams,
  PolicyRequest, PolicyApi, NativeTargets, policy_name_of, tenant_result, find_client, find_peer,
  new_replication_link,
}
use vast_csi.Vms.Policies.Discovery.{
  EdgeContext, edge_context, ensure_policy, create_policy, policy_or_create, wait_for_mirror,
  link_from, discover_link_policy, discover_edges, discover_link_policies,
  build_native_replica_targets_by_sc,
}

-- The tenant of a StorageClass is known, and it has an id and a GUID.
pub record HasTenant (tenants : List (String × TenantInfo)) (sc : String) (t : TenantInfo)
    : Type 0 where
  pub mapped : lookup sc tenants ≡ some t
  pub guid : t.guid ≢ ""
  pub id : t.id ≢ 0

tenant_result-HasTenant :
    {E : Type 0} (tenants : List (String × TenantInfo)) (sc : String) (t : TenantInfo)
    → tenant_result {E = E} (tenant_from_mapping tenants sc) ≡ ok t
    → HasTenant tenants sc t
unfolding tenant_from_mapping
tenant_result-HasTenant tenants sc t h = elim (Option-cases (lookup sc tenants)) [
  | inl e ↦ absurd (ground arith)
  | inr (x, e) ↦
      let same : x ≡ t = ground arith in
      record {
        mapped = e ∙ ap some same;
        guid = λ g. ground (arith, str_eq_iff x.guid "");
        id = λ g. ground arith;
      }
]

-- The link of an edge.
pub record IsLinkOf (owner_name : String) (tenants : List (String × TenantInfo))
    (edge : ReplicationEdge) (link : ReplicationLink) : Type 0 where
  pub same_edge : link.edge ≡ edge
  pub named : link.policy_name ≡ policy_name_of owner_name edge.peer_name
  pub local : HasTenant tenants edge.side_a link.local_tenant
  pub remote : HasTenant tenants edge.side_b link.remote_tenant

-- What the code relies on: a policy that is looked up or created by name has that name.
pub record NamesPolicies {W Rest E : Type 0} (api : PolicyApi W Rest E) : Type 0 where
  pub got :
      (rest : Rest) (name : String) (w w' : W) (p : ProtectionPolicy)
      → api.get_policy rest name w ≡ (w', ok p)
      → p.name ≡ name
  pub created :
      (rest : Rest) (r : PolicyRequest) (w w' : W) (p : ProtectionPolicy)
      → api.create_policy rest r w ≡ (w', ok p)
      → p.name ≡ r.name

wrap-ok :
    {W E F A : Type 0} (f : E → F) (r : W × Result E A) (w : W) (a : A)
    → wrap_result f r ≡ (w, ok a)
    → r ≡ (w, ok a)
wrap-ok f (w', ok b) w a h = cc
wrap-ok f (w', err e) w a h = absurd cc

edge_context-HasTenant :
    {Rest E : Type 0} (clients : List (String × Rest)) (tenants : List (String × TenantInfo))
    (targets : NativeTargets) (edge : ReplicationEdge) (c : EdgeContext Rest)
    → edge_context {E = E} clients tenants targets edge ≡ ok c
    → HasTenant tenants edge.side_a c.local_tenant × HasTenant tenants edge.side_b c.remote_tenant
unfolding edge_context
edge_context-HasTenant {Rest} {E} clients tenants targets edge c h =
    let (ra, e1, h1) = >>=-eq-ok (find_client clients edge.side_a) _ h in
    let (rb, e2, h2) = >>=-eq-ok (find_client clients edge.side_b) _ h1 in
    let (lt, e3, h3) = >>=-eq-ok (tenant_result (tenant_from_mapping tenants edge.side_a)) _ h2 in
    let (rt, e4, h4) = >>=-eq-ok (tenant_result (tenant_from_mapping tenants edge.side_b)) _ h3 in
    let (pa, e5, h5) = >>=-eq-ok (find_peer targets edge.side_a edge.peer_name) _ h4 in
    let (pb, e6, h6) = >>=-eq-ok (find_peer targets edge.side_b edge.peer_name) _ h5 in
    let same = ok-inj h6 in
    (
      subst (HasTenant tenants edge.side_a) (ap (λ x. x.local_tenant) same)
          (tenant_result-HasTenant tenants edge.side_a lt e3),
      subst (HasTenant tenants edge.side_b) (ap (λ x. x.remote_tenant) same)
          (tenant_result-HasTenant tenants edge.side_b rt e4),
    )

append_to-keep_if :
    (edge : ReplicationEdge) (link : ReplicationLink) (start : List (String × List ReplicationLink))
    (links : List ReplicationLink) (k : String)
    → link.edge ≡ edge
    → get_list k (append_to edge.side_a link start) ++ keep_if (λ l. str_eq l.edge.side_a k) links
      ≡ get_list k start ++ keep_if (λ l. str_eq l.edge.side_a k) (link ∷ links)
append_to-keep_if edge link start links k e =
    let side = ap (λ x. str_eq x.side_a k) e in
    let grown = get_list-append_to edge.side_a k link start in
    elim (Bool-cases (str_eq edge.side_a k)) [
      | inl at ↦
          let here : str_eq link.edge.side_a k ≡ true = ground arith in
          let all : get_list k (append_to edge.side_a link start)
              ≡ get_list k start ++ (link ∷ []) =
            ground arith in
          ap (λ z. z ++ keep_if (λ l. str_eq l.edge.side_a k) links) all
          ∙ append_assoc (get_list k start) (link ∷ [])
              (keep_if (λ l. str_eq l.edge.side_a k) links)
          ∙ ap
              (λ b.
                get_list k start
                ++ (if b
                    then link ∷ keep_if (λ l. str_eq l.edge.side_a k) links
                    else keep_if (λ l. str_eq l.edge.side_a k) links))
              (sym here)
      | inr off ↦
          let here : str_eq link.edge.side_a k ≡ false = ground arith in
          let all : get_list k (append_to edge.side_a link start) ≡ get_list k start =
            ground arith in
          ap (λ z. z ++ keep_if (λ l. str_eq l.edge.side_a k) links) all
          ∙ ap
              (λ b.
                get_list k start
                ++ (if b
                    then link ∷ keep_if (λ l. str_eq l.edge.side_a k) links
                    else keep_if (λ l. str_eq l.edge.side_a k) links))
              (sym here)
    ]

module _ {W Rest E : Type 0} (api : PolicyApi W Rest E) (names : NamesPolicies api) where
  policy_or_create-named :
      (rest : Rest) (edge : ReplicationEdge) (lt rt : TenantInfo) (tmpl : PolicyTemplateParams)
      (pa : ReplicationPeer) (prefix : String) (w w' : W) (r : W × Result E ProtectionPolicy)
      (policy : ProtectionPolicy)
      → api.get_policy rest (policy_name_of tmpl.owner_name edge.peer_name) w ≡ r
      → policy_or_create api (create_policy api rest edge lt rt tmpl pa prefix) r ≡ (w', ok policy)
      → policy.name ≡ policy_name_of tmpl.owner_name edge.peer_name
  unfolding policy_or_create create_policy
  policy_or_create-named rest edge lt rt tmpl pa prefix w w' (w1, ok existing) policy e h =
      names.got rest _ w w1 policy (e ∙ ap (λ p. (w1, ok p)) (ok-inj (ap (λ z. z.1) h)))
  policy_or_create-named rest edge lt rt tmpl pa prefix w w' (w1, err x) policy e h =
      names.created rest _ w1 w' policy (wrap-ok _ _ w' policy h)

  -- The link that `DiscoverLinkPolicies` finds or creates for an edge.
  discover_link_policy-IsLinkOf :
      (clients : List (String × Rest)) (tenants : List (String × TenantInfo))
      (targets : NativeTargets) (tmpl : PolicyTemplateParams) (edge : ReplicationEdge) (w w' : W)
      (link : ReplicationLink)
      → discover_link_policy api clients tenants targets tmpl edge w ≡ (w', ok link)
      → IsLinkOf tmpl.owner_name tenants edge link
  unfolding discover_link_policy link_from ensure_policy
  discover_link_policy-IsLinkOf clients tenants targets tmpl edge w w' link h =
      let (w1, c, e, h1) =
        resume-ok (link_from api tmpl edge) (w, edge_context clients tenants targets edge) w' link
          h in
      let prefix = tmpl.owner_name <> "-" <> c.peer_a.peer_name <> "-" <> c.peer_b.peer_name in
      let (w2, pair, e2, h2) =
        resume-ok (λ pair. wait_for_mirror api edge c.rest_b pair >> done pair)
          (ensure_policy api c.rest_a edge c.local_tenant c.remote_tenant tmpl c.peer_a c.peer_b
            prefix w1)
          w' link h1 in
      let (w3, policy, e3, h3) =
        resume-ok
          (λ p. done (new_replication_link p c.peer_a c.peer_b edge c.local_tenant c.remote_tenant))
          (policy_or_create api
            (create_policy api c.rest_a edge c.local_tenant c.remote_tenant tmpl c.peer_a prefix)
            (api.get_policy c.rest_a (policy_name_of tmpl.owner_name edge.peer_name) w1))
          w2 pair e2 in
      let (w4, u, e4, h4) =
        resume-ok (λ _. done pair) (wait_for_mirror api edge c.rest_b pair w2) w' link h2 in
      let made = ok-inj (ap (λ z. z.1) h3) ∙ ok-inj (ap (λ z. z.1) h4) in
      let (local, remote) =
        edge_context-HasTenant clients tenants targets edge c (ap (λ z. z.1) e) in
      let named =
        policy_or_create-named c.rest_a edge c.local_tenant c.remote_tenant tmpl c.peer_a prefix w1
          w3 _ policy refl e3 in
      subst (IsLinkOf tmpl.owner_name tenants edge) made
        (record { same_edge = refl; named = named; local = local; remote = remote })

  -- All links, in the order of the edges.
  discover_edges-links :
      (clients : List (String × Rest)) (tenants : List (String × TenantInfo))
      (targets : NativeTargets) (tmpl : PolicyTemplateParams)
      (start result : List (String × List ReplicationLink)) (edges : List ReplicationEdge)
      (w w' : W)
      → discover_edges api clients tenants targets tmpl start edges w ≡ (w', ok result)
      → (links : List ReplicationLink) × Pairwise (IsLinkOf tmpl.owner_name tenants) edges links
        × ((k : String)
            → get_list k result ≡ get_list k start ++ keep_if (λ l. str_eq l.edge.side_a k) links)
  unfolding discover_edges
  discover_edges-links clients tenants targets tmpl start result [] w w' h =
      let same = ok-inj (ap (λ z. z.1) h) in
      ([], tt, λ k. ap (get_list k) (sym same) ∙ sym (append-nil (get_list k start)))
  discover_edges-links clients tenants targets tmpl start result (edge ∷ edges) w w' h =
      let (w1, link, e, h1) =
        resume-ok
          (λ pair.
            discover_edges api clients tenants targets tmpl (append_to edge.side_a pair start)
              edges)
          (discover_link_policy api clients tenants targets tmpl edge w) w' result h in
      let (links, each, found) =
        discover_edges-links clients tenants targets tmpl (append_to edge.side_a link start) result
          edges w1 w' h1 in
      let first = discover_link_policy-IsLinkOf clients tenants targets tmpl edge w w1 link e in
      (
        link ∷ links,
        (first, each),
        λ k. found k ∙ append_to-keep_if edge link start links k first.same_edge,
      )

  -- When `DiscoverLinkPolicies` succeeds, there is a link for each edge, in the order of the edges:
  -- its policy is called after the owner and the peer, and the tenants of both its StorageClasses are
  -- in the mapping and have a GUID and an id. The answer has the links under the StorageClass of
  -- their side A and no others. It is stated for a service where a policy that is looked up or created
  -- by name has that name.
  pub discover_link_policies-links :
      (clients : List (String × Rest)) (tenants : List (String × TenantInfo))
      (edges : List ReplicationEdge) (tmpl : PolicyTemplateParams)
      (result : List (String × List ReplicationLink)) (w w' : W)
      → discover_link_policies api clients tenants edges tmpl w ≡ (w', ok result)
      → (links : List ReplicationLink) × Pairwise (IsLinkOf tmpl.owner_name tenants) edges links
        × ((k : String) → get_list k result ≡ keep_if (λ l. str_eq l.edge.side_a k) links)
  unfolding discover_link_policies
  discover_link_policies-links clients tenants edges tmpl result w w' h =
      let (w1, targets, e, h1) =
        resume-ok (λ targets. discover_edges api clients tenants targets tmpl [] edges)
          (build_native_replica_targets_by_sc api clients (map (λ e. e.peer_name) edges) w) w'
          result h in
      let (links, each, found) =
        discover_edges-links clients tenants targets tmpl [] result edges w1 w' h1 in
      (
        links,
        each,
        λ k. found k ∙ ap (λ z. z ++ keep_if (λ l. str_eq l.edge.side_a k) links) (get_list-nil k),
      )
