-- ===== src/Scenarios/Clusters.antt =====
-- The theorems about the clusters, on small services.
use vast_csi.Prelude.{
  ℕ, ◌+◌, String, Bool, true, ◌≡◌, refl, sym, ap, ◌∙◌, ◌↔◌, none, some, List, [], ◌∷◌, map, ok,
  arith, has, has-keep_if, keep_if, add, Pairwise, str_eq, str_lt, lookup, insert, get_list,
  append_to, or_nil, sort_by, insert_by, sort_strings, leb, ok-inj,
}
use vast_csi.Prelude.Effects.{Io, done, fail}
use vast_csi.Vms.Peers.{
  storage_class_needs_peer_discovery, explicit_from, explicit_peer_names_for_sc, shared_names,
  discover_peer, choose_peer, resolve_peer_name, resolve_entries, note_peers, sort_values,
  topology_peer_names_by_sc, name_set, peer_filter, build_peer_names_by_sc, fetch_peers,
  fetch_resolved, resolve_and_fetch_topology_peers,
}
use vast_csi.Vms.Peers.Index.{ListsPeers}
use vast_csi.Vms.Peers.Resolve.{IsResolved, resolve_peer_name_iff}
use vast_csi.Vms.Peers.Laws.{IsLinked, resolve_and_fetch_topology_peers_sound}
use vast_csi.Vms.Wait.{Clock, wait_resource, wait_for_resource, after_check, poll}
use vast_csi.Vms.Wait.Laws.{IsEnd, wait_resource-IsEnd}
use vast_csi.Vms.Tenants.{TenantInfo, tenant_from_mapping}
use vast_csi.Vms.Policies.{
  ReplicationEdge, ReplicationLink, PolicyTemplateParams, PolicyApi, by_name_from, find_client,
  find_peer,
}
use vast_csi.Vms.Policies.Discovery.{
  edge_context, build_native_replica_targets_by_sc, create_policy, policy_or_create, ensure_policy,
  wait_for_mirror, link_from, discover_link_policy, discover_edges, discover_link_policies,
}
use vast_csi.Vms.Policies.Links.{IsLinkOf, NamesPolicies, discover_link_policies-links}
use vast_csi.Scenarios.{edge_of, triangle, list_names, clusters}

-- `list_names` returns what its filter lets through.
list_names-ListsPeers : ListsPeers (λ peers. peers) list_names
list_names-ListsPeers peers none names h k = ground (arith, ap (has k) (ok-inj h))
list_names-ListsPeers peers (some wanted) names h k =
    sym (ap (has k) (ok-inj h)) ∙ has-keep_if (λ n. has n wanted) k peers

resolve_and_fetch_topology_peers_sound_example :
    Pairwise
      (IsLinked (λ peers. peers) clusters)
      triangle
      (resolve_and_fetch_topology_peers list_names clusters triangle).0
unfolding resolve_and_fetch_topology_peers build_peer_names_by_sc peer_filter
    storage_class_needs_peer_discovery explicit_peer_names_for_sc explicit_from name_set
    resolve_entries resolve_peer_name choose_peer discover_peer shared_names fetch_resolved
    fetch_peers topology_peer_names_by_sc note_peers sort_values str_eq str_lt has add lookup insert
    sort_strings sort_by insert_by
resolve_and_fetch_topology_peers_sound_example =
    resolve_and_fetch_topology_peers_sound (λ peers. peers) list_names list_names-ListsPeers
      clusters triangle refl

resolve_peer_name_iff_example :
    (resolve_peer_name (edge_of "bronze" "gold" "") clusters ≡ ok (edge_of "bronze" "gold" "q"))
    ↔ IsResolved
        (edge_of "bronze" "gold" "")
        (edge_of "bronze" "gold" "q")
        ("q" ∷ "r" ∷ "s" ∷ [])
        ("p" ∷ "q" ∷ [])
unfolding str_eq lookup has
resolve_peer_name_iff_example =
    resolve_peer_name_iff (edge_of "bronze" "gold" "") (edge_of "bronze" "gold" "q") clusters
      ("q" ∷ "r" ∷ "s" ∷ []) ("p" ∷ "q" ∷ []) (refl, (refl, (refl, tt))) refl refl

-- The world is the time; the resource is there from 12 on.
abbrev seconds : Clock ℕ
seconds = record { now = λ w. w; sleep = λ d w. w + d }

abbrev from_twelve : Io ℕ String Bool
from_twelve w = (w, ok (leb 12 w))

wait_resource-IsEnd_example :
    IsEnd seconds from_twelve (3 + 60) (wait_resource seconds from_twelve 60 5 3)
wait_resource-IsEnd_example =
    wait_resource-IsEnd seconds from_twelve (λ w. omega arith) (λ d w. omega arith) 60 5 3
      (omega arith)

-- A service where each peer is known everywhere; the world is the list of the policies made so far.
abbrev service : PolicyApi (List String) String String
service = record {
  list_peers = λ rest names.
      done (map (λ n. record { id = 4; name = n; peer_name = rest; status = "OK" }) names);
  get_policy = λ rest name. fail "none";
  create_policy = λ rest r made. (r.name ∷ made, ok (record { id = 9; name = r.name }));
  policy_exists = λ rest name. done true;
  delete_policy = λ rest id. done tt;
  clock = record { now = λ w. 0; sleep = λ d w. w };
}

service-NamesPolicies : NamesPolicies service
service-NamesPolicies = record {
  got = λ rest name w w' p h. absurd cc;
  created = λ rest r w w' p h. sym (ap (λ q. q.name) (ok-inj (ap (λ z. z.1) h)));
}

abbrev tenant_of : String → TenantInfo
tenant_of guid = record { name = "t"; guid = guid; id = 1 }

abbrev gold_to_silver : ReplicationEdge
gold_to_silver = record { side_a = "gold"; side_b = "silver"; peer_name = "p" }

abbrev own_params : PolicyTemplateParams
own_params = record { owner_name = "own"; frames = [] }

abbrev gold_link : ReplicationLink
gold_link = record {
  policy_name = "own-p";
  policy_id = 9;
  local_peer_target_name = "p";
  remote_peer_target_name = "p";
  local_peer_name = "G";
  remote_peer_name = "S";
  edge = gold_to_silver;
  local_tenant = tenant_of "g";
  remote_tenant = tenant_of "s";
}

discover_link_policies-links_example :
    (links : List ReplicationLink) × Pairwise
      (IsLinkOf "own" (("gold", tenant_of "g") ∷ ("silver", tenant_of "s") ∷ []))
      (gold_to_silver ∷ [])
      links
    × ((k : String)
        → get_list k (("gold", gold_link ∷ []) ∷ []) ≡ keep_if (λ l. str_eq l.edge.side_a k) links)
unfolding discover_link_policies build_native_replica_targets_by_sc by_name_from discover_edges
    discover_link_policy edge_context find_client find_peer tenant_from_mapping link_from
    ensure_policy policy_or_create create_policy wait_for_mirror wait_for_resource wait_resource
    poll after_check append_to get_list or_nil str_eq lookup insert
discover_link_policies-links_example =
    discover_link_policies-links service service-NamesPolicies
      (("gold", "G") ∷ ("silver", "S") ∷ [])
      (("gold", tenant_of "g") ∷ ("silver", tenant_of "s") ∷ []) (gold_to_silver ∷ []) own_params
      (("gold", gold_link ∷ []) ∷ []) [] ("own-p" ∷ []) refl
