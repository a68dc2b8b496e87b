-- ===== src/Vms/Peers.antt =====
-- extensions-controller/internal/common/vmsrest/peer_resolution.go: the ReplicationPeer of each
-- topology entry. The REST client of a cluster and its List call are arguments.
pub mod Resolve
pub mod Index
pub mod Laws
use vast_csi.Prelude.{
  ℕ, suc, String, Bool, true, false, not, ◌&&◌, ◌||◌, Option, none, some, List, [], ◌∷◌, Result, ok,
  err, str_eq, has, add, sort_strings, keep_if, lookup, insert, if◌then◌else◌,
}
use vast_csi.Spec.Types.{ReplicationTarget}

-- StorageClass name to the names of the peers that are visible on its cluster.
abbrev pub PeerNamesBySc : Type 0
PeerNamesBySc = List (String × List String)

pub data PeerError : Type 0 where
  no_source_data no_destination_data no_shared : PeerError
  not_on_both many_shared : List String → PeerError

-- The entry takes part in the edges of the StorageClass.
abbrev pub involves : String → ReplicationTarget → Bool
involves sc_name t = str_eq t.source sc_name || str_eq t.destination sc_name

unfoldable pub storage_class_needs_peer_discovery : String → List ReplicationTarget → Bool
storage_class_needs_peer_discovery sc_name [] = false
storage_class_needs_peer_discovery sc_name (t ∷ ts) =
    str_eq t.peer_name "" && involves sc_name t || storage_class_needs_peer_discovery sc_name ts

-- The loop of `explicitPeerNamesForSC` over the keys of `seen`.
unfoldable pub explicit_from : String → List String → List ReplicationTarget → List String
explicit_from sc_name seen [] = seen
explicit_from sc_name seen (t ∷ ts) =
    explicit_from sc_name
      (if not (str_eq t.peer_name "") && involves sc_name t then add t.peer_name seen else seen) ts

unfoldable pub explicit_peer_names_for_sc : String → List ReplicationTarget → List String
explicit_peer_names_for_sc sc_name topology = sort_strings (explicit_from sc_name [] topology)

-- The names present on both sides, sorted.
unfoldable pub shared_names : List String → List String → List String
shared_names src_names dst_names = sort_strings (keep_if (λ name. has name dst_names) src_names)

-- Auto-discovery: the `switch` on the number of shared names, and the new value of `t.PeerName`.
unfoldable pub discover_peer : ReplicationTarget → List String → Result PeerError ReplicationTarget
discover_peer t [] = err no_shared
discover_peer t (name ∷ []) = ok (record t { peer_name = name })
discover_peer t (name ∷ other ∷ more) = err (many_shared (name ∷ other ∷ more))

-- What `ResolvePeerName` does with the shared names.
unfoldable pub choose_peer : ReplicationTarget → List String → Result PeerError ReplicationTarget
choose_peer t shared =
    if str_eq t.peer_name ""
    then discover_peer t shared
    else if has t.peer_name shared
    then ok t
    else err (not_on_both shared)

unfoldable pub resolve_peer_name :
    ReplicationTarget → PeerNamesBySc → Result PeerError ReplicationTarget
resolve_peer_name t peers_by_sc = elim (lookup t.source peers_by_sc) [
  | none ↦ err no_source_data
  | some src_names ↦ elim (lookup t.destination peers_by_sc) [
    | none ↦ err no_destination_data
    | some dst_names ↦ choose_peer t (shared_names src_names dst_names)
  ]
]

-- The loop of `ResolveAndFetchTopologyPeers`: the topology as the calls have changed it so far, and
-- the index and error of the first entry that fails.
unfoldable pub resolve_entries :
    ℕ → PeerNamesBySc → List ReplicationTarget → List ReplicationTarget × Option (ℕ × PeerError)
resolve_entries i peers_by_sc [] = ([], none)
resolve_entries i peers_by_sc (t ∷ ts) = elim (resolve_peer_name t peers_by_sc) [
  | err e ↦ (t ∷ ts, some (i, e))
  | ok t' ↦ let (ts', failed) = resolve_entries (suc i) peers_by_sc ts in (t' ∷ ts', failed)
]

-- One step of `topologyPeerNamesBySC`: `seen[scName][t.PeerName] = struct{}{}`.
abbrev pub note_peer : String → String → PeerNamesBySc → PeerNamesBySc
note_peer sc_name peer seen =
    insert sc_name (elim (lookup sc_name seen) [ none ↦ peer ∷ [] | some names ↦ add peer names ])
      seen

unfoldable pub note_peers : PeerNamesBySc → List ReplicationTarget → PeerNamesBySc
note_peers seen [] = seen
note_peers seen (t ∷ ts) =
    note_peers
      (if str_eq t.peer_name ""
        then seen
        else note_peer t.destination t.peer_name (note_peer t.source t.peer_name seen))
      ts

unfoldable pub sort_values : PeerNamesBySc → PeerNamesBySc
sort_values [] = []
sort_values ((sc_name, names) ∷ m) = (sc_name, sort_strings names) ∷ sort_values m

unfoldable pub topology_peer_names_by_sc : List ReplicationTarget → PeerNamesBySc
topology_peer_names_by_sc topology = sort_values (note_peers [] topology)

-- The keys of the set that `BuildPeerNamesBySC` fills from a list of peers.
unfoldable pub name_set : List String → List String
name_set [] = []
name_set (name ∷ names) = add name (name_set names)

pub data TopologyError (E : Type 0) : Type 0 where
  list_failed fetch_failed : String → E → TopologyError E
  no_client : String → TopologyError E
  invalid : ℕ → PeerError → TopologyError E

-- name__in with these names, or no filter where there are none.
abbrev pub name_filter : List String → Option (List String)
name_filter [] = none
name_filter (name ∷ names) = some (name ∷ names)

-- The filter that `BuildPeerNamesBySC` puts on the query of one cluster.
unfoldable pub peer_filter : String → List ReplicationTarget → Option (List String)
peer_filter sc_name topology =
    if storage_class_needs_peer_discovery sc_name topology
    then none
    else name_filter (explicit_peer_names_for_sc sc_name topology)

-- `list_peers rest (some names)` is `ReplicationPeers.List` with the filter name__in, and
-- `list_peers rest none` the same with no filter on names; the result is the names of the peers.
module _ {Rest E : Type 0} (list_peers : Rest → Option (List String) → Result E (List String)) where
  unfoldable pub build_peer_names_by_sc :
      List (String × Rest) → List ReplicationTarget → Result (TopologyError E) PeerNamesBySc
  build_peer_names_by_sc [] topology = ok []
  build_peer_names_by_sc ((sc_name, rest) ∷ clients) topology =
      elim (list_peers rest (peer_filter sc_name topology)) [
        | err e ↦ err (list_failed sc_name e)
        | ok names ↦ elim (build_peer_names_by_sc clients topology) [
          | err e ↦ err e
          | ok result ↦ ok ((sc_name, name_set names) ∷ result)
        ]
      ]

  -- The loop of `FetchTopologyPeers`.
  unfoldable pub fetch_peers :
      List (String × Rest) → PeerNamesBySc → Result (TopologyError E) (Unit {0})
  fetch_peers clients [] = ok tt
  fetch_peers clients ((sc_name, names) ∷ more) = elim (lookup sc_name clients) [
    | none ↦ err (no_client sc_name)
    | some rest ↦ elim (list_peers rest (some names)) [
      | err e ↦ err (fetch_failed sc_name e)
      | ok _ ↦ fetch_peers clients more
    ]
  ]

  -- What is left to do after the loop over the topology.
  unfoldable pub fetch_resolved :
      List (String × Rest)
      → List ReplicationTarget × Option (ℕ × PeerError)
      → List ReplicationTarget × Result (TopologyError E) (Unit {0})
  fetch_resolved clients (topology, some (i, e)) = (topology, err (invalid i e))
  fetch_resolved clients (topology, none) =
      (topology, fetch_peers clients (topology_peer_names_by_sc topology))

  -- The topology as it is left behind, and the error if there is one.
  unfoldable pub resolve_and_fetch_topology_peers :
      List (String × Rest)
      → List ReplicationTarget
      → List ReplicationTarget × Result (TopologyError E) (Unit {0})
  resolve_and_fetch_topology_peers clients topology =
      elim (build_peer_names_by_sc clients topology) [
        | err e ↦ (topology, err e)
        | ok peers_by_sc ↦ fetch_resolved clients (resolve_entries 0 peers_by_sc topology)
      ]
