-- ===== src/Vms/Peers/Laws.antt =====
-- The topology after `ResolveAndFetchTopologyPeers`, against the peers that the clusters really have.
use vast_csi.Prelude.{
  ℕ, suc, String, true, ◌≡◌, refl, sym, ap, subst, ◌∙◌, Option, none, some, List, [], ◌∷◌, Result,
  ok, err, arith, Among, Pairwise, Pairwise-map, str_eq_refl, lookup, inl, inr, Result-cases,
}
use vast_csi.Spec.Types.{ReplicationTarget}
use vast_csi.Vms.Peers.{
  PeerNamesBySc, PeerError, involves, peer_filter, resolve_peer_name, resolve_entries,
  build_peer_names_by_sc, fetch_resolved, resolve_and_fetch_topology_peers,
}
use vast_csi.Vms.Peers.Resolve.{IsResolved, resolve_peer_name_iff}
use vast_csi.Vms.Peers.Index.{
  allows, peer_filter_discovery, ListsPeers, IsIndexed, build_peer_names-lookup,
}

resolve_entries-ok :
    (i : ℕ) (index : PeerNamesBySc) (t t' : ReplicationTarget) (ts : List ReplicationTarget)
    → resolve_peer_name t index ≡ ok t'
    → resolve_entries i index (t ∷ ts)
      ≡ (t' ∷ (resolve_entries (suc i) index ts).0, (resolve_entries (suc i) index ts).1)
unfolding resolve_entries
resolve_entries-ok i index t t' ts e = ground arith

resolve_entries-err :
    (i : ℕ) (index : PeerNamesBySc) (t : ReplicationTarget) (ts : List ReplicationTarget)
    (x : PeerError)
    → resolve_peer_name t index ≡ err x
    → resolve_entries i index (t ∷ ts) ≡ (t ∷ ts, some (i, x))
unfolding resolve_entries
resolve_entries-err i index t ts x e = ground arith

-- When no entry fails, each has been resolved on its own.
resolve_entries-Pairwise :
    (i : ℕ) (index : PeerNamesBySc) (ts : List ReplicationTarget)
    → (resolve_entries i index ts).1 ≡ none
    → Pairwise (λ t t'. resolve_peer_name t index ≡ ok t') ts (resolve_entries i index ts).0
unfolding resolve_entries
resolve_entries-Pairwise i index [] h = tt
resolve_entries-Pairwise i index (t ∷ ts) h = elim (Result-cases (resolve_peer_name t index)) [
  | inl (t', e) ↦
      let same = resolve_entries-ok i index t t' ts e in
      let rest = resolve_entries-Pairwise (suc i) index ts (sym (ap (λ z. z.1) same) ∙ h) in
      subst (λ z. Pairwise (λ t t'. resolve_peer_name t index ≡ ok t') (t ∷ ts) z.0) (sym same)
        (e, rest)
  | inr (x, e) ↦
      let failed = sym (ap (λ z. z.1) (resolve_entries-err i index t ts x e)) ∙ h in absurd cc
]

fetch_resolved-ok :
    {Rest E : Type 0} (list_peers : Rest → Option (List String) → Result E (List String))
    (clients : List (String × Rest)) (topology : List ReplicationTarget)
    (failed : Option (ℕ × PeerError))
    → (fetch_resolved list_peers clients (topology, failed)).1 ≡ ok tt
    → (failed ≡ none) × ((fetch_resolved list_peers clients (topology, failed)).0 ≡ topology)
unfolding fetch_resolved
fetch_resolved-ok list_peers clients topology none h = (refl, refl)
fetch_resolved-ok list_peers clients topology (some (i, e)) h = absurd cc

-- The entry has a peer on the clusters of both of its ends.
pub record IsLinked {Rest : Type 0} (peers_of : Rest → List String) (clients : List (String × Rest))
    (t t' : ReplicationTarget) : Type 0 where
  pub source_client : Rest
  pub destination_client : Rest
  pub has_source : lookup t.source clients ≡ some source_client
  pub has_destination : lookup t.destination clients ≡ some destination_client
  pub resolved : IsResolved t t' (peers_of source_client) (peers_of destination_client)

-- Dropping the filters of the two queries again.
widen :
    (t t' : ReplicationTarget) (topology : List ReplicationTarget)
    (src dst names names' : List String)
    → Among t topology
    → IsIndexed src (peer_filter t.source topology) names
    → IsIndexed dst (peer_filter t.destination topology) names'
    → IsResolved t t' names names'
    → IsResolved t t' src dst
widen t t' topology src dst names names' m s d r =
    let at_source = s.holds t'.peer_name in
    let at_destination = d.holds t'.peer_name in
    let here : involves t.source t ≡ true = ground (arith, str_eq_refl t.source) in
    let there : involves t.destination t ≡ true = ground (arith, str_eq_refl t.destination) in
    let on_source = r.on_source in
    let on_destination = r.on_destination in
    record {
      same_entry = r.same_entry;
      on_source = ground arith;
      on_destination = ground arith;
      explicit = r.explicit;
      unique = λ e k a b.
          let all_source =
            ap (λ f. allows f k) (peer_filter_discovery t.source t topology m e here) in
          let all_destination =
            ap (λ f. allows f k) (peer_filter_discovery t.destination t topology m e there) in
          let listed = s.holds k in
          let listed' = d.holds k in r.unique e k (ground arith) (ground arith);
    }

module _ {Rest E : Type 0} (peers_of : Rest → List String)
    (list_peers : Rest → Option (List String) → Result E (List String))
    (lists_peers : ListsPeers peers_of list_peers) where
  link :
      (clients : List (String × Rest)) (topology : List ReplicationTarget) (index : PeerNamesBySc)
      → build_peer_names_by_sc list_peers clients topology ≡ ok index
      → (t t' : ReplicationTarget) → Among t topology
      → resolve_peer_name t index ≡ ok t'
      → IsLinked peers_of clients t t'
  unfolding resolve_peer_name
  link clients topology index built t t' m h =
      let at =
        build_peer_names-lookup peers_of list_peers lists_peers clients topology index built in
      elim (at t.source) [
        | inl (_, gone) ↦ absurd (ground arith)
        | inr (rest, names, client, listed, s) ↦ elim (at t.destination) [
          | inl (_, gone) ↦ absurd (ground arith)
          | inr (rest', names', client', listed', d) ↦ record {
            source_client = rest;
            destination_client = rest';
            has_source = client;
            has_destination = client';
            resolved =
                widen t t' topology (peers_of rest) (peers_of rest') names names' m s d
                  ((resolve_peer_name_iff t t' index names names' s.distinct listed listed').0 h);
          }
        ]
      ]

  -- When `ResolveAndFetchTopologyPeers` succeeds, each entry of the topology that it leaves behind is
  -- the entry it was given with a peer that the clusters of both StorageClasses have: the one that the
  -- user named if there is one, and otherwise the only one that they share. It is stated for a query
  -- that returns the peers of a cluster which its filter lets through.
  pub resolve_and_fetch_topology_peers_sound :
      (clients : List (String × Rest)) (topology : List ReplicationTarget)
      → (resolve_and_fetch_topology_peers list_peers clients topology).1 ≡ ok tt
      → Pairwise
          (IsLinked peers_of clients)
          topology
          (resolve_and_fetch_topology_peers list_peers clients topology).0
  unfolding resolve_and_fetch_topology_peers
  resolve_and_fetch_topology_peers_sound clients topology h =
      elim (Result-cases (build_peer_names_by_sc list_peers clients topology)) [
        | inl (index, e) ↦ go index e
        | inr (x, e) ↦ absurd (ground arith)
      ]
    where
      go :
          (index : PeerNamesBySc)
          → build_peer_names_by_sc list_peers clients topology ≡ ok index
          → Pairwise
              (IsLinked peers_of clients)
              topology
              (resolve_and_fetch_topology_peers list_peers clients topology).0
      go index e =
          let whole : resolve_and_fetch_topology_peers list_peers clients topology
              ≡ fetch_resolved list_peers clients (resolve_entries 0 index topology) =
            ground arith in
          let (complete, same) =
            fetch_resolved-ok list_peers clients (resolve_entries 0 index topology).0
              (resolve_entries 0 index topology).1 (sym (ap (λ z. z.1) whole) ∙ h) in
          subst (Pairwise (IsLinked peers_of clients) topology) (sym (ap (λ z. z.0) whole ∙ same)) (
            Pairwise-map _ _ topology _ (λ t t' m r. link clients topology index e t t' m r)
              (resolve_entries-Pairwise 0 index topology complete))
