-- ===== src/Vms/Peers/Index.antt =====
-- The queries of `BuildPeerNamesBySC` are filtered by name. The filter hides no peer that an entry of
-- the topology needs.
use vast_csi.Prelude.{
  String, Bool, true, not, ◌&&◌, ◌||◌, ◌≡◌, refl, sym, subst, ◌∙◌, ◌≢◌, ◌⊎◌, Option, none, some,
  List, [], ◌∷◌, Result, ok, arith, any, Among, str_eq, str_eq_iff, str_eq_refl, has, has-add, add,
  add-IsDistinct, IsDistinct, has-sort_strings, lookup, Bool-cases, inl, inr, Result-cases,
}
use vast_csi.Spec.Types.{ReplicationTarget}
use vast_csi.Vms.Peers.{
  PeerNamesBySc, involves, storage_class_needs_peer_discovery, explicit_from,
  explicit_peer_names_for_sc, name_set, peer_filter, name_filter, build_peer_names_by_sc,
}

-- The names that a filter lets through.
abbrev pub allows : Option (List String) → String → Bool
allows none k = true
allows (some names) k = has k names

needs_discovery_of :
    (k : String) (t : ReplicationTarget) (ts : List ReplicationTarget)
    → Among t ts
    → t.peer_name ≡ ""
    → involves k t ≡ true
    → storage_class_needs_peer_discovery k ts ≡ true
unfolding storage_class_needs_peer_discovery
needs_discovery_of k t [] m e h = elim m [ ]
needs_discovery_of k t (u ∷ us) (inl same) e h =
    let first =
      subst (λ x. (str_eq x.peer_name "" && involves k x) ≡ true) (sym same)
        (ground (arith, str_eq_iff t.peer_name "")) in
    ground arith
needs_discovery_of k t (u ∷ us) (inr m) e h =
    let rest = needs_discovery_of k t us m e h in ground arith

-- The entry names `p` and involves `k`.
abbrev names_peer : String → String → ReplicationTarget → Bool
names_peer k p t = not (str_eq t.peer_name "") && involves k t && str_eq t.peer_name p

has-explicit_from :
    (k p : String) (seen : List String) (ts : List ReplicationTarget)
    → has p (explicit_from k seen ts) ≡ (has p seen || any (names_peer k p) ts)
unfolding explicit_from
has-explicit_from k p seen [] = ground arith
has-explicit_from k p seen (t ∷ ts) =
    elim (Bool-cases (not (str_eq t.peer_name "") && involves k t)) [
      | inl e ↦ rw e (
          has-explicit_from k p (add t.peer_name seen) ts
          ∙ ground (arith, has-add t.peer_name p seen))
      | inr e ↦ rw e (has-explicit_from k p seen ts ∙ ground arith)
    ]

any_of_Among :
    (q : ReplicationTarget → Bool) (t : ReplicationTarget) (ts : List ReplicationTarget)
    → Among t ts
    → q t ≡ true
    → any q ts ≡ true
any_of_Among q t [] m h = elim m [ ]
any_of_Among q t (u ∷ us) (inl same) h =
    let first = subst (λ x. q x ≡ true) (sym same) h in ground arith
any_of_Among q t (u ∷ us) (inr m) h = let rest = any_of_Among q t us m h in ground arith

has-explicit_peer_names :
    (k : String) (t : ReplicationTarget) (topology : List ReplicationTarget)
    → Among t topology
    → t.peer_name ≢ ""
    → involves k t ≡ true
    → has t.peer_name (explicit_peer_names_for_sc k topology) ≡ true
unfolding explicit_peer_names_for_sc has
has-explicit_peer_names k t topology m n h =
    has-sort_strings t.peer_name (explicit_from k [] topology)
    ∙ has-explicit_from k t.peer_name [] topology
    ∙ any_of_Among (names_peer k t.peer_name) t topology m
        (ground (arith, str_eq_iff t.peer_name "", str_eq_refl t.peer_name))

has-name_set : (k : String) (names : List String) → has k (name_set names) ≡ has k names
unfolding name_set has
has-name_set k [] = refl
has-name_set k (n ∷ ns) = has-add n k (name_set ns) ∙ ground (arith, has-name_set k ns)

name_set-IsDistinct : (names : List String) → IsDistinct (name_set names)
unfolding name_set
name_set-IsDistinct [] = tt
name_set-IsDistinct (n ∷ ns) = add-IsDistinct n (name_set ns) (name_set-IsDistinct ns)

allows-name_filter :
    (k : String) (names : List String) → has k names ≡ true → allows (name_filter names) k ≡ true
allows-name_filter k [] h = refl
allows-name_filter k (n ∷ ns) h = h

-- For an entry with no peer yet the clusters of both ends are asked for all their peers.
pub peer_filter_discovery :
    (k : String) (t : ReplicationTarget) (topology : List ReplicationTarget)
    → Among t topology
    → t.peer_name ≡ ""
    → involves k t ≡ true
    → peer_filter k topology ≡ none
unfolding peer_filter
peer_filter_discovery k t topology m e h = ground (arith, needs_discovery_of k t topology m e h)

-- For an entry with a peer, neither of them leaves that peer out.
pub peer_filter_explicit :
    (k : String) (t : ReplicationTarget) (topology : List ReplicationTarget)
    → Among t topology
    → t.peer_name ≢ ""
    → involves k t ≡ true
    → allows (peer_filter k topology) t.peer_name ≡ true
unfolding peer_filter
peer_filter_explicit k t topology m n h =
    let listed = has-explicit_peer_names k t topology m n h in
    elim (Bool-cases (storage_class_needs_peer_discovery k topology)) [
      | inl e ↦ rw e
      | inr e ↦ rw e (allows-name_filter t.peer_name (explicit_peer_names_for_sc k topology) listed)
    ]

-- What the code relies on: a query returns the peers of the cluster that its filter lets through.
abbrev pub ListsPeers :
    {Rest E : Type 0}
    → (Rest → List String)
    → (Rest → Option (List String) → Result E (List String))
    → Type 0
ListsPeers {Rest} peers_of list_peers =
    (c : Rest) (f : Option (List String)) (names : List String)
    → list_peers c f ≡ ok names
    → (k : String) → has k names ≡ (has k (peers_of c) && allows f k)

-- The names that the index holds for a cluster: what the cluster's filter lets through.
pub record IsIndexed (peers : List String) (filter : Option (List String)) (names : List String)
    : Type 0 where
  pub distinct : IsDistinct names
  pub holds : (k : String) → has k names ≡ (has k peers && allows filter k)

module _ {Rest E : Type 0} (peers_of : Rest → List String)
    (list_peers : Rest → Option (List String) → Result E (List String))
    (lists_peers : ListsPeers peers_of list_peers) where
  build_peer_names-nil :
      (topology : List ReplicationTarget) → build_peer_names_by_sc list_peers [] topology ≡ ok []
  unfolding build_peer_names_by_sc
  build_peer_names-nil topology = refl

  build_peer_names-cons :
      (sc : String) (rest : Rest) (clients : List (String × Rest))
      (topology : List ReplicationTarget) (index : PeerNamesBySc)
      → build_peer_names_by_sc list_peers ((sc, rest) ∷ clients) topology ≡ ok index
      → (names : List String) × (result : PeerNamesBySc) × (list_peers rest
            (peer_filter sc topology)
          ≡ ok names)
        × (build_peer_names_by_sc list_peers clients topology ≡ ok result)
        × (index ≡ (sc, name_set names) ∷ result)
  unfolding build_peer_names_by_sc
  build_peer_names-cons sc rest clients topology index h =
      elim (Result-cases (list_peers rest (peer_filter sc topology))) [
        | inl (names, e) ↦
            elim (Result-cases (build_peer_names_by_sc list_peers clients topology)) [
              | inl (result, e') ↦ (names, result, e, e', ground arith)
              | inr (x, e') ↦ absurd (ground arith)
            ]
        | inr (x, e) ↦ absurd (ground arith)
      ]

  indexed :
      (sc : String) (rest : Rest) (topology : List ReplicationTarget) (names : List String)
      → list_peers rest (peer_filter sc topology) ≡ ok names
      → IsIndexed (peers_of rest) (peer_filter sc topology) (name_set names)
  indexed sc rest topology names h = record {
    distinct = name_set-IsDistinct names;
    holds = λ k. has-name_set k names ∙ lists_peers rest (peer_filter sc topology) names h k;
  }

  -- The index has an entry for each client, and only for them.
  pub build_peer_names-lookup :
      (clients : List (String × Rest)) (topology : List ReplicationTarget) (index : PeerNamesBySc)
      → build_peer_names_by_sc list_peers clients topology ≡ ok index
      → (k : String)
      → ((lookup k clients ≡ none) × (lookup k index ≡ none))
        ⊎ ((rest : Rest) × (names : List String) × (lookup k clients ≡ some rest)
            × (lookup k index ≡ some names)
            × IsIndexed (peers_of rest) (peer_filter k topology) names)
  unfolding lookup
  build_peer_names-lookup [] topology index h k =
      inl (refl, subst (λ x. lookup k x ≡ none) (start h) refl)
    where
      start : build_peer_names_by_sc list_peers [] topology ≡ ok index → [] ≡ index
      start e = ground (arith, build_peer_names-nil topology)
  build_peer_names-lookup ((sc, rest) ∷ clients) topology index h k =
      let (names, result, e, e', same) = build_peer_names-cons sc rest clients topology index h in
      elim (Bool-cases (str_eq sc k)) [
        | inl at ↦ inr (
          rest,
          name_set names,
          rw at,
          rw (same, at),
          subst (λ z. IsIndexed (peers_of rest) (peer_filter z topology) (name_set names))
              ((str_eq_iff sc k).0 at) (indexed sc rest topology names e),
        )
        | inr off ↦ rw (same, off) (build_peer_names-lookup clients topology result e' k)
      ]
