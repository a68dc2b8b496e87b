-- ===== src/Vms/Policies/Entries.antt =====
-- The entries of a map from StorageClasses to policy names.
use vast_csi.Prelude.{
  String, true, false, ◌≡◌, subst, List, [], ◌∷◌, ◌++◌, All, arith, Bool-cases, inl, inr, any,
  str_eq, str_eq_iff, str_eq_refl, lookup, insert, append_to, get_list, or_nil,
}
use vast_csi.Spec.Types.{ReplicationTarget}
use vast_csi.Vms.Policies.{new_replication_edges_list, policy_name_of}
use vast_csi.Vms.Policies.Deletion.{
  note_policy, policy_names_from, protection_policy_names_by_storage_class,
}
use vast_csi.Vms.Policies.Cleanup.{has_policy_on}

module _ (R : String → String → Type 0) where
  abbrev pub AllEntries : List (String × List String) → Type 0
  AllEntries m = All (λ entry. All (R entry.0) entry.1) m

  All-snoc : (k x : String) (xs : List String) → All (R k) xs → R k x → All (R k) (xs ++ x ∷ [])
  All-snoc k x [] h r = (r, tt)
  All-snoc k x (y ∷ xs) (h, hs) r = (h, All-snoc k x xs hs r)

  All-get_list :
      (k : String) (m : List (String × List String)) → AllEntries m → All (R k) (get_list k m)
  unfolding get_list lookup or_nil
  All-get_list k [] h = tt
  All-get_list k ((j, names) ∷ m) (h, hs) = elim (Bool-cases (str_eq j k)) [
    | inl e ↦ rw e (subst (λ c. All (R c) names) ((str_eq_iff j k).0 e) h)
    | inr e ↦ rw e (All-get_list k m hs)
  ]

  AllEntries-insert :
      (k : String) (names : List String) (m : List (String × List String))
      → All (R k) names
      → AllEntries m
      → AllEntries (insert k names m)
  unfolding insert
  AllEntries-insert k names [] r h = (r, tt)
  AllEntries-insert k names ((j, old) ∷ m) r (h, hs) = elim (Bool-cases (str_eq j k)) [
    | inl e ↦ rw e (r, hs)
    | inr e ↦ rw e (h, AllEntries-insert k names m r hs)
  ]

  AllEntries-append_to :
      (k x : String) (m : List (String × List String))
      → R k x
      → AllEntries m
      → AllEntries (append_to k x m)
  unfolding append_to
  AllEntries-append_to k x m r h =
      AllEntries-insert k (get_list k m ++ x ∷ []) m
        (All-snoc k x (get_list k m) (All-get_list k m h) r) h

-- The policies of the edges are all that the map has.
module _ (owner_name primary_sc : String) (R : String → String → Type 0) where
  abbrev pub Covers : List ReplicationTarget → Type 0
  Covers ts =
      (sc name : String)
      → any (has_policy_on owner_name sc name) (new_replication_edges_list ts primary_sc) ≡ true
      → R sc name

  Covers-rest : (t : ReplicationTarget) (ts : List ReplicationTarget) → Covers (t ∷ ts) → Covers ts
  unfolding new_replication_edges_list
  Covers-rest t ts covers sc name h = covers sc name (ground arith)

  Covers-ends :
      (t : ReplicationTarget) (ts : List ReplicationTarget)
      → str_eq t.peer_name "" ≡ false
      → Covers (t ∷ ts)
      → R t.source (policy_name_of owner_name t.peer_name)
        × R t.destination (policy_name_of owner_name t.peer_name)
  unfolding new_replication_edges_list
  Covers-ends t ts n covers =
      let policy = policy_name_of owner_name t.peer_name in
      let same = str_eq_refl policy in
      let at_source = str_eq_refl t.source in
      let at_destination = str_eq_refl t.destination in
      (covers t.source policy (ground arith), covers t.destination policy (ground arith))

  note_policy-AllEntries :
      (t : ReplicationTarget) (ts : List ReplicationTarget) (names : List (String × List String))
      → Covers (t ∷ ts)
      → AllEntries R names
      → AllEntries R (note_policy owner_name primary_sc names t)
  note_policy-AllEntries t ts names covers h = elim (Bool-cases (str_eq t.peer_name "")) [
    | inl e ↦ rw e h
    | inr e ↦
        let policy = policy_name_of owner_name t.peer_name in
        let (src, dst) = Covers-ends t ts e covers in
        elim (Bool-cases (str_eq t.destination primary_sc)) [
          | inl d ↦
              rw (e, d)
                (AllEntries-append_to R t.source policy (append_to t.destination policy names) src
                  (AllEntries-append_to R t.destination policy names dst h))
          | inr d ↦
              rw (e, d)
                (AllEntries-append_to R t.destination policy (append_to t.source policy names) dst
                  (AllEntries-append_to R t.source policy names src h))
        ]
  ]

  policy_names_from-AllEntries :
      (ts : List ReplicationTarget) (names : List (String × List String))
      → Covers ts
      → AllEntries R names
      → AllEntries R (policy_names_from owner_name primary_sc names ts)
  unfolding policy_names_from
  policy_names_from-AllEntries [] names covers h = h
  policy_names_from-AllEntries (t ∷ ts) names covers h =
      policy_names_from-AllEntries ts (note_policy owner_name primary_sc names t)
        (Covers-rest t ts covers) (note_policy-AllEntries t ts names covers h)

  pub protection_policy_names-AllEntries :
      (ts : List ReplicationTarget)
      → Covers ts
      → AllEntries R (protection_policy_names_by_storage_class owner_name primary_sc ts)
  unfolding protection_policy_names_by_storage_class
  protection_policy_names-AllEntries ts covers = policy_names_from-AllEntries ts [] covers tt
