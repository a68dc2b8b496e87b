-- ===== src/Spec/Validation/Laws.antt =====
-- Which specs `Validate` accepts.
use vast_csi.Prelude.{
  String, Bool, true, false, ◌≡◌, refl, sym, ap, subst, ◌∙◌, ◌≢◌, ◌↔◌, List, [], ◌∷◌, Result, ok,
  err, is_ok, Result-cases, arith, any, str_eq_iff, has, sort_strings, has-sort_strings,
  sort_strings-IsDistinct, IsDistinct, inl, inr,
}
use vast_csi.Spec.Types.{
  ReplicationTarget, VastStorageClassReplicationSpec, VastVolumeReplicationSpec,
}
use vast_csi.Spec.Classes.{collect_classes}
use vast_csi.Spec.Classes.Laws.{touches, has-collect_classes, collect_classes-IsDistinct}
use vast_csi.Spec.Templates.{validate_template}
use vast_csi.Spec.Validation.{
  SpecError, UnorderedPair, norm_pair, has_pair, check_entries, missing_from, validate_vscr,
  validate_vvr, is_empty,
}
use vast_csi.Spec.Validation.Pairs.{
  joins, IsProperTopology, IsFresh, check_entries_iff, check_entries-found,
}
use vast_csi.Spec.Validation.Mesh.{IsMesh, missing_from_iff}

IsFresh-nil : (ts : List ReplicationTarget) → IsFresh [] ts
unfolding has_pair
IsFresh-nil [] = tt
IsFresh-nil (t ∷ ts) = (refl, IsFresh-nil ts)

-- From the start, the loop accepts the proper topologies, and collects their ends.
pub check_entries_start :
    (ts : List ReplicationTarget)
    → (IsProperTopology ts
        → (r : List UnorderedPair × List String) × (check_entries 0 [] [] ts ≡ ok r))
      × ((r : List UnorderedPair × List String)
          → check_entries 0 [] [] ts ≡ ok r
          → IsProperTopology ts
            × (r.1 ≡ collect_classes [] ts)
            × ((k : String) → has k r.1 ≡ any (touches k) ts)
            × ((a b : String) → has_pair (norm_pair a b) r.0 ≡ any (joins a b) ts))
unfolding has has_pair
check_entries_start ts = (
  λ p. ok_of (check_entries 0 [] [] ts) (iff.1 (p, IsFresh-nil ts)),
  λ r e.
      let (classes, pairs) = check_entries-found 0 [] [] ts r e in
      (
        (iff.0 (ground arith)).0,
        classes,
        λ k. ap (has k) classes ∙ has-collect_classes k [] ts,
        pairs,
      ),
)
  where
    iff : (is_ok (check_entries 0 [] [] ts) ≡ true) ↔ (IsProperTopology ts × IsFresh [] ts)
    iff = check_entries_iff 0 [] [] ts

    ok_of :
        (m : Result SpecError (List UnorderedPair × List String))
        → is_ok m ≡ true
        → (r : List UnorderedPair × List String) × (m ≡ ok r)
    ok_of (ok r) h = (r, refl)
    ok_of (err e) h = cc

-- Every two StorageClasses of the topology are connected by an entry.
abbrev pub IsCompleteMesh : List ReplicationTarget → Type 0
IsCompleteMesh ts =
    (a b : String)
    → any (touches a) ts ≡ true
    → any (touches b) ts ≡ true
    → a ≢ b
    → any (joins a b) ts ≡ true

-- The pairs that the mesh test reports, after a successful loop.
missing_from-start :
    (ts : List ReplicationTarget) (r : List UnorderedPair × List String)
    → check_entries 0 [] [] ts ≡ ok r
    → (missing_from r.0 (sort_strings r.1) ≡ []) ↔ IsCompleteMesh ts
missing_from-start ts r e = (
  λ h a b p q ne. sym (pairs a b) ∙ iff.0 h a b (listed a ∙ p) (listed b ∙ q) ne,
  λ mesh. iff.1 (λ a b p q ne. pairs a b ∙ mesh a b (sym (listed a) ∙ p) (sym (listed b) ∙ q) ne),
)
  where
    found :
        (r.1 ≡ collect_classes [] ts)
        × ((k : String) → has k r.1 ≡ any (touches k) ts)
        × ((a b : String) → has_pair (norm_pair a b) r.0 ≡ any (joins a b) ts)
    found = let f = (check_entries_start ts).1 r e in (f.1, f.2, f.3)

    pairs : (a b : String) → has_pair (norm_pair a b) r.0 ≡ any (joins a b) ts
    pairs = found.2

    listed : (k : String) → has k (sort_strings r.1) ≡ any (touches k) ts
    listed k = has-sort_strings k r.1 ∙ found.1 k

    distinct : IsDistinct r.1
    distinct = subst IsDistinct (sym found.0) (collect_classes-IsDistinct [] ts tt)

    iff : (missing_from r.0 (sort_strings r.1) ≡ []) ↔ IsMesh r.0 (sort_strings r.1)
    iff = missing_from_iff r.0 (sort_strings r.1) (sort_strings-IsDistinct r.1 distinct)

is_empty-eq_nil : (ps : List UnorderedPair) → (is_empty ps ≡ true) ↔ (ps ≡ [])
is_empty-eq_nil [] = (λ _. refl, λ _. refl)
is_empty-eq_nil (p ∷ ps) = (λ h. cc, λ h. cc)

not_empty_of_any :
    (p : ReplicationTarget → Bool) (ts : List ReplicationTarget)
    → any p ts ≡ true
    → is_empty ts ≡ false
not_empty_of_any p [] h = cc
not_empty_of_any p (t ∷ ts) h = refl

module _ (time_parse : String → String → Bool) where
  -- `VastStorageClassReplicationSpec.Validate` accepts a spec exactly when it names a primary that is
  -- the end of an entry, its template is valid, PVC remap comes with PVC sync, the topology is not
  -- empty, every entry has two different named ends, and no two entries connect the same pair.
  pub validate_vscr_iff :
      (s : VastStorageClassReplicationSpec)
      → (validate_vscr time_parse s ≡ ok tt) ↔ (
          (s.primary_storage_class ≢ "")
          × (validate_template time_parse s.protection_policy_template ≡ ok tt)
          × (s.pvc_remap ≡ true → s.sync_pvcpv ≡ true)
          × IsProperTopology s.protection_topology
          × (any (touches s.primary_storage_class) s.protection_topology ≡ true))
  unfolding validate_vscr
  validate_vscr_iff s = elim (Result-cases (check_entries 0 [] [] s.protection_topology)) [
    | inl (r, e) ↦
        let (proper, _, member, _) = (check_entries_start s.protection_topology).1 r e in
        let primary_member = member s.primary_storage_class in
        (
          λ h. (
            ground (arith, str_eq_iff s.primary_storage_class ""),
            ground arith,
            ground arith,
            proper,
            ground arith,
          ),
          λ (n, t, w, p, m).
              let empty = str_eq_iff s.primary_storage_class "" in
              let some_entry =
                not_empty_of_any (touches s.primary_storage_class) s.protection_topology m in
              ground arith,
        )
    | inr (e, h) ↦ (
      λ k. ground arith,
      λ (_, _, _, p, _). let (r, f) = (check_entries_start s.protection_topology).0 p in cc,
    )
  ]

  -- `VastVolumeReplicationSpec.Validate` accepts a spec exactly when it names a volume and a primary
  -- that is the end of an entry, its template is valid, the topology is not empty, every entry has two
  -- different named ends, no two entries connect the same pair, and every two StorageClasses of the
  -- topology are connected by an entry.
  pub validate_vvr_iff :
      (s : VastVolumeReplicationSpec)
      → (validate_vvr time_parse s ≡ ok tt) ↔ (
          (s.volume_name ≢ "")
          × (s.primary_storage_class ≢ "")
          × (validate_template time_parse s.protection_policy_template ≡ ok tt)
          × IsProperTopology s.protection_topology
          × (any (touches s.primary_storage_class) s.protection_topology ≡ true)
          × IsCompleteMesh s.protection_topology)
  unfolding validate_vvr
  validate_vvr_iff s = elim (Result-cases (check_entries 0 [] [] s.protection_topology)) [
    | inl (r, e) ↦
        let (proper, _, member, _) = (check_entries_start s.protection_topology).1 r e in
        let primary_member = member s.primary_storage_class in
        let mesh = missing_from-start s.protection_topology r e in
        let missing = missing_from r.0 (sort_strings r.1) in
        let none = is_empty-eq_nil missing in
        (
          λ h. (
            ground (arith, str_eq_iff s.volume_name ""),
            ground (arith, str_eq_iff s.primary_storage_class ""),
            ground arith,
            proper,
            ground arith,
            mesh.0 (none.0 (ground arith)),
          ),
          λ (v, n, t, p, m, c).
              let no_volume = str_eq_iff s.volume_name "" in
              let empty = str_eq_iff s.primary_storage_class "" in
              let some_entry =
                not_empty_of_any (touches s.primary_storage_class) s.protection_topology m in
              let complete = none.1 (mesh.1 c) in ground arith,
        )
    | inr (e, h) ↦ (
      λ k. ground arith,
      λ (_, _, _, p, _, _). let (r, f) = (check_entries_start s.protection_topology).0 p in cc,
    )
  ]
