-- ===== src/Admission/Shape.antt =====
-- What an update may change.
use vast_csi.Prelude.{
  ℕ, suc, true, ◌≡◌, refl, ◌↔◌, List, [], ◌∷◌, arith, length, ◌==◌, Pairwise, str_eq_iff,
  Bool-cases, inl, inr,
}
use vast_csi.Spec.Types.{ReplicationTarget}
use vast_csi.Admission.{is_allowed}
use vast_csi.Admission.Topology.{check_shape, validate_topology_immutable}

-- The two entries differ in their peer at most.
abbrev pub SameShape : ReplicationTarget → ReplicationTarget → Type 0
SameShape o n =
    (o.source ≡ n.source)
    × (o.destination ≡ n.destination)
    × (o.target_exported_dir ≡ n.target_exported_dir)

length-of_Pairwise :
    (os ns : List ReplicationTarget) → Pairwise SameShape os ns → length os ≡ length ns
length-of_Pairwise [] [] p = refl
length-of_Pairwise [] (n ∷ ns) p = absurd p
length-of_Pairwise (o ∷ os) [] p = absurd p
length-of_Pairwise (o ∷ os) (n ∷ ns) p = ground (arith, length-of_Pairwise os ns p.1)

check_shape_iff :
    (i : ℕ) (os ns : List ReplicationTarget)
    → length os ≡ length ns
    → (is_allowed (check_shape i os ns) ≡ true) ↔ Pairwise SameShape os ns
unfolding check_shape
check_shape_iff i [] [] e = (λ _. tt, λ _. refl)
check_shape_iff i [] (n ∷ ns) e = absurd (omega arith)
check_shape_iff i (o ∷ os) [] e = absurd (omega arith)
check_shape_iff i (o ∷ os) (n ∷ ns) e =
    let (there, back) = check_shape_iff (suc i) os ns (omega arith) in
    ground (
      arith,
      str_eq_iff o.source n.source,
      str_eq_iff o.destination n.destination,
      str_eq_iff o.target_exported_dir n.target_exported_dir,
    )

-- An update passes `validateTopologyImmutable` exactly when the new topology has as many entries as the
-- old one, in the same order, and each keeps its source, its destination and its targetExportedDir.
pub validate_topology_immutable_iff :
    (old_topology new_topology : List ReplicationTarget)
    → (is_allowed (validate_topology_immutable old_topology new_topology) ≡ true)
      ↔ Pairwise SameShape old_topology new_topology
unfolding validate_topology_immutable
validate_topology_immutable_iff os ns = elim (Bool-cases (length os == length ns)) [
  | inl e ↦ let same = check_shape_iff 0 os ns (ground arith) in rw e same
  | inr e ↦ rw e (λ h. absurd cc, λ p. absurd (ground (arith, length-of_Pairwise os ns p)))
]
