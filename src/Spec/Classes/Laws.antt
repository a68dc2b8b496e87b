-- ===== src/Spec/Classes/Laws.antt =====
-- What the lists of StorageClasses hold, and in which order.
use vast_csi.Prelude.{
  String, Bool, true, false, ◌≡◌, refl, sym, subst, ap, ◌∙◌, ◌≢◌, ◌⊎◌, inl, inr, ◌||◌, List, [],
  ◌∷◌, arith, any, Bool-cases, str_eq, str_eq_iff, str_eq_refl, str_eq_comm, str_lt, str_lt_trans,
  str_lt_total, has, has-add, add, add-IsDistinct, IsDistinct, IsSorted, IsAbove, sort_by,
  has-sort_by, sort_by-IsSorted, has-sort_strings, sort_strings-IsSorted, sort_strings-IsDistinct,
  sort_by-IsDistinct, less_of-IsAbove, keep_if, Pairwise,
}
use vast_csi.Spec.Types.{ReplicationTarget}
use vast_csi.Spec.Classes.{
  collect_classes, all_storage_classes, primary_less, all_storage_classes_primary_first,
  flip_target, targets_for,
}

-- An edge has the StorageClass at one of its ends.
abbrev pub touches : String → ReplicationTarget → Bool
touches k t = str_eq t.source k || str_eq t.destination k

pub has-collect_classes :
    (k : String) (seen : List String) (ts : List ReplicationTarget)
    → has k (collect_classes seen ts) ≡ (has k seen || any (touches k) ts)
unfolding collect_classes
has-collect_classes k seen [] = ground arith
has-collect_classes k seen (t ∷ ts) = ground (
  arith,
  has-collect_classes k (add t.destination (add t.source seen)) ts,
  has-add t.destination k (add t.source seen),
  has-add t.source k seen,
)

pub collect_classes-IsDistinct :
    (seen : List String) (ts : List ReplicationTarget)
    → IsDistinct seen
    → IsDistinct (collect_classes seen ts)
unfolding collect_classes
collect_classes-IsDistinct seen [] d = d
collect_classes-IsDistinct seen (t ∷ ts) d =
    collect_classes-IsDistinct (add t.destination (add t.source seen)) ts
      (add-IsDistinct _ _ (add-IsDistinct _ _ d))

-- `AllStorageClasses` lists the ends of the edges and nothing else, in strictly ascending order.
pub all_storage_classes-IsSorted :
    (topology : List ReplicationTarget)
    → IsSorted str_lt (all_storage_classes topology)
      × ((k : String) → has k (all_storage_classes topology) ≡ any (touches k) topology)
unfolding all_storage_classes has
all_storage_classes-IsSorted topology = (
  sort_strings-IsSorted (collect_classes [] topology) (collect_classes-IsDistinct [] topology tt),
  λ k. has-sort_strings k (collect_classes [] topology) ∙ has-collect_classes k [] topology,
)

all_storage_classes-IsDistinct :
    (topology : List ReplicationTarget) → IsDistinct (all_storage_classes topology)
unfolding all_storage_classes
all_storage_classes-IsDistinct topology =
    sort_strings-IsDistinct (collect_classes [] topology)
      (collect_classes-IsDistinct [] topology tt)

primary_less_trans :
    (p a b c : String)
    → primary_less p a b ≡ true
    → primary_less p b c ≡ true
    → primary_less p a c ≡ true
unfolding primary_less
primary_less_trans p a b c h k = ground (arith, str_lt_trans a b c)

primary_less_total :
    (p a b : String) → a ≢ b → primary_less p a b ≡ false → primary_less p b a ≡ true
unfolding primary_less
primary_less_total p a b n h = ground (arith, str_lt_total a b n, str_eq_iff a p, str_eq_iff b p)

primary_less-names :
    (p a b : String)
    → str_eq a p ≡ false
    → str_eq b p ≡ false
    → primary_less p a b ≡ true
    → str_lt a b ≡ true
unfolding primary_less
primary_less-names p a b e n h = ground arith

-- Nothing else comes before the primary.
primary_less-primary : (p y : String) → primary_less p y p ≡ true → y ≡ p
unfolding primary_less
primary_less-primary p y h = ground (arith, str_eq_iff y p, str_eq_refl p)

first_is_primary :
    (p y : String) (ys : List String)
    → IsAbove (primary_less p) y ys
    → has p (y ∷ ys) ≡ true
    → y ≡ p
unfolding has
first_is_primary p y ys a h = elim (Bool-cases (str_eq y p)) [
  | inl e ↦ (str_eq_iff y p).0 e
  | inr e ↦ primary_less-primary p y (less_of-IsAbove (primary_less p) y p ys a (ground arith))
]

not-has-nil : (p : String) → has p [] ≢ true
unfolding has
not-has-nil p h = cc

-- Away from the primary the comparison is the order of names.
IsSorted-names :
    (p : String) (ys : List String)
    → has p ys ≡ false
    → IsSorted (primary_less p) ys
    → IsSorted str_lt ys
unfolding has
IsSorted-names p [] n s = tt
IsSorted-names p (y ∷ ys) n (a, s) =
    (IsAbove-names y ys (ground arith) (ground arith) a, IsSorted-names p ys (ground arith) s)
  where
    IsAbove-names :
        (x : String) (zs : List String)
        → str_eq x p ≡ false
        → has p zs ≡ false
        → IsAbove (primary_less p) x zs
        → IsAbove str_lt x zs
    IsAbove-names x [] e n b = tt
    IsAbove-names x (z ∷ zs) e n (b, bs) =
        (primary_less-names p x z e (ground arith) b, IsAbove-names x zs e (ground arith) bs)

-- `AllStorageClassesPrimaryFirst` puts the primary first and lists every other end of an edge after
-- it, in ascending order, if the primary is the end of some edge.
pub all_storage_classes_primary_first_lem :
    (primary : String) (topology : List ReplicationTarget)
    → any (touches primary) topology ≡ true
    → (rest : List String) × (all_storage_classes_primary_first primary topology ≡ primary ∷ rest)
      × IsSorted str_lt rest
      × (has primary rest ≡ false)
      × ((k : String) → has k (primary ∷ rest) ≡ any (touches k) topology)
unfolding all_storage_classes_primary_first
all_storage_classes_primary_first_lem p topology h =
    go (sort_by less classes) refl
      (sort_by-IsSorted less (primary_less_trans p) (primary_less_total p) classes distinct)
      (sort_by-IsDistinct less classes distinct) member
  where
    less : String → String → Bool
    less = primary_less p

    classes : List String
    classes = all_storage_classes topology

    distinct : IsDistinct classes
    distinct = all_storage_classes-IsDistinct topology

    member : (k : String) → has k (sort_by less classes) ≡ any (touches k) topology
    member k = has-sort_by less k classes ∙ (all_storage_classes-IsSorted topology).1 k

    go :
        (l : List String)
        → sort_by less classes ≡ l
        → IsSorted less l
        → IsDistinct l
        → ((k : String) → has k l ≡ any (touches k) topology)
        → (rest : List String) × (sort_by less classes ≡ p ∷ rest)
          × IsSorted str_lt rest
          × (has p rest ≡ false)
          × ((k : String) → has k (p ∷ rest) ≡ any (touches k) topology)
    go [] e s d m = absurd (not-has-nil p (m p ∙ h))
    go (y ∷ ys) e (a, s) (n, d) m =
        let first = first_is_primary p y ys a (m p ∙ h) in
        let fresh = subst (λ w. has w ys ≡ false) first n in
        (
          ys,
          e ∙ ap (λ w. w ∷ ys) first,
          IsSorted-names p ys fresh s,
          fresh,
          λ k. subst (λ w. has k (w ∷ ys) ≡ any (touches k) topology) first (m k),
        )

-- How a target of `TargetsFor` relates to its entry: it is the entry where `k` is the source of that, and
-- else the entry turned, without the directory that is exported on the other side.
abbrev pub IsOriented : String → ReplicationTarget → ReplicationTarget → Type 0
IsOriented k t u =
    ((t.source ≡ k) × (u ≡ t))
    ⊎ ((t.source ≢ k)
        × (t.destination ≡ k)
        × (u.source ≡ k)
        × (u.destination ≡ t.source)
        × (u.peer_name ≡ t.peer_name)
        × (u.target_exported_dir ≡ ""))

kept : (k : String) (t : ReplicationTarget) → str_eq k t.source ≡ true → IsOriented k t t
kept k t h = inl (sym ((str_eq_iff k t.source).0 h), refl)

flipped :
    (k : String) (t : ReplicationTarget)
    → str_eq k t.source ≡ false
    → str_eq k t.destination ≡ true
    → IsOriented k t (flip_target t)
flipped k t n h =
    let e : t.destination ≡ k = sym ((str_eq_iff k t.destination).0 h) in
    inr ((λ q. ground (arith, str_eq_iff k t.source, sym q)), e, e, refl, refl, refl)

-- `TargetsFor` keeps exactly the entries that involve the StorageClass, in order: an entry that starts at
-- it as it is, and any other turned, with the same peer and without a targetExportedDir.
pub targets_for-IsOriented :
    (k : String) (ts : List ReplicationTarget)
    → Pairwise (IsOriented k) (keep_if (touches k) ts) (targets_for k ts)
unfolding targets_for
targets_for-IsOriented k [] = tt
targets_for-IsOriented k (t ∷ ts) = elim (Bool-cases (str_eq k t.source)) [
  | inl e ↦ rw (e, str_eq_comm t.source k, e) (kept k t e, targets_for-IsOriented k ts)
  | inr e ↦ elim (Bool-cases (str_eq k t.destination)) [
    | inl d ↦
        rw (e, d, str_eq_comm t.source k, e, str_eq_comm t.destination k, d)
          (flipped k t e d, targets_for-IsOriented k ts)
    | inr d ↦
        rw (e, d, str_eq_comm t.source k, e, str_eq_comm t.destination k, d)
          (targets_for-IsOriented k ts)
  ]
]
