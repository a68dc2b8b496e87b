-- ===== src/Admission/Exclusive.antt =====
-- No StorageClass is claimed twice.
use vast_csi.Prelude.{
  String, Bool, true, false, not, ◌&&◌, ◌||◌, ◌≡◌, refl, sym, ap, ◌∙◌, ◌↔◌, some, List, [], ◌∷◌,
  arith, any, All, All-map, has, str_eq, lookup, insert, lookup-insert, has_key, Bool-cases, inl,
  inr,
}
use vast_csi.Spec.Classes.{all_storage_classes}
use vast_csi.Admission.{is_allowed}
use vast_csi.Admission.Claims.{
  Kind, vscr, vvr, Replication, Self, Owner, is_self, mark_used, mark_objects, check_unused,
  validate,
}

has_key-insert :
    (j k : String) (v : Owner) (m : List (String × Owner))
    → has_key j (insert k v m) ≡ (str_eq k j || has_key j m)
has_key-insert j k v m = ground (arith, lookup-insert k j v m)

has_key-mark_used :
    (sc : String) (owner : Owner) (used : List (String × Owner)) (classes : List String)
    → has_key sc (mark_used owner used classes) ≡ (has sc classes || has_key sc used)
unfolding mark_used has
has_key-mark_used sc owner used [] = refl
has_key-mark_used sc owner used (c ∷ classes) =
    has_key-mark_used sc owner (insert c owner used) classes
    ∙ ground (arith, has_key-insert sc c owner used)

-- The object is another one than that under admission, and the StorageClass is in its topology.
abbrev pub claims : Self → Kind → String → Replication → Bool
claims self kind sc r =
    not (is_self self kind r) && has sc (all_storage_classes r.protection_topology)

has_key-mark_objects :
    (sc : String) (self : Self) (kind : Kind) (used : List (String × Owner)) (rs : List Replication)
    → has_key sc (mark_objects self kind used rs)
      ≡ (any (claims self kind sc) rs || has_key sc used)
unfolding mark_objects
has_key-mark_objects sc self kind used [] = refl
has_key-mark_objects sc self kind used (r ∷ rs) =
    let marked =
      has_key-mark_used sc (kind, r.namespace, r.name) used
        (all_storage_classes r.protection_topology) in
    elim (Bool-cases (is_self self kind r)) [
      | inl e ↦ rw e (has_key-mark_objects sc self kind used rs)
      | inr e ↦ rw e (
          has_key-mark_objects sc self kind
            (mark_used (kind, r.namespace, r.name) used (all_storage_classes r.protection_topology))
            rs
          ∙ ground arith)
    ]

check_unused_iff :
    (used : List (String × Owner)) (classes : List String)
    → (is_allowed (check_unused used classes) ≡ true) ↔ All (λ sc. has_key sc used ≡ false) classes
unfolding check_unused
check_unused_iff used [] = (λ _. tt, λ _. refl)
check_unused_iff used (sc ∷ classes) =
    let (there, back) = check_unused_iff used classes in ground arith

-- No other object has the StorageClass in its topology.
abbrev pub IsUnclaimed : List Replication → List Replication → Self → String → Type 0
IsUnclaimed vscrs vvrs self sc =
    (any (claims self vvr sc) vvrs || any (claims self vscr sc) vscrs) ≡ false

-- Once both lists have been read, `validate` admits an object exactly when none of its StorageClasses
-- is in the topology of a VSCR or a VVR other than itself.
pub validate_iff :
    (vscrs vvrs : List Replication) (self : Self) (storage_classes : List String)
    → (is_allowed (validate (some vscrs) (some vvrs) self storage_classes) ≡ true)
      ↔ All (IsUnclaimed vscrs vvrs self) storage_classes
unfolding validate lookup
validate_iff vscrs vvrs self storage_classes =
    let used = mark_objects self vvr (mark_objects self vscr [] vscrs) vvrs in
    let all : (sc : String)
        → has_key sc used ≡ (any (claims self vvr sc) vvrs || any (claims self vscr sc) vscrs) =
      λ sc.
        has_key-mark_objects sc self vvr (mark_objects self vscr [] vscrs) vvrs
        ∙ ap (λ b. any (claims self vvr sc) vvrs || b)
            (has_key-mark_objects sc self vscr [] vscrs ∙ ground arith) in
    let (there, back) = check_unused_iff used storage_classes in
    (
      λ h. All-map storage_classes (λ sc e. sym (all sc) ∙ e) (there h),
      λ p. back (All-map storage_classes (λ sc e. all sc ∙ e) p),
    )
