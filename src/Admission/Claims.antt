-- ===== src/Admission/Claims.antt =====
-- `validate`: a StorageClass belongs to at most one replication object.
use vast_csi.Prelude.{
  String, Bool, true, false, ◌&&◌, Option, none, some, List, [], ◌∷◌, str_eq, has_key, insert,
  if◌then◌else◌,
}
use vast_csi.Spec.Types.{ReplicationTarget}
use vast_csi.Spec.Classes.{all_storage_classes}
use vast_csi.Admission.{Response, denied, errored, allow, already_used}

-- The two kinds of object.
pub data Kind : Type 0 where
  vscr vvr : Kind

abbrev pub same_kind : Kind → Kind → Bool
same_kind vscr vscr = true
same_kind vvr vvr = true
same_kind vscr vvr = false
same_kind vvr vscr = false

-- An object as `validate` reads it.
pub record Replication : Type 0 where
  pub namespace : String
  pub name : String
  pub protection_topology : List ReplicationTarget

-- The object under admission: its kind, namespace and name.
pub record Self : Type 0 where
  pub kind : Kind
  pub namespace : String
  pub name : String

-- Objects of kind `kind` are skipped where they are the object under admission.
abbrev pub is_self : Self → Kind → Replication → Bool
is_self self kind r =
    same_kind self.kind kind && str_eq r.name self.name && str_eq r.namespace self.namespace

-- The value of `used`: the object that owns the StorageClass.
abbrev pub Owner : Type 0
Owner = Kind × String × String

unfoldable pub mark_used : Owner → List (String × Owner) → List String → List (String × Owner)
mark_used owner used [] = used
mark_used owner used (sc ∷ classes) = mark_used owner (insert sc owner used) classes

-- One of the two loops that fill `used`.
unfoldable pub mark_objects :
    Self → Kind → List (String × Owner) → List Replication → List (String × Owner)
mark_objects self kind used [] = used
mark_objects self kind used (r ∷ rs) =
    mark_objects self kind
      (if is_self self kind r
        then used
        else mark_used (kind, r.namespace, r.name) used (all_storage_classes r.protection_topology))
      rs

-- The loop over `incoming`.
unfoldable pub check_unused : List (String × Owner) → List String → Response
check_unused used [] = allow
check_unused used (sc ∷ classes) =
    let rest = check_unused used classes in
    if has_key sc used then denied (already_used sc) else rest

-- The two lists are those of ListVastStorageClassReplications and ListVastVolumeReplications.
unfoldable pub validate :
    Option (List Replication) → Option (List Replication) → Self → List String → Response
validate none vvrs self storage_classes = errored
validate (some vscrs) none self storage_classes = errored
validate (some vscrs) (some vvrs) self storage_classes =
    check_unused (mark_objects self vvr (mark_objects self vscr [] vscrs) vvrs) storage_classes
