-- ===== src/Controller/Content.antt =====
-- extensions-controller/internal/controller/vastreplicationcontent_controller.go: how the
-- VastReplicationContents of one constellation are taken away. The answers of the API server and of the
-- cleanup are an argument of each reconcile.
pub mod Laws
use vast_csi.Prelude.{
  String, Bool, true, false, not, ◌&&◌, Option, none, some, List, [], ◌∷◌, ◌≡◌, keep_if, str_eq,
  if◌then◌else◌,
}

-- An object, as far as the deletion goes: its deletion timestamp, the annotation that its cleanup is
-- done, and its finalizer. An object whose finalizer is removed has left the API server.
pub record Content : Type 0 where
  pub deleting : Bool
  pub cleanup_done : Bool
  pub finalizer : Bool

-- The mirrored VolumeGroupReplication or VolumeReplication, as it is read. An object of any other kind
-- has no parent: it is left out.
pub data Parent : Type 0 where
  present terminating gone unreadable : Parent

-- What one reconcile is told: the parent, and whether each of the calls succeeds.
pub record Answers : Type 0 where
  pub owner_found : Bool
  pub parent : Parent
  pub cleaned : Bool
  pub annotated : Bool
  pub listed : Bool
  pub finalizer_removed : Bool
  pub deleted : Bool

-- Name to object.
abbrev pub Store : Type 0
Store = String → Content

abbrev pub put : String → Content → Store → Store
put name v s k = if str_eq name k then v else s k

-- `parentIsFullyGone`, where an error is false as well: both return before the cleanup.
unfoldable pub parent_is_fully_gone : Parent → Bool
parent_is_fully_gone gone = true
parent_is_fully_gone present = false
parent_is_fully_gone terminating = false
parent_is_fully_gone unreadable = false

unfoldable pub parent_is_gone_or_terminating : Parent → Bool
parent_is_gone_or_terminating gone = true
parent_is_gone_or_terminating terminating = true
parent_is_gone_or_terminating present = false
parent_is_gone_or_terminating unreadable = false

-- The loop of `allVCRsDeleted` over the objects of the constellation that are listed.
unfoldable pub all_vcrs_deleted : String → Store → List String → Bool
all_vcrs_deleted name s [] = true
all_vcrs_deleted name s (other ∷ more) =
    let rest = all_vcrs_deleted name s more in
    if str_eq other name then rest else if not (s other).cleanup_done then false else rest

-- The objects that the API server still has.
unfoldable pub listed_names : Store → List String → List String
listed_names s names = keep_if (λ k. (s k).finalizer) names

-- The cleanup, with the annotation afterwards; none where the reconcile ends before that.
unfoldable pub clean : Answers → Content → Option Content
clean a v =
    if v.cleanup_done
    then some v
    else if parent_is_fully_gone a.parent && a.cleaned && a.annotated
    then some (record v { cleanup_done = true })
    else none

-- The end of the deletion: the test of the other objects, and the finalizer.
unfoldable pub release : List String → Answers → String → Store → Store
release names a name s =
    if a.listed && all_vcrs_deleted name s (listed_names s names) && a.finalizer_removed
    then put name (record (s name) { finalizer = false }) s
    else s

unfoldable pub release_cleaned : List String → Answers → String → Store → Option Content → Store
release_cleaned names a name s none = s
release_cleaned names a name s (some v) = release names a name (put name v s)

-- The branch of an object that is not being deleted. Provisioning leaves these fields alone.
unfoldable pub self_destruct : Answers → String → Store → Store
self_destruct a name s =
    if parent_is_gone_or_terminating a.parent && a.deleted
    then put name (record (s name) { deleting = true }) s
    else s

-- `Reconcile` of one object of the constellation `names`.
unfoldable pub reconcile : List String → Answers → String → Store → Store
reconcile names a name s =
    if not (s name).finalizer
    then s
    else if not a.owner_found
    then s
    else if (s name).deleting
    then release_cleaned names a name s (clean a (s name))
    else self_destruct a name s

-- The stores that reconciles lead to, in any order and with any answers, from objects that all have
-- their finalizer. A deletion may also come from elsewhere. A reconcile sees
-- the store as it is, and a name that has left is not created again.
pub data Reachable (names : List String) : Store → Type 0 where
  created : (s : Store) → ((k : String) → (s k).finalizer ≡ true) → Reachable names s
  reconciled :
      (a : Answers) (name : String) (s : Store)
      → Reachable names s
      → Reachable names (reconcile names a name s)
  deleted_elsewhere :
      (name : String) (s : Store)
      → Reachable names s
      → Reachable names (put name (record (s name) { deleting = true }) s)
