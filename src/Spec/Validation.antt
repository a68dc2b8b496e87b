-- ===== src/Spec/Validation.antt =====
-- extensions-controller/api/v1alpha1: `Validate` of ReplicationTarget and of the two specs. An error
-- names the branch that returned it, with the index that the message shows.
pub mod Pairs
pub mod Mesh
pub mod Laws
use vast_csi.Prelude.{
  ℕ, suc, String, Bool, true, false, not, ◌&&◌, ◌||◌, List, [], ◌∷◌, ◌++◌, Result, ok, err, ◌>>=◌,
  ◌>>◌, reject_if, str_eq, str_lt, has, add, sort_strings, if◌then◌else◌,
}
use vast_csi.Spec.Types.{
  ReplicationTarget, VastStorageClassReplicationSpec, VastVolumeReplicationSpec,
}
use vast_csi.Spec.Templates.{TemplateError, validate_template}

pub data TargetError : Type 0 where
  source_empty destination_empty same_ends relative_dir : TargetError

-- `strings.HasPrefix(s, "/")`
abbrev pub is_absolute : String → Bool
is_absolute s = text.Mathlib.Text.starts_with s "/"

-- `ReplicationTarget.Validate`
unfoldable pub validate_target : ReplicationTarget → Result TargetError (Unit {0})
validate_target t = do
  reject_if (str_eq t.source "") source_empty
  reject_if (str_eq t.destination "") destination_empty
  reject_if (str_eq t.source t.destination) same_ends
  reject_if (not (str_eq t.target_exported_dir "") && not (is_absolute t.target_exported_dir))
      relative_dir

-- `unorderedPair`: the two names, the lower one first.
abbrev pub UnorderedPair : Type 0
UnorderedPair = String × String

unfoldable pub norm_pair : String → String → UnorderedPair
norm_pair a b = if str_lt b a then (b, a) else (a, b)

-- `==` on `unorderedPair`
abbrev pub pair_eq : UnorderedPair → UnorderedPair → Bool
pair_eq p q = str_eq p.0 q.0 && str_eq p.1 q.1

unfoldable pub has_pair : UnorderedPair → List UnorderedPair → Bool
has_pair p [] = false
has_pair p (q ∷ qs) = pair_eq q p || has_pair p qs

pub data SpecError : Type 0 where
  volume_name_empty primary_empty topology_empty remap_needs_sync primary_not_in_topology :
      SpecError
  template : TemplateError → SpecError
  entry_source_empty entry_destination_empty entry_same_ends duplicate_entry : ℕ → SpecError
  missing_pairs : List UnorderedPair → SpecError

-- The loop over the topology, from entry `i`: the pairs seen so far and the StorageClasses.
unfoldable pub check_entries :
    ℕ
    → List UnorderedPair
    → List String
    → List ReplicationTarget
    → Result SpecError (List UnorderedPair × List String)
check_entries i seen classes [] = ok (seen, classes)
check_entries i seen classes (t ∷ ts) =
    let rest =
      check_entries (suc i) (norm_pair t.source t.destination ∷ seen)
        (add t.destination (add t.source classes)) ts in
    if str_eq t.source ""
    then err (entry_source_empty i)
    else if str_eq t.destination ""
    then err (entry_destination_empty i)
    else if str_eq t.source t.destination
    then err (entry_same_ends i)
    else if has_pair (norm_pair t.source t.destination) seen
    then err (duplicate_entry i)
    else rest

abbrev pub lift_template : Result TemplateError (Unit {0}) → Result SpecError (Unit {0})
lift_template (ok u) = ok u
lift_template (err e) = err (template e)

abbrev pub is_empty {ℓ} : {A : Type ℓ} → List A → Bool
is_empty [] = true
is_empty (_ ∷ _) = false

-- The inner loop of the mesh test, for one StorageClass and those after it.
unfoldable pub missing_with : List UnorderedPair → String → List String → List UnorderedPair
missing_with seen a [] = []
missing_with seen a (b ∷ bs) =
    let p = norm_pair a b in
    if has_pair p seen then missing_with seen a bs else p ∷ missing_with seen a bs

unfoldable pub missing_from : List UnorderedPair → List String → List UnorderedPair
missing_from seen [] = []
missing_from seen (a ∷ rest) = missing_with seen a rest ++ missing_from seen rest

module _ (time_parse : String → String → Bool) where
  -- `VastStorageClassReplicationSpec.Validate`
  unfoldable pub validate_vscr : VastStorageClassReplicationSpec → Result SpecError (Unit {0})
  validate_vscr s = do
    reject_if (str_eq s.primary_storage_class "") primary_empty
    reject_if (is_empty s.protection_topology) topology_empty
    lift_template (validate_template time_parse s.protection_policy_template)
    reject_if (s.pvc_remap && not s.sync_pvcpv) remap_needs_sync
    found ← check_entries 0 [] [] s.protection_topology
    reject_if (not (has s.primary_storage_class found.1)) primary_not_in_topology

  -- `VastVolumeReplicationSpec.Validate`
  unfoldable pub validate_vvr : VastVolumeReplicationSpec → Result SpecError (Unit {0})
  validate_vvr s = do
    reject_if (str_eq s.volume_name "") volume_name_empty
    reject_if (str_eq s.primary_storage_class "") primary_empty
    reject_if (is_empty s.protection_topology) topology_empty
    lift_template (validate_template time_parse s.protection_policy_template)
    found ← check_entries 0 [] [] s.protection_topology
    reject_if (not (has s.primary_storage_class found.1)) primary_not_in_topology
    let missing = missing_from found.0 (sort_strings found.1)
    reject_if (not (is_empty missing)) (missing_pairs missing)
