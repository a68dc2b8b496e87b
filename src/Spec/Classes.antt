-- ===== src/Spec/Classes.antt =====
-- extensions-controller/api/v1alpha1: the StorageClasses of a topology. The methods of
-- VastStorageClassReplicationSpec and VastVolumeReplicationSpec have the same bodies. A Go set is
-- the list of its keys, and what is sorted afterwards does not depend on their order.
pub mod Laws
use vast_csi.Prelude.{
  String, Bool, true, false, List, [], ◌∷◌, str_eq, str_lt, add, sort_strings, sort_by,
  if◌then◌else◌,
}
use vast_csi.Spec.Types.{ReplicationTarget}

-- The loop that fills `seen`.
unfoldable pub collect_classes : List String → List ReplicationTarget → List String
collect_classes seen [] = seen
collect_classes seen (t ∷ ts) = collect_classes (add t.destination (add t.source seen)) ts

unfoldable pub all_storage_classes : List ReplicationTarget → List String
unfolding collect_classes sort_strings add
all_storage_classes topology = sort_strings (collect_classes [] topology)

-- The comparison that `AllStorageClassesPrimaryFirst` hands to `sort.Slice`.
unfoldable pub primary_less : String → String → String → Bool
primary_less primary a b =
    if str_eq a primary then true else if str_eq b primary then false else str_lt a b

unfoldable pub all_storage_classes_primary_first : String → List ReplicationTarget → List String
unfolding all_storage_classes primary_less sort_by
all_storage_classes_primary_first primary topology =
    sort_by (primary_less primary) (all_storage_classes topology)

-- The same edge, seen from its destination: the literal of `TargetsFor`.
abbrev pub flip_target : ReplicationTarget → ReplicationTarget
flip_target t = record {
  source = t.destination;
  destination = t.source;
  peer_name = t.peer_name;
  target_exported_dir = "";
}

unfoldable pub targets_for : String → List ReplicationTarget → List ReplicationTarget
targets_for sc_name [] = []
targets_for sc_name (t ∷ ts) =
    let rest = targets_for sc_name ts in
    if str_eq sc_name t.source
    then t ∷ rest
    else if str_eq sc_name t.destination
    then flip_target t ∷ rest
    else rest
