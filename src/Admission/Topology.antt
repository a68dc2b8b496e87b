-- ===== src/Admission/Topology.antt =====
-- `validateTopologyImmutable` and `applyTopologyDefaults`.
use vast_csi.Prelude.{
  ℕ, suc, String, Bool, true, false, not, ◌&&◌, ◌||◌, Option, none, some, List, [], ◌∷◌, length,
  ◌==◌, str_eq, if◌then◌else◌,
}
use vast_csi.Spec.Types.{ReplicationTarget}
use vast_csi.Admission.{Response, denied, allow, entries_changed, ends_changed, dir_changed}

-- The loop over two topologies of the same length, from entry `i`.
unfoldable pub check_shape : ℕ → List ReplicationTarget → List ReplicationTarget → Response
check_shape i [] ns = allow
check_shape i (o ∷ os) [] = allow
check_shape i (o ∷ os) (n ∷ ns) =
    let rest = check_shape (suc i) os ns in
    if not (str_eq o.source n.source) || not (str_eq o.destination n.destination)
    then denied (ends_changed i)
    else if not (str_eq o.target_exported_dir n.target_exported_dir)
    then denied (dir_changed i)
    else rest

unfoldable pub validate_topology_immutable :
    List ReplicationTarget → List ReplicationTarget → Response
validate_topology_immutable old_topology new_topology =
    if length old_topology == length new_topology
    then check_shape 0 old_topology new_topology
    else denied entries_changed

-- The `peerName` of the object as it was sent: the JSON text of the field, empty where it is absent.
abbrev pub is_unset : String → Bool
is_unset orig_peer = str_eq orig_peer "" || str_eq orig_peer "\"\"" || str_eq orig_peer "null"

module _ (marshal : String → String) where
  -- The loop of `applyTopologyDefaults`: the entries, and whether one of them changed.
  unfoldable pub default_entries : List String → List ReplicationTarget → List String × Bool
  default_entries entries [] = (entries, false)
  default_entries [] (t ∷ ts) = ([], false)
  default_entries (orig_peer ∷ entries) (t ∷ ts) =
      let rest = default_entries entries ts in
      if is_unset orig_peer && not (str_eq t.peer_name "")
      then (marshal t.peer_name ∷ rest.0, true)
      else (orig_peer ∷ rest.0, rest.1)

  -- none where nothing changed.
  unfoldable pub apply_topology_defaults :
      List String → List ReplicationTarget → Option (List String)
  apply_topology_defaults entries topology =
      let result = default_entries entries topology in if result.1 then some result.0 else none
