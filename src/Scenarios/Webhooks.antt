-- ===== src/Scenarios/Webhooks.antt =====
-- The theorems about the webhooks, on concrete requests.
use vast_csi.Prelude.{
  String, true, ◌≡◌, refl, ◌↔◌, none, some, List, [], ◌∷◌, ok, All, Pairwise, str_eq, str_lt, has,
  add, lookup, insert, sort_by, insert_by, sort_strings,
}
use vast_csi.Spec.Types.{VastStorageClassReplicationSpec}
use vast_csi.Spec.Durations.{is_digit, is_unit, match_duration, match_tail}
use vast_csi.Spec.Templates.{validate_template, validate_frames, validate_frame}
use vast_csi.Spec.Classes.{all_storage_classes, collect_classes}
use vast_csi.Spec.Validation.{validate_vscr, check_entries, norm_pair, has_pair}
use vast_csi.Vms.Peers.{
  storage_class_needs_peer_discovery, explicit_from, explicit_peer_names_for_sc, shared_names,
  discover_peer, choose_peer, resolve_peer_name, resolve_entries, note_peers, sort_values,
  topology_peer_names_by_sc, name_set, peer_filter, build_peer_names_by_sc, fetch_peers,
  fetch_resolved, resolve_and_fetch_topology_peers,
}
use vast_csi.K8s.{is_block_storage_class}
use vast_csi.Admission.{is_allowed, patch_of}
use vast_csi.Admission.Topology.{
  validate_topology_immutable, default_entries, apply_topology_defaults,
}
use vast_csi.Admission.Clients.{
  Outside, client_for, clients_for, default_response, validate_and_default_topology,
}
use vast_csi.Admission.Storage.{check_drivers, validate_storage_class_consistency}
use vast_csi.Admission.Claims.{
  Self, Replication, vscr, mark_used, mark_objects, check_unused, validate,
}
use vast_csi.Admission.Handlers.{
  Request, create, check_primary, create_vscr, handle_vscr, handle_vvr,
}
use vast_csi.Admission.Shape.{SameShape, validate_topology_immutable_iff}
use vast_csi.Admission.Exclusive.{IsUnclaimed, validate_iff}
use vast_csi.Admission.Laws.{KeepsShape, handle_vscr_sound, handlers_patch_nothing}
use vast_csi.Scenarios.{edge_of, triangle, gold_vscr, no_layout, list_names, clusters}

validate_topology_immutable_iff_example :
    (is_allowed (validate_topology_immutable triangle (edge_of "gold" "silver" "z" ∷ [])) ≡ true)
    ↔ Pairwise SameShape triangle (edge_of "gold" "silver" "z" ∷ [])
validate_topology_immutable_iff_example =
    validate_topology_immutable_iff triangle (edge_of "gold" "silver" "z" ∷ [])

abbrev other_vvr : Replication
other_vvr = record {
  namespace = "apps";
  name = "v";
  protection_topology = edge_of "iron" "zinc" "" ∷ [];
}

abbrev gold_self : Self
gold_self = record { kind = vscr; namespace = "apps"; name = "gold" }

validate_iff_example :
    (is_allowed (validate (some []) (some (other_vvr ∷ [])) gold_self ("gold" ∷ "iron" ∷ []))
      ≡ true)
    ↔ All (IsUnclaimed [] (other_vvr ∷ []) gold_self) ("gold" ∷ "iron" ∷ [])
validate_iff_example = validate_iff [] (other_vvr ∷ []) gold_self ("gold" ∷ "iron" ∷ [])

-- Each StorageClass serves files, and its client is the list of the peers of its cluster.
abbrev files : Outside (List String) String
files = record {
  get_storage_class = λ name. some (record { name = name; provisioner = "csi"; parameters = [] });
  new_from_storage_class = λ sc. lookup sc.name clusters;
  list_peers = list_names;
  view_exists = λ rest view tenant. some true;
  get_pvc = λ ns name. some (some "gold");
  marshal = λ s. s;
}

abbrev gold_request : Request VastStorageClassReplicationSpec
gold_request = record {
  operation = create;
  namespace = "apps";
  name = "gold";
  sent_peers = "\"p\"" ∷ "" ∷ "\"r\"" ∷ [];
  spec = gold_vscr;
}

handle_vscr_sound_example :
    (validate_vscr no_layout gold_vscr ≡ ok tt)
    × KeepsShape create triangle
    × (seen : List Replication × List Replication) × (some [] ≡ some seen.0)
    × (some (other_vvr ∷ []) ≡ some seen.1)
    × All (IsUnclaimed seen.0 seen.1 gold_self) (all_storage_classes triangle)
unfolding handle_vscr validate_vscr validate_template validate_frames validate_frame match_duration
    match_tail is_digit is_unit check_entries norm_pair has_pair create_vscr
    validate_and_default_topology clients_for client_for default_response default_entries
    apply_topology_defaults resolve_and_fetch_topology_peers build_peer_names_by_sc peer_filter
    storage_class_needs_peer_discovery explicit_peer_names_for_sc explicit_from name_set
    resolve_entries resolve_peer_name choose_peer discover_peer shared_names fetch_resolved
    fetch_peers topology_peer_names_by_sc note_peers sort_values check_primary
    is_block_storage_class validate_storage_class_consistency check_drivers validate mark_objects
    mark_used check_unused all_storage_classes collect_classes str_eq str_lt has add lookup insert
    sort_strings sort_by insert_by
handle_vscr_sound_example =
    handle_vscr_sound files no_layout (some []) (some (other_vvr ∷ [])) gold_request refl

handlers_patch_nothing_example :
    (patch_of (handle_vscr files no_layout (some []) (some []) (some gold_request)) ≡ none)
    × (patch_of (handle_vvr files no_layout "apps" none) ≡ none)
handlers_patch_nothing_example =
    handlers_patch_nothing files no_layout (some []) (some []) "apps" (some gold_request) none
