-- ===== src/Scenarios/Remaps.antt =====
-- The theorems about the remap, on a source, its mirror on the new primary, and a pod.
use vast_csi.Prelude.{
  String, ◌<>◌, true, false, ◌≡◌, refl, none, some, List, [], ◌∷◌, map, ok, err, lookup, has,
  str_eq, if◌then◌else◌, sym, subst, ◌∙◌, str_eq_iff, insert, Bool-cases, inl, inr, arith,
}
use vast_csi.Controller.Remap.{
  Pvc, Volume, Workload, stateful_set, RemapApi, Table, add_primaries, add_primary, add_listed,
  add_source, add_siblings, siblings_of, source_of, build_sibling_remap_table, label_source_pvc,
}
use vast_csi.Controller.Remap.Pods.{
  do_remap, remap_pods_in_namespace, remap_listed, visit_pods, visit_pod, visit_owner,
  patch_owner_volumes, volumes_from, note_volume, new_claim, note_update, top_level_owner,
  the_workload, to_update, volumes_needing_remap,
}
use vast_csi.Controller.Remap.Reconcile.{
  after_vscr, remap_confirmed, Parent, Replicated, ParentApi, vgr_name_for_sc, reconcile_vscr,
  reconcile_vvr, reconcile,
}
use vast_csi.Controller.Remap.Laws.{claimed_by_pvc, primary_for, lookup-build_sibling_remap_table}
use vast_csi.Controller.Remap.Settled.{AreApart, overlay, moved, remap_settles}
use vast_csi.Controller.Remap.Requests.{IsConfirmed, reconcile_routes, reconcile_vscr-IsConfirmed}

-- The mirror of "db" is the only PVC that is found.
abbrev mirror : Pvc
mirror = record { name = "db-gold"; labels = (label_source_pvc, "db") ∷ [] }

abbrev web : Workload
web = record {
  kind = stateful_set;
  uid = "u1";
  owners = [];
  template_volumes = record { name = "v"; claim = some "db" } ∷ [];
}

-- The world is the number of patches, in strokes.
abbrev cluster : RemapApi String String
cluster = record {
  is_not_found = λ e. str_eq e "not found";
  get_pvc = λ ns name. if str_eq name "db-gold" then ok mirror else err "not found";
  list_pvcs = λ ns labels. ok (mirror ∷ []);
  list_pods = λ ns. ok (
      record {
        owners = record { controller = some true; kind = "StatefulSet"; name = "web" } ∷ [];
        volumes = web.template_volumes;
      }
      ∷ []);
  get_workload = λ ns kind name. ok web;
  patch = λ owner updates w. (w <> "I", ok tt);
}

abbrev table : Table
table = ("db", "db-gold") ∷ []

abbrev refs : List String
refs = "db-gold" ∷ "gone" ∷ []

built : build_sibling_remap_table cluster "apps" refs ≡ ok table
unfolding build_sibling_remap_table add_primaries add_primary add_listed add_source add_siblings
    siblings_of source_of lookup str_eq insert
built = refl

lookup-build_sibling_remap_table_example : lookup "db" table ≡ primary_for cluster "apps" "db" refs
lookup-build_sibling_remap_table_example =
    lookup-build_sibling_remap_table cluster "apps" refs table "db" built

abbrev by_name : List Volume → List (String × String) → List Volume
by_name vs updates = map (overlay updates) vs

the_mirror : (ref : String) (p : Pvc) → cluster.get_pvc "apps" ref ≡ ok p → p ≡ mirror
the_mirror ref p h = ground arith

not_own_sibling :
    (other : String) → claimed_by_pvc cluster "apps" "db-gold" (cluster.get_pvc "apps" other) ≡ none
unfolding siblings_of source_of lookup str_eq insert
not_own_sibling other = elim (Bool-cases (str_eq other "db-gold")) [
  | inl e ↦ rw e refl
  | inr e ↦ rw e refl
]

apart : AreApart cluster "apps" refs
apart ref other p m m' get =
    subst (λ q. claimed_by_pvc cluster "apps" q.name (cluster.get_pvc "apps" other) ≡ none)
      (sym (the_mirror ref p get)) (not_own_sibling other)

remap_settles_example :
    (by_name web.template_volumes (to_update table web.template_volumes)
      ≡ map (moved table) web.template_volumes)
    × (volumes_needing_remap
          (by_name web.template_volumes (to_update table web.template_volumes))
          table
        ≡ [])
unfolding has
remap_settles_example =
    remap_settles cluster "apps" by_name (λ vs updates. refl) refs table web.template_volumes apart
      built (refl, tt)

abbrev failed_over : Parent
failed_over = record {
  pvc_remap = true;
  deleting = false;
  primary_storage_class = "gold";
  pvc_namespace = "apps";
  volume_name = "db";
}

abbrev at_primary : Replicated
at_primary = record { spec_primary = true; status_primary = true; pvc_refs = refs }

abbrev both_kinds : ParentApi String
both_kinds = record {
  get_vscr = λ name ns. ok failed_over;
  get_vvr = λ name ns. ok failed_over;
  get_vgr = λ name ns. ok at_primary;
  get_vr = λ name ns. ok at_primary;
}

reconcile_routes_example :
    (reconcile cluster both_kinds "vscr/a/b" "ns" ""
      ≡ reconcile_vscr cluster both_kinds "a/b" "ns" "")
    × (reconcile cluster both_kinds "vvr/a/b" "ns" ""
        ≡ reconcile_vvr cluster both_kinds "a/b" "ns" "")
reconcile_routes_example = reconcile_routes cluster both_kinds "ns" "" "a/b"

one_patch : (reconcile_vscr cluster both_kinds "r" "ns" "").0 ≡ "I"
unfolding reconcile_vscr after_vscr remap_confirmed do_remap remap_pods_in_namespace remap_listed
    visit_pods visit_pod visit_owner patch_owner_volumes volumes_needing_remap volumes_from
    note_volume new_claim to_update note_update top_level_owner the_workload
    build_sibling_remap_table add_primaries add_primary add_listed add_source add_siblings
    siblings_of source_of lookup str_eq has insert
one_patch = refl

reconcile_vscr-IsConfirmed_example :
    (vscr : Parent) × (vgr : Replicated) × (both_kinds.get_vscr "r" "ns" ≡ ok vscr)
    × (both_kinds.get_vgr (vgr_name_for_sc "r" vscr.primary_storage_class) vscr.pvc_namespace
        ≡ ok vgr)
    × IsConfirmed vscr vgr
unfolding str_eq
reconcile_vscr-IsConfirmed_example =
    reconcile_vscr-IsConfirmed cluster both_kinds "ns" "" "r"
      (λ same. cc ((str_eq_iff "I" "").1 (sym one_patch ∙ same)))
