-- ===== src/Scenarios/Replicas.antt =====
-- The theorems about VRCs, on a server that holds one of them.
use vast_csi.Prelude.{
  String, true, false, ◌&&◌, ◌≡◌, ◌↔◌, refl, sym, ap, subst, ◌∙◌, ok-inj, Option, none, some, [],
  ◌∷◌, Result, ok, err, str_eq, str_eq_iff, str_eq_refl, sort_strings, str_lt, sort_by, insert_by,
  lookup, trim_space, trim_left_space, trim_right_space, is_space, arith, if◌then◌else◌, Bool-cases,
  inl, inr,
}
use vast_csi.Controller.Objects.{
  file, volume_group_replication, Vrc, Object, ParentCr, ObjectApi, parent_cr_from_object,
  owner_by_kind, parent_namespace, patch_vrc_spec, patch_with_retry, patch_read,
}
use vast_csi.Controller.Objects.Sync.{
  current_state_str, sync_vrc_replication_state, sync_vrc_pvcs, same_list,
}
use vast_csi.Controller.Objects.Volume.{
  sync_for_vr, reconcile_vr, reconcile_found_vr, reconcile_live_vr, read_for_vr, ensure_for_vr,
  update_for_vr,
}
use vast_csi.Controller.Objects.Pvcs.{IsInStep, reconcile_vr-IsInStep}
use vast_csi.Controller.Objects.Laws.{Follows}
use vast_csi.Controller.Objects.Stored.{IsStore, reconcile_vgr-Follows}
use vast_csi.Controller.Objects.Names.{has_dot, touched_name_iff}
use vast_csi.Controller.Objects.Touch.{
  touched_name, touch_secondary_vrcs, touch_vrcs_for_storage_classes,
}
use vast_csi.Spec.Classes.{all_storage_classes, collect_classes}
use vast_csi.Controller.Objects.Group.{
  reconcile_vgr, reconcile_found_vgr, reconcile_live_vgr, read_for_vgr, selected_storage_class,
  ensure_for_vgr, update_for_vgr, tell_secondaries, sync_for_vgr,
}
use vast_csi.Controller.Remap.Reconcile.{vgr_name_for_sc}

abbrev vscr : ParentCr
vscr = record {
  name = "r";
  namespace = "ops";
  volume_namespace = "apps";
  primary_storage_class = "gold";
  protection_topology = [];
  sync_pvcpv = true;
  ppath_name = "path";
}

abbrev old : Vrc
old = record {
  name = "r-gold";
  namespace = "apps";
  labels = [];
  finalizers = [];
  owners = [];
  deleting = false;
  spec = record {
    storage_class = "gold";
    kind = volume_group_replication;
    pvcs = "b" ∷ [];
    sync_pvcpv = true;
    provisioner_type = file;
    replication_state = "secondary";
    protected_path_name = "path";
    replication_path = "/p";
    protection_policy_names = "x" ∷ [];
  };
}

abbrev group : Object
group = record {
  name = "r-gold";
  namespace = "apps";
  labels = ("vastdata.com/source-vscr", "r") ∷ [];
  owners = [];
  deleting = false;
  state = some "primary";
  selector = some (("vastdata.com/storageClass", "gold") ∷ []);
  pvc_refs = "b" ∷ "a" ∷ [];
  data_source = "b";
}

abbrev read_one : String → String → Option Vrc → Result String Vrc
read_one name ns none = err "not found"
read_one name ns (some vrc) =
    if str_eq vrc.name name && str_eq vrc.namespace ns then ok vrc else err "not found"

abbrev server : ObjectApi (Option Vrc) String String
server = record {
  is_not_found = λ e. str_eq e "not found";
  is_network_error = λ e. false;
  next_backoff = 10;
  get_object = λ name ns. ok group;
  get_parent = λ name ns. ok vscr;
  get_storage_class = λ name. ok (record { name = name; provisioner = "csi"; parameters = [] });
  new_from_storage_class = λ sc. ok sc.name;
  is_missing_path = λ e. str_eq e "missing";
  get_ppath = λ rest name. ok (record { name = name; source_dir = "/p" });
  set_owner = λ obj vrc. ok vrc;
  get_vrc = read_one;
  create_vrc = λ vrc w. (some vrc, ok tt);
  patch_vrc = λ base vrc w. (some vrc, ok tt);
  retry_on_conflict = λ m w. m w;
  delete_vrc = λ vrc w. (none, ok tt);
  set_annotation = λ vrc key w. (w, ok tt);
}

read_same : (vrc : Vrc) → read_one vrc.name vrc.namespace (some vrc) ≡ ok vrc
read_same vrc = rw (str_eq_refl vrc.name, str_eq_refl vrc.namespace) refl

written : (vrc : Vrc) (w : Option Vrc) → some vrc ≡ w → read_one vrc.name vrc.namespace w ≡ ok vrc
written vrc w e = subst (λ v. read_one vrc.name vrc.namespace v ≡ ok vrc) e (read_same vrc)

read_names :
    (name ns : String) (w : Option Vrc) (vrc : Vrc)
    → read_one name ns w ≡ ok vrc
    → (vrc.name ≡ name) × (vrc.namespace ≡ ns)
read_names name ns none vrc h = absurd cc
read_names name ns (some v) vrc h =
    elim (Bool-cases (str_eq v.name name && str_eq v.namespace ns)) [
      | inl e ↦
          let there : ◌≡◌ {A = Result String Vrc} (ok v) (ok vrc) = ground arith in
          let same = sym (ok-inj there) in
          (
            ap (λ v. v.name) same ∙ (str_eq_iff v.name name).0 (ground arith),
            ap (λ v. v.namespace) same ∙ (str_eq_iff v.namespace ns).0 (ground arith),
          )
      | inr e ↦ absurd (ground arith)
    ]

patched_at :
    (base vrc : Vrc) (w : Option Vrc)
    → vrc.name ≡ base.name
    → vrc.namespace ≡ base.namespace
    → read_one vrc.name vrc.namespace w ≡ ok vrc
    → read_one base.name base.namespace w ≡ ok vrc
patched_at base vrc w n m h =
    subst (λ k. read_one base.name k w ≡ ok vrc) m
      (subst (λ k. read_one k vrc.namespace w ≡ ok vrc) n h)

server-IsStore : IsStore server
server-IsStore = record {
  named = λ name ns w vrc h. read_names name ns w vrc h;
  created = λ vrc w w' h. written vrc w' (ap (λ r. r.0) h);
  patched =
      λ base vrc w w' n m get h. patched_at base vrc w' n m (written vrc w' (ap (λ r. r.0) h));
  retried = λ m w w' h. (w, h);
  annotated = λ vrc read key name ns w h. (read, h, refl);
  owned = λ obj vrc vrc' h.
      let same = sym (ok-inj h) in
      (ap (λ v. v.spec) same, ap (λ v. v.name) same, ap (λ v. v.namespace) same);
}

abbrev after : Vrc
after = record old {
  spec = record old.spec { pvcs = "a" ∷ "b" ∷ []; replication_state = "primary" };
}

reconcile_vgr-Follows_example :
    (vrc : Vrc) × (read_one "r-gold" "apps" (some after) ≡ ok vrc) × Follows group vrc.spec
unfolding reconcile_vgr sort_strings reconcile_found_vgr reconcile_live_vgr read_for_vgr str_eq
    parent_cr_from_object owner_by_kind lookup selected_storage_class ensure_for_vgr update_for_vgr
    tell_secondaries sync_for_vgr sync_vrc_replication_state current_state_str sync_vrc_pvcs
    same_list str_lt sort_by insert_by touch_secondary_vrcs touch_vrcs_for_storage_classes
    all_storage_classes collect_classes parent_namespace trim_space trim_left_space trim_right_space
    is_space patch_vrc_spec patch_with_retry patch_read
reconcile_vgr-Follows_example =
    reconcile_vgr-Follows server "r-gold" "apps" group (some old) (some after) server-IsStore refl
      refl refl

-- A VR whose PVC is "a" and whose state is new to the VRC.
abbrev volume : Object
volume = record group {
  labels = ("vastdata.com/storageClass", "gold") ∷ ("vastdata.com/source-vvr", "r") ∷ [];
  data_source = "a";
}

abbrev volume_server : ObjectApi (Option Vrc) String String
volume_server = record server { get_object = λ name ns. ok volume }

volume_server-IsStore : IsStore volume_server
volume_server-IsStore = record {
  named = λ name ns w vrc h. read_names name ns w vrc h;
  created = λ vrc w w' h. written vrc w' (ap (λ r. r.0) h);
  patched =
      λ base vrc w w' n m get h. patched_at base vrc w' n m (written vrc w' (ap (λ r. r.0) h));
  retried = λ m w w' h. (w, h);
  annotated = λ vrc read key name ns w h. (read, h, refl);
  owned = λ obj vrc vrc' h.
      let same = sym (ok-inj h) in
      (ap (λ v. v.spec) same, ap (λ v. v.name) same, ap (λ v. v.namespace) same);
}

abbrev promoted : Vrc
promoted = record old { spec = record old.spec { replication_state = "primary" } }

reconcile_vr-IsInStep_example :
    (vrc : Vrc) × (read_one "r-gold" "apps" (some promoted) ≡ ok vrc) × IsInStep old volume vrc.spec
unfolding reconcile_vr reconcile_found_vr reconcile_live_vr read_for_vr str_eq parent_cr_from_object
    owner_by_kind lookup ensure_for_vr update_for_vr sync_for_vr sync_vrc_replication_state
    current_state_str parent_namespace trim_space trim_left_space trim_right_space is_space
    patch_vrc_spec patch_with_retry patch_read
reconcile_vr-IsInStep_example =
    reconcile_vr-IsInStep volume_server "r-gold" "apps" volume old (some old) (some promoted)
      volume_server-IsStore refl refl refl refl

touched_name_iff_example :
    (touched_name vscr "gold.v1" ≡ vgr_name_for_sc "r" "gold.v1") ↔ (has_dot "gold.v1" ≡ false)
touched_name_iff_example = touched_name_iff vscr "gold.v1"
