-- ===== src/Controller/Objects/Stored.antt =====
-- A group whose reconcile succeeds has its VRC in step, for an API server that keeps what it is given.
use vast_csi.Prelude.{
  String, Bool, false, not, ◌&&◌, keep_if, ◌≡◌, refl, sym, ap, subst, ◌∙◌, List, [], ◌∷◌, Result,
  ok, err, str_eq, sort_strings, arith, Bool-cases, inl, inr, if◌then◌else◌,
}
use vast_csi.K8s.{StorageClass}
use vast_csi.Spec.Classes.{all_storage_classes}
use vast_csi.Controller.Objects.{
  volume_group_replication, VrcSpec, Vrc, Object, ParentCr, SourcePath, ObjectError,
  vrc_terminating, ObjectApi, pvc_namespace, patch_read, patch_with_retry, with_desired,
  patch_vrc_spec,
}
use vast_csi.Controller.Objects.Sync.{
  protection_policy_names_for_vrc, new_vrc, ended, absent_or_failed, create_owned, create_with,
  delete_its_vrc, resolve_source_ppath,
}
use vast_csi.Controller.Objects.Touch.{
  touched_name, touch_found, touch_rest, touch_vrcs_for_storage_classes, touch_secondary_vrcs,
}
use vast_csi.Controller.Objects.Group.{
  read_for_vgr, vscr_labels, sync_for_vgr, tell_secondaries, update_for_vgr, create_for_vgr,
  ensure_for_vgr, reconcile_live_vgr, reconcile_found_vgr, reconcile_vgr,
}
use vast_csi.Controller.Objects.Laws.{
  Follows, sync_for_vgr-Follows, sync_for_vgr_same, sync_for_vgr_name, new_vrc-Follows,
}

module _ {W Rest E : Type 0} (api : ObjectApi W Rest E) where
  pub at_name :
      {name ns name' ns' : String} {vrc : Vrc}
      → name ≡ name'
      → ns ≡ ns'
      → (w : W) → api.get_vrc name ns w ≡ ok vrc
      → api.get_vrc name' ns' w ≡ ok vrc
  at_name e f w h = cc (ap (λ n. api.get_vrc n) e)

  -- What is created is what is read, and so is what a patch of the current object leads to. A retry that
  -- succeeds has succeeded at its last attempt. An annotation leaves the spec of every VRC, and an owner reference
  -- leaves all but the owners.
  pub record IsStore : Type 0 where
    pub named :
        (name ns : String) (w : W) (vrc : Vrc)
        → api.get_vrc name ns w ≡ ok vrc
        → (vrc.name ≡ name) × (vrc.namespace ≡ ns)
    pub created :
        (vrc : Vrc) (w w' : W)
        → api.create_vrc vrc w ≡ (w', ok tt)
        → api.get_vrc vrc.name vrc.namespace w' ≡ ok vrc
    pub patched :
        (base vrc : Vrc) (w w' : W)
        → vrc.name ≡ base.name
        → vrc.namespace ≡ base.namespace
        → api.get_vrc base.name base.namespace w ≡ ok base
        → api.patch_vrc base vrc w ≡ (w', ok tt)
        → api.get_vrc base.name base.namespace w' ≡ ok vrc
    pub retried :
        (m : W → W × Result E (Unit {0})) (w w' : W)
        → api.retry_on_conflict m w ≡ (w', ok tt)
        → (v : W) × (m v ≡ (w', ok tt))
    pub annotated :
        (vrc read : Vrc) (key name ns : String) (w : W)
        → api.get_vrc name ns w ≡ ok read
        → (after : Vrc) × (api.get_vrc name ns (api.set_annotation vrc key w).0 ≡ ok after)
          × (after.spec ≡ read.spec)
    pub owned :
        (obj : Object) (vrc vrc' : Vrc)
        → api.set_owner obj vrc ≡ ok vrc'
        → (vrc'.spec ≡ vrc.spec) × (vrc'.name ≡ vrc.name) × (vrc'.namespace ≡ vrc.namespace)

  abbrev pub Stored : String → String → (VrcSpec → Type 0) → W → Type 0
  Stored name ns Q w = (vrc : Vrc) × (api.get_vrc name ns w ≡ ok vrc) × Q vrc.spec

  ended_world : (r : W × Result E (Unit {0})) → (ended api r).0 ≡ r.0
  ended_world (w, ok _) = refl
  ended_world (w, err e) = refl

  pub ended_ok :
      (r : W × Result E (Unit {0})) (w' : W) → ended api r ≡ (w', ok tt) → r ≡ (w', ok tt)
  ended_ok (w, ok _) w' h = cc
  ended_ok (w, err e) w' h = absurd cc

module _ {W Rest E : Type 0} (api : ObjectApi W Rest E) (store : IsStore api) where
  -- A patch that succeeds leaves some VRC of that name, with the PVCs and the state that were wanted.
  pub patch_vrc_spec-ok :
      (vrc : Vrc) (w w' : W)
      → patch_vrc_spec api vrc w ≡ (w', ok tt)
      → (read : Vrc) × (api.get_vrc vrc.name vrc.namespace w' ≡ ok (with_desired api vrc read))
  unfolding patch_vrc_spec patch_with_retry patch_read
  patch_vrc_spec-ok vrc w w' h =
      let (v, run) =
        store.retried
          (λ u. patch_read api (with_desired api vrc) (api.get_vrc vrc.name vrc.namespace u) u) w w'
          h in
      at (api.get_vrc vrc.name vrc.namespace v) v refl run
    where
      at :
          (r : Result E Vrc) (v : W)
          → api.get_vrc vrc.name vrc.namespace v ≡ r
          → patch_read api (with_desired api vrc) r v ≡ (w', ok tt)
          → (read : Vrc) × (api.get_vrc vrc.name vrc.namespace w' ≡ ok (with_desired api vrc read))
      at (err e) v get run = absurd cc
      at (ok base) v get run =
          let (n, m) = store.named vrc.name vrc.namespace v base get in
          let here = at_name api (sym n) (sym m) v get in
          (
            base,
            at_name api n m w'
                (store.patched base (with_desired api vrc base) v w' refl refl here run),
          )

module _ {W Rest E : Type 0} (api : ObjectApi W Rest E) (store : IsStore api) (name ns : String)
    (Q : VrcSpec → Type 0) where
  touch_found-Stored :
      (key : String) (r : Result E Vrc) (w : W)
      → Stored api name ns Q w
      → Stored api name ns Q (touch_found api key r w).0
  unfolding touch_found
  touch_found-Stored key (err e) w s = s
  touch_found-Stored key (ok vrc) w (read, get, q) =
      let (after, get', same) = store.annotated vrc read key name ns w get in
      subst (Stored api name ns Q) (sym (ended_world api (api.set_annotation vrc key w)))
        (after, get', subst Q (sym same) q)

  touch_vrcs-Stored :
      (vscr : ParentCr) (scs : List String) (key : String) (w : W)
      → Stored api name ns Q w
      → Stored api name ns Q (touch_vrcs_for_storage_classes api vscr scs key w).0
  unfolding touch_vrcs_for_storage_classes touch_rest
  touch_vrcs-Stored vscr [] key w s = s
  touch_vrcs-Stored vscr (sc ∷ scs) key w s =
      on (touch_vrcs-Stored vscr scs key)
        (touch_found api key (api.get_vrc (touched_name vscr sc) (pvc_namespace vscr) w) w)
        (touch_found-Stored key (api.get_vrc (touched_name vscr sc) (pvc_namespace vscr) w) w s)
    where
      on :
          ((v : W)
            → Stored api name ns Q v
            → Stored api name ns Q (touch_vrcs_for_storage_classes api vscr scs key v).0)
          → (r : W × Result (ObjectError E) (Unit {0})) → Stored api name ns Q r.0
          → Stored api name ns Q
              (touch_rest api (touch_vrcs_for_storage_classes api vscr scs key) r).0
      on more (v, ok _) s = more v s
      on more (v, err e) s = s

  abbrev secondaries : ParentCr → List String
  secondaries vscr =
      keep_if (λ sc. not (str_eq sc vscr.primary_storage_class))
        (all_storage_classes vscr.protection_topology)

  -- A success leaves such a VRC.
  abbrev Ends : W × Result (ObjectError E) (Unit {0}) → Type 0
  Ends r = (w' : W) → r ≡ (w', ok tt) → Stored api name ns Q w'

  tell_secondaries-Ends :
      (vscr : ParentCr) (sc : String) (changed : Bool) (r : W × Result (ObjectError E) (Unit {0}))
      → Ends r
      → Ends (tell_secondaries api name ns vscr sc changed r)
  unfolding tell_secondaries touch_secondary_vrcs
  tell_secondaries-Ends vscr sc changed (w, err e) ends w' h = absurd cc
  tell_secondaries-Ends vscr sc changed (w, ok _) ends w' h =
      elim (Bool-cases (changed && str_eq sc vscr.primary_storage_class)) [
        | inl e ↦
            let told = rw e at h in
            let classes = secondaries vscr in
            let kept =
              touch_vrcs-Stored vscr classes "vastdata.com/mirror-sync-requested-at" w
                (ends w refl) in
            subst (Stored api name ns Q) (ap (λ r. r.0) told) kept
        | inr e ↦ let told = rw e at h in ends w' told
      ]

module _ {W Rest E : Type 0} (api : ObjectApi W Rest E) (store : IsStore api) (name ns : String)
    (vgr : Object) where
  update_for_vgr-Ends :
      (vscr : ParentCr) (sc_name : String) (existing : Vrc) (w : W)
      → api.get_vrc name ns w ≡ ok existing
      → Ends api store name ns
          (Follows vgr)
          (update_for_vgr api name ns vgr vscr sc_name existing w)
  unfolding update_for_vgr
  update_for_vgr-Ends vscr sc_name existing w get =
      tell_secondaries-Ends api store name ns (Follows vgr) vscr sc_name
        (sync_for_vgr existing vgr).1
        (if (sync_for_vgr existing vgr).2
          then ended api (patch_vrc_spec api (sync_for_vgr existing vgr).0 w)
          else (w, ok tt))
        (elim (Bool-cases (sync_for_vgr existing vgr).2) [
          | inl e ↦ rw e patch
          | inr e ↦ rw e (keep e)
        ])
    where
      synced : Follows vgr (sync_for_vgr existing vgr).0.spec
      synced = sync_for_vgr-Follows existing vgr

      own : (existing.name ≡ name) × (existing.namespace ≡ ns)
      own = store.named name ns w existing get

      patch :
          Ends api store name ns
            (Follows vgr)
            (ended api (patch_vrc_spec api (sync_for_vgr existing vgr).0 w))
      patch w' h =
          let done = ended_ok api (patch_vrc_spec api (sync_for_vgr existing vgr).0 w) w' h in
          let (read, got) = patch_vrc_spec-ok api store (sync_for_vgr existing vgr).0 w w' done in
          let (same, same_ns) = sync_for_vgr_name existing vgr in
          (
            with_desired api (sync_for_vgr existing vgr).0 read,
            at_name api (same ∙ own.0) (same_ns ∙ own.1) w' got,
            synced,
          )

      keep : (sync_for_vgr existing vgr).2 ≡ false → Ends api store name ns (Follows vgr) (w, ok tt)
      keep e w' h =
          let as_it_was = sync_for_vgr_same existing vgr e in
          let old : Follows vgr existing.spec = subst (λ v. Follows vgr v.spec) as_it_was synced in
          subst (Stored api name ns (Follows vgr)) (ap (λ r. r.0) h) (existing, get, old)

  create_owned-Ends :
      (vrc : Vrc) (w : W) (r : Result E Vrc)
      → api.set_owner vgr vrc ≡ r
      → vrc.name ≡ name
      → vrc.namespace ≡ ns
      → Follows vgr vrc.spec
      → Ends api store name ns (Follows vgr) (create_owned api r w)
  unfolding create_owned
  create_owned-Ends vrc w (err e) same n m f w' h = absurd cc
  create_owned-Ends vrc w (ok vrc') same n m f w' h =
      let done = ended_ok api (api.create_vrc vrc' w) w' h in
      let (spec, n', m') = store.owned vgr vrc vrc' same in
      (
        vrc',
        at_name api (n' ∙ n) (m' ∙ m) w' (store.created vrc' w w' done),
        subst (Follows vgr) (sym spec) f,
      )

  create_with-Ends :
      (vscr : ParentCr) (sc : StorageClass) (sc_name : String)
      (r : Result (ObjectError E) SourcePath) (w : W)
      → Ends api store name ns (Follows vgr) (
          create_with api volume_group_replication vscr.sync_pvcpv vgr vscr sc sc_name name ns
            (sort_strings vgr.pvc_refs)
            (vscr_labels vscr)
            r
            w)
  unfolding create_with new_vrc
  create_with-Ends vscr sc sc_name (err e) w w' h = absurd cc
  create_with-Ends vscr sc sc_name (ok path) w w' h =
      with_policies
        (protection_policy_names_for_vrc vscr.name vscr.primary_storage_class
          vscr.protection_topology sc_name)
        h
    where
      new : List String → Vrc
      new policies =
          new_vrc volume_group_replication vscr.sync_pvcpv vgr vscr sc sc_name name ns
            (sort_strings vgr.pvc_refs) (vscr_labels vscr) path policies

      with_policies :
          (p : Result (ObjectError E) (List String))
          → (elim p as (λ _. W × Result (ObjectError E) (Unit {0})) [
            | err e ↦ (w, err e)
            | ok policies ↦ create_owned api (api.set_owner vgr (new policies)) w
          ])
            ≡ (w', ok tt)
          → Stored api name ns (Follows vgr) w'
      with_policies (err e) h = absurd cc
      with_policies (ok policies) h =
          create_owned-Ends (new policies) w (api.set_owner vgr (new policies)) refl refl refl
            (new_vrc-Follows volume_group_replication vscr.sync_pvcpv vgr vscr sc sc_name name ns
              (vscr_labels vscr) path policies)
            w' h

  ensure_for_vgr-Ends :
      (vscr : ParentCr) (sc_name : String) (sc : StorageClass) (r : Result E Vrc) (w : W)
      → api.get_vrc name ns w ≡ r
      → Ends api store name ns (Follows vgr) (ensure_for_vgr api name ns vgr vscr sc_name sc r w)
  unfolding ensure_for_vgr create_for_vgr absent_or_failed
  ensure_for_vgr-Ends vscr sc_name sc (err e) w get w' h = elim (Bool-cases (api.is_not_found e)) [
    | inl f ↦
        let there = rw f at h in
        create_with-Ends vscr sc sc_name (resolve_source_ppath api sc vscr.ppath_name) w w' there
    | inr f ↦ absurd (ground arith)
  ]
  ensure_for_vgr-Ends vscr sc_name sc (ok existing) w get w' h =
      elim (Bool-cases existing.deleting) [
        | inl f ↦ absurd (ground arith)
        | inr f ↦
            let there =
              subst
                (λ b.
                  (if b
                    then (w, err vrc_terminating)
                    else update_for_vgr api name ns vgr vscr sc_name existing w)
                  ≡ (w', ok tt))
                f h in
            update_for_vgr-Ends vscr sc_name existing w get w' there
      ]

-- Where the API server keeps what it is given, a reconcile of a group that is not being deleted and that
-- succeeds leaves a VRC under the name of the group, with the PVCs of the group in order and with its
-- state where that is known. The VRC may be new, patched, or one that needed nothing, and the
-- secondaries may have been told.
pub reconcile_vgr-Follows :
    {W Rest E : Type 0}
    → (api : ObjectApi W Rest E) (name ns : String) (vgr : Object) (w w' : W) → IsStore api
    → api.get_object name ns ≡ ok vgr
    → vgr.deleting ≡ false
    → reconcile_vgr api name ns w ≡ (w', ok tt)
    → (vrc : Vrc) × (api.get_vrc name ns w' ≡ ok vrc) × Follows vgr vrc.spec
unfolding reconcile_vgr reconcile_found_vgr reconcile_live_vgr
reconcile_vgr-Follows {W} {Rest} {E} api name ns vgr w w' store get live h =
    let found = subst (λ r. reconcile_found_vgr api name ns r w ≡ (w', ok tt)) get h in
    let alive =
      subst
        (λ b.
          (if b
            then delete_its_vrc api (api.get_vrc name ns w) w
            else reconcile_live_vgr api name ns vgr (read_for_vgr api name ns vgr) w)
          ≡ (w', ok tt))
        live found in
    at (read_for_vgr api name ns vgr) alive
  where
    at :
        (r : Result (ObjectError E) (ParentCr × String × StorageClass))
        → reconcile_live_vgr api name ns vgr r w ≡ (w', ok tt)
        → Stored api name ns (Follows vgr) w'
    at (err e) h = absurd cc
    at (ok (vscr, sc_name, sc)) h =
        ensure_for_vgr-Ends api store name ns vgr vscr sc_name sc (api.get_vrc name ns w) w refl w'
          h
