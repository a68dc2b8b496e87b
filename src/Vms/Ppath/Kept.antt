-- ===== src/Vms/Ppath/Kept.antt =====
-- Conditions that the calls of ppath.go keep.
use vast_csi.Prelude.{
  ℕ, String, Bool, true, false, not, ◌≡◌, refl, subst, Option, none, some, List, Result, ok, err,
  Bool-cases, inl, inr,
}
use vast_csi.Prelude.Triples.{Outcome, Triple, Keeps, Outcome-wrap_result, Outcome-kept}
use vast_csi.Spec.Templates.{is_positive}
use vast_csi.Vms.Wait.{WaitError}
use vast_csi.Vms.Wait.Kept.{Checked, wait_resource-Triple}
use vast_csi.Vms.Policies.{ReplicationLink}
use vast_csi.Vms.Ppath.{
  Ppath, FolderStat, CreateRequest, StreamRequest, PpathApi, PpathError, call_failed, wait_error,
}
use vast_csi.Vms.Ppath.Streams.{
  stream_ready, lift_clock, stream_answer, wait_for_stream_state, get_ppath_record, ppath_answer,
  found_ppath, wait_for_ppath, removal_answer, clean_up, handle_path_on_peer_exists, recover,
  add_replication_stream,
}

-- A condition that every call keeps, apart from the addition of a standby stream.
pub record IsQuiet {W Rest E : Type 0} (api : PpathApi W Rest E) (P : W → Type 0) : Type 0 where
  pub get : (rest : Rest) (name : String) (w : W) → P w → P (api.get_ppath rest name w).0
  pub create : (rest : Rest) (r : CreateRequest) (w : W) → P w → P (api.create_ppath rest r w).0
  pub add :
      (rest : Rest) (id : ℕ) (r : StreamRequest) (w : W)
      → r.is_standby ≡ false
      → P w
      → P (api.add_stream rest id r w).0
  pub stat : (rest : Rest) (path : String) (t : ℕ) (w : W) → P w → P (api.stat_path rest path t w).0
  pub delete :
      (rest : Rest) (path : String) (t : ℕ) (w : W) → P w → P (api.delete_folder rest path t w).0
  pub sleep : (d : ℕ) (w : W) → P w → P (api.clock.sleep d w)

module _ {W Rest E : Type 0} (api : PpathApi W Rest E) (P : W → Type 0)
    (quiet : IsQuiet api P) where
  removal_answer-kept : (r : W × Result E (Unit {0})) → P r.0 → P (removal_answer api r).0
  unfolding removal_answer
  removal_answer-kept (w, ok _) p = p
  removal_answer-kept (w, err e) p = p

  clean_up-kept :
      (rest : Rest) (path : String) (t : ℕ) (r : W × Result E (Option FolderStat))
      → P r.0
      → P (clean_up api rest path t r).0
  unfolding clean_up
  clean_up-kept rest path t (w, err e) p = p
  clean_up-kept rest path t (w, ok none) p = p
  clean_up-kept rest path t (w, ok (some stat)) p = elim (Bool-cases (not stat.is_directory)) [
    | inl e ↦ rw e p
    | inr e ↦ elim (Bool-cases (is_positive stat.children)) [
      | inl f ↦ rw (e, f) p
      | inr f ↦
          rw (e, f)
            (removal_answer-kept (api.delete_folder rest path t w) (quiet.delete rest path t w p))
    ]
  ]

  handle_path-kept :
      (rest : Rest) (path : String) (t : ℕ) (allow_cleanup : Bool) (w : W)
      → P w
      → P (handle_path_on_peer_exists api rest path t allow_cleanup w).0
  unfolding handle_path_on_peer_exists
  handle_path-kept rest path t true w p =
      clean_up-kept rest path t (api.stat_path rest path t w) (quiet.stat rest path t w p)
  handle_path-kept rest path t false w p = p

  pub recover-kept :
      (rest : Rest) (path : String) (t : ℕ) (allow_cleanup : Bool) (r : W × Result E (Unit {0}))
      → P r.0
      → Outcome (λ _. P) P (recover api rest path t allow_cleanup r)
  unfolding recover
  recover-kept rest path t allow_cleanup (w, ok _) p = p
  recover-kept rest path t allow_cleanup (w, err e) p =
      elim (Bool-cases (api.is_path_on_peer_exists e)) [
        | inl x ↦ rw x (handle_path-kept rest path t allow_cleanup w p)
        | inr x ↦ rw x p
      ]

  pub get_ppath_record-Keeps :
      (rest : Rest) (name : String) → Keeps P (get_ppath_record api rest name)
  unfolding get_ppath_record
  get_ppath_record-Keeps rest name w p =
      Outcome-wrap_result (λ _. P) P call_failed (api.get_ppath rest name w)
        (Outcome-kept P (api.get_ppath rest name w) (quiet.get rest name w p))

  -- Waiting for a stream, where a call that finds it in one of the states leaves `Q`.
  module _ (Q : W → Type 0) (rest : Rest) (ppath_name stream_name : String) (expected : List String)
      (observes : (w w' : W) (p : Ppath)
        → P w
        → api.get_ppath rest ppath_name w ≡ (w', ok p)
        → stream_ready {E = E} stream_name expected p ≡ ok true
        → Q w') where
    stream_answer-Checked :
        (w : W) (r : W × Result E Ppath)
        → api.get_ppath rest ppath_name w ≡ r
        → P w
        → P r.0
        → Outcome (Checked P Q) P (stream_answer api stream_name expected r)
    unfolding stream_answer
    stream_answer-Checked w (w', ok p) e before after =
        go (stream_ready stream_name expected p) refl
      where
        go :
            (s : Result (PpathError E) Bool)
            → stream_ready stream_name expected p ≡ s
            → Outcome (Checked P Q) P (w', s)
        go (err x) same = after
        go (ok false) same = after
        go (ok true) same = observes w w' p before e same
    stream_answer-Checked w (w', err x) e before after = elim (Bool-cases (api.is_not_found x)) [
      | inl f ↦ rw f after
      | inr f ↦ rw f after
    ]

    pub wait_for_stream_state-Triple :
        (timeout sleep : ℕ)
        → Triple P
            (wait_for_stream_state api rest ppath_name stream_name expected timeout sleep)
            (λ _. Q)
            P
    unfolding wait_for_stream_state
    wait_for_stream_state-Triple timeout sleep w p =
        Outcome-wrap_result (λ _. Q) P wait_error _
          (wait_resource-Triple P Q api.clock quiet.sleep
            (λ v. stream_answer api stream_name expected (api.get_ppath rest ppath_name v))
            (λ v before.
              stream_answer-Checked v (api.get_ppath rest ppath_name v) refl before
                (quiet.get rest ppath_name v before))
            timeout sleep w p)

  pub wait_for_stream_state-Keeps :
      (rest : Rest) (ppath_name stream_name : String) (expected : List String) (timeout sleep : ℕ)
      → Keeps P (wait_for_stream_state api rest ppath_name stream_name expected timeout sleep)
  wait_for_stream_state-Keeps rest ppath_name stream_name expected timeout sleep =
      wait_for_stream_state-Triple P rest ppath_name stream_name expected
        (λ w w' p before e _. subst (λ r. P r.0) e (quiet.get rest ppath_name w before)) timeout
        sleep

  ppath_answer-Checked :
      (found : Option Ppath) (r : W × Result E Ppath)
      → P r.0
      → Outcome (Checked (λ v. P v.0) (λ v. P v.0)) (λ v. P v.0) (ppath_answer api found r)
  unfolding ppath_answer
  ppath_answer-Checked found (w, ok p) after = after
  ppath_answer-Checked found (w, err x) after = elim (Bool-cases (api.has_status_not_found x)) [
    | inl f ↦ rw f after
    | inr f ↦ rw f after
  ]

  found_ppath-kept :
      (r : (W × Option Ppath) × Result (WaitError (PpathError E)) (Unit {0}))
      → Outcome (λ _ v. P v.0) (λ v. P v.0) r
      → Outcome (λ _. P) P (found_ppath api r)
  unfolding found_ppath
  found_ppath-kept ((w, found), err e) p = p
  found_ppath-kept ((w, none), ok _) p = p
  found_ppath-kept ((w, some x), ok _) p = p

  pub wait_for_ppath-Keeps :
      (rest : Rest) (ppath_name : String) → Keeps P (wait_for_ppath api rest ppath_name)
  unfolding wait_for_ppath
  wait_for_ppath-Keeps rest ppath_name w p = found_ppath-kept _ (
      wait_resource-Triple (λ v. P v.0) (λ v. P v.0) (lift_clock api.clock)
        (λ d v. quiet.sleep d v.0)
        (λ (v, found). ppath_answer api found (api.get_ppath rest ppath_name v))
        (λ (v, found) before.
          ppath_answer-Checked found (api.get_ppath rest ppath_name v)
            (quiet.get rest ppath_name v before))
        120 10 (w, none) p)

  pub add_plain-Keeps :
      (rest remote_rest : Rest) (name : String) (id : ℕ) (dir : String) (pair : ReplicationLink)
      (allow_cleanup : Bool)
      → Keeps P (add_replication_stream api rest remote_rest name id dir pair false allow_cleanup)
  unfolding add_replication_stream
  add_plain-Keeps rest remote_rest name id dir pair allow_cleanup w p =
      recover-kept remote_rest dir pair.remote_tenant.id allow_cleanup _
        (quiet.add rest id _ w refl p)
