-- ===== src/Vms/Ppath/Streams.antt =====
-- The functions of ppath.go below `EnsurePpath`. A closure's variable is part of the world that it is
-- polled in. Times are in seconds.
use vast_csi.Prelude.{
  ℕ, String, Bool, true, false, not, Option, none, some, List, [], Result, ok, err, has,
  if◌then◌else◌, ◌>>◌ as ◌>>>◌,
}
use vast_csi.Prelude.Effects.{Io, wrap}
use vast_csi.Spec.Templates.{is_positive}
use vast_csi.Vms.Wait.{WaitError, Clock, wait_resource}
use vast_csi.Vms.Policies.{ReplicationLink}
use vast_csi.Vms.Ppath.{
  Stream, Ppath, FolderStat, PpathApi, PpathError, call_failed, stream_failed, cleanup_not_allowed,
  not_directory, not_empty, path_now_absent, path_removed, wait_error, equal_fold,
  check_ppath_state, stream_state,
}

-- What the closure of `waitForStreamState` makes of a path.
unfoldable pub stream_ready :
    {E : Type 0} → String → List String → Ppath → Result (PpathError E) Bool
stream_ready stream_name expected p =
    check_ppath_state p.state p.failure_reason >>> elim (stream_state stream_name p.streams) [
      | none ↦ ok false
      | some state ↦
          if has state expected
          then ok true
          else if equal_fold state "Failed"
          then err stream_failed
          else ok false
    ]

-- The world of a closure that writes to a variable.
abbrev pub lift_clock : {W V : Type 0} → Clock W → Clock (W × V)
lift_clock clock = record { now = λ w. clock.now w.0; sleep = λ d w. (clock.sleep d w.0, w.1) }

module _ {W Rest E : Type 0} (api : PpathApi W Rest E) where
  unfoldable pub stream_answer :
      String → List String → W × Result E Ppath → W × Result (PpathError E) Bool
  stream_answer stream_name expected (w, ok p) = (w, stream_ready stream_name expected p)
  stream_answer stream_name expected (w, err e) =
      (w, (if api.is_not_found e then ok false else err (call_failed e)))

  unfoldable pub wait_for_stream_state :
      Rest → String → String → List String → ℕ → ℕ → Io W (PpathError E) (Unit {0})
  wait_for_stream_state rest ppath_name stream_name expected timeout sleep = wrap wait_error (
      wait_resource api.clock
        (λ w. stream_answer stream_name expected (api.get_ppath rest ppath_name w)) timeout sleep)

  unfoldable pub get_ppath_record : Rest → String → Io W (PpathError E) Ppath
  get_ppath_record rest ppath_name = wrap call_failed (api.get_ppath rest ppath_name)

  -- The closure of `waitForPpath`, which keeps the path that it has found.
  unfoldable pub ppath_answer :
      Option Ppath → W × Result E Ppath → (W × Option Ppath) × Result (PpathError E) Bool
  ppath_answer found (w, ok p) = ((w, some p), ok true)
  ppath_answer found (w, err e) =
      ((w, found), (if api.has_status_not_found e then ok false else err (call_failed e)))

  unfoldable pub found_ppath :
      (W × Option Ppath) × Result (WaitError (PpathError E)) (Unit {0})
      → W × Result (PpathError E) (ℕ × List Stream)
  found_ppath ((w, found), err e) = (w, err (wait_error e))
  found_ppath ((w, none), ok _) = (w, ok (0, []))
  found_ppath ((w, some p), ok _) = (w, ok (p.id, p.streams))

  unfoldable pub wait_for_ppath : Rest → String → Io W (PpathError E) (ℕ × List Stream)
  wait_for_ppath rest ppath_name w = found_ppath (
      wait_resource (lift_clock api.clock)
        (λ (v, found). ppath_answer found (api.get_ppath rest ppath_name v)) 120 10 (w, none))

  -- The answer of `DeleteFolder`.
  unfoldable pub removal_answer : W × Result E (Unit {0}) → W × PpathError E
  removal_answer (w, ok _) = (w, path_removed)
  removal_answer (w, err e) = (w, call_failed e)

  -- What follows the answer of `StatPath`.
  unfoldable pub clean_up : Rest → String → ℕ → W × Result E (Option FolderStat) → W × PpathError E
  clean_up rest path tenant_id (w, err e) = (w, call_failed e)
  clean_up rest path tenant_id (w, ok none) = (w, path_now_absent)
  clean_up rest path tenant_id (w, ok (some stat)) =
      if not stat.is_directory
      then (w, not_directory)
      else if is_positive stat.children
      then (w, not_empty)
      else removal_answer (api.delete_folder rest path tenant_id w)

  -- It always returns an error.
  unfoldable pub handle_path_on_peer_exists : Rest → String → ℕ → Bool → W → W × PpathError E
  handle_path_on_peer_exists remote_rest target_path tenant_id allow_cleanup w =
      if allow_cleanup
      then clean_up remote_rest target_path tenant_id
          (api.stat_path remote_rest target_path tenant_id w)
      else (w, cleanup_not_allowed)

  abbrev pub raise : {A : Type 0} → W × PpathError E → W × Result (PpathError E) A
  raise (w, e) = (w, err e)

  -- What follows a call that may fail because the path is on the peer: the rest of
  -- `AddReplicationStream`, and of the creation in `EnsurePpath`.
  unfoldable pub recover :
      Rest → String → ℕ → Bool → W × Result E (Unit {0}) → W × Result (PpathError E) (Unit {0})
  recover remote_rest path tenant_id allow_cleanup (w, ok _) = (w, ok tt)
  recover remote_rest path tenant_id allow_cleanup (w, err e) =
      if api.is_path_on_peer_exists e
      then raise (handle_path_on_peer_exists remote_rest path tenant_id allow_cleanup w)
      else (w, err (call_failed e))

  unfoldable pub add_replication_stream :
      Rest
      → Rest
      → String
      → ℕ
      → String
      → ReplicationLink
      → Bool
      → Bool
      → Io W (PpathError E) (Unit {0})
  add_replication_stream rest remote_rest stream_name ppath_id target_dir pair is_standby
        allow_cleanup w =
      recover remote_rest target_dir pair.remote_tenant.id allow_cleanup (
        api.add_stream rest ppath_id
          (record {
            name = stream_name;
            target_exported_dir = target_dir;
            protection_policy_id = pair.policy_id;
            remote_tenant_guid = pair.remote_tenant.guid;
            is_standby = is_standby;
          })
          w)
