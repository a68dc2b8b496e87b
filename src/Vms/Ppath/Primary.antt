-- ===== src/Vms/Ppath/Primary.antt =====
-- `EnsurePpath` of ppath.go.
use vast_csi.Prelude.{ℕ, String, Bool, List, [], ◌∷◌, Result, ok, err, str_eq, if◌then◌else◌}
use vast_csi.Prelude.Effects.{Io, ◌>>=◌, ◌>>◌, done, fail}
use vast_csi.Vms.Policies.{ReplicationLink}
use vast_csi.Vms.Ppath.{
  Stream, Ppath, PpathApi, PpathError, same_cluster, no_streams, call_failed, path_failed,
}
use vast_csi.Vms.Ppath.Streams.{get_ppath_record, wait_for_stream_state, recover}

module _ {W Rest E : Type 0} (api : PpathApi W Rest E) where
  abbrev pub pause : ℕ → Io W (PpathError E) (Unit {0})
  pause seconds w = (api.clock.sleep seconds w, ok tt)

  -- The request of the creation.
  unfoldable pub create_path :
      Rest
      → Rest
      → String
      → String
      → String
      → ReplicationLink
      → Bool
      → Io W (PpathError E) (Unit {0})
  create_path rest remote_rest owner_name source_dir target_dir first allow_cleanup w =
      recover api remote_rest target_dir first.remote_tenant.id allow_cleanup (
        api.create_ppath rest
          (record {
            name = owner_name;
            source_dir = source_dir;
            target_exported_dir = target_dir;
            tenant_id = first.local_tenant.id;
            remote_tenant_guid = first.remote_tenant.guid;
            protection_policy_id = first.policy_id;
          })
          w)

  -- The creation, where there is no path yet.
  unfoldable pub create_first :
      Rest
      → Rest
      → String
      → String
      → String
      → ReplicationLink
      → Bool
      → Io W (PpathError E) (Unit {0})
  create_first rest remote_rest owner_name source_dir target_dir first allow_cleanup =
      if str_eq first.local_tenant.guid first.remote_tenant.guid
      then fail same_cluster
      else create_path rest remote_rest owner_name source_dir target_dir first allow_cleanup
        >> pause 20

  -- What follows the first query.
  unfoldable pub create_missing :
      Io W (PpathError E) (Unit {0}) → W × Result E Ppath → W × Result (PpathError E) (Unit {0})
  create_missing create (w, ok _) = (w, ok tt)
  create_missing create (w, err e) =
      if api.is_not_found e then create w else (w, err (call_failed e))

  unfoldable pub create_if_missing :
      Rest
      → Rest
      → String
      → String
      → String
      → ReplicationLink
      → Bool
      → Io W (PpathError E) (Unit {0})
  create_if_missing rest remote_rest owner_name source_dir target_dir first allow_cleanup w =
      create_missing
        (create_first rest remote_rest owner_name source_dir target_dir first allow_cleanup)
        (api.get_ppath rest owner_name w)

  -- Waiting for the embedded stream.
  unfoldable pub await_first : Rest → String → List Stream → Io W (PpathError E) (Unit {0})
  await_first rest ppath_name [] = fail no_streams
  await_first rest ppath_name (s ∷ _) =
      wait_for_stream_state api rest ppath_name s.name ("Active" ∷ []) 300 15

  unfoldable pub await_ppath : Rest → Ppath → Io W (PpathError E) (String × ℕ)
  await_ppath rest obj =
      if str_eq obj.failure_reason ""
      then await_first rest obj.name obj.streams >> done (obj.name, obj.id)
      else fail path_failed

  unfoldable pub ensure_ppath :
      Rest
      → Rest
      → String
      → String
      → String
      → ReplicationLink
      → Bool
      → Io W (PpathError E) (String × ℕ)
  ensure_ppath rest remote_rest owner_name source_dir target_dir first allow_cleanup =
      create_if_missing rest remote_rest owner_name source_dir target_dir first allow_cleanup
      >> (get_ppath_record api rest owner_name >>= await_ppath rest)
