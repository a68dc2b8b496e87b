-- ===== src/Vms/Ppath/Constellation.antt =====
-- `EnsureConstellationPpath` of ppath.go. `client` is the map of REST clients, which is asked for the
-- StorageClasses of the mesh only; the maps that are iterated are lists.
use vast_csi.Prelude.{
  ℕ, String, ◌<>◌, Bool, true, false, List, [], ◌∷◌, str_eq, get_str, get_list, if◌then◌else◌,
}
use vast_csi.Prelude.Effects.{Io, ◌>>=◌, ◌>>◌, done, fail}
use vast_csi.Vms.Policies.{ReplicationLink}
use vast_csi.Vms.Ppath.{
  Stream, Ppath, PpathApi, PpathError, no_primary_links, truncate_name, has_stream,
}
use vast_csi.Vms.Ppath.Streams.{
  get_ppath_record, wait_for_stream_state, wait_for_ppath, add_replication_stream,
}
use vast_csi.Vms.Ppath.Primary.{ensure_ppath}

-- The name of a stream.
unfoldable pub stream_name_of : String → ReplicationLink → String
stream_name_of owner_name pair =
    truncate_name (owner_name <> "-" <> pair.local_peer_name <> "-" <> pair.remote_peer_name)

module _ {W Rest E : Type 0} (api : PpathApi W Rest E) (client : String → Rest)
    (dirs : List (String × String)) (primary_sc : String) (allow_cleanup : Bool) where
  -- One addition, where the stream is missing.
  unfoldable pub add_missing :
      String → ℕ → List Stream → String → ReplicationLink → Bool → Io W (PpathError E) (Unit {0})
  add_missing sc ppath_id streams stream_name pair is_standby =
      if has_stream stream_name streams
      then done tt
      else add_replication_stream api (client sc) (client pair.edge.side_b) stream_name ppath_id
          (get_str pair.edge.side_b dirs) pair is_standby allow_cleanup

  unfoldable pub add_cross_to :
      String → String → ReplicationLink → ℕ × List Stream → Io W (PpathError E) (Unit {0})
  add_cross_to ppath_name sc cross (id, streams) =
      add_missing sc id streams (stream_name_of ppath_name cross) cross true

  -- The body of the loop over `crossPairs`.
  unfoldable pub add_cross :
      String → String → String → ReplicationLink → Io W (PpathError E) (Unit {0})
  add_cross ppath_name target_sc sc cross =
      if str_eq cross.edge.side_b target_sc
      then (wait_for_ppath api (client sc) ppath_name >>= add_cross_to ppath_name sc cross)
      else done tt

  unfoldable pub add_crosses :
      String → String → String → List ReplicationLink → Io W (PpathError E) (Unit {0})
  add_crosses ppath_name target_sc sc [] = done tt
  add_crosses ppath_name target_sc sc (cross ∷ more) =
      add_cross ppath_name target_sc sc cross >> add_crosses ppath_name target_sc sc more

  unfoldable pub add_crosses_of :
      String → String → String → List ReplicationLink → Io W (PpathError E) (Unit {0})
  add_crosses_of ppath_name target_sc sc crosses =
      if str_eq sc primary_sc then done tt else add_crosses ppath_name target_sc sc crosses

  -- The loop over `pairs`.
  unfoldable pub add_standbys :
      String → String → List (String × List ReplicationLink) → Io W (PpathError E) (Unit {0})
  add_standbys ppath_name target_sc [] = done tt
  add_standbys ppath_name target_sc ((sc, crosses) ∷ more) =
      add_crosses_of ppath_name target_sc sc crosses >> add_standbys ppath_name target_sc more

  -- The body of the loop over the other targets of the primary, with the path as it was found.
  unfoldable pub add_target_to :
      List (String × List ReplicationLink)
      → String
      → String
      → ℕ
      → ReplicationLink
      → Ppath
      → Io W (PpathError E) (Unit {0})
  add_target_to pairs owner_name ppath_name ppath_id pair p =
      let name = stream_name_of owner_name pair in
      add_missing primary_sc ppath_id p.streams name pair false
      >> (wait_for_stream_state api (client primary_sc) ppath_name name
            ("Waiting for a standby stream" ∷ "Active" ∷ []) 300 10
          >> (add_standbys ppath_name pair.edge.side_b pairs
              >> wait_for_stream_state api (client primary_sc) ppath_name name ("Active" ∷ []) 600
                  10))

  unfoldable pub add_target :
      List (String × List ReplicationLink)
      → String
      → String
      → ℕ
      → ReplicationLink
      → Io W (PpathError E) (Unit {0})
  add_target pairs owner_name ppath_name ppath_id pair =
      get_ppath_record api (client primary_sc) ppath_name
      >>= add_target_to pairs owner_name ppath_name ppath_id pair

  unfoldable pub add_targets :
      List (String × List ReplicationLink)
      → String
      → String
      → ℕ
      → List ReplicationLink
      → Io W (PpathError E) (Unit {0})
  add_targets pairs owner_name ppath_name ppath_id [] = done tt
  add_targets pairs owner_name ppath_name ppath_id (pair ∷ more) =
      add_target pairs owner_name ppath_name ppath_id pair
      >> add_targets pairs owner_name ppath_name ppath_id more

  unfoldable pub await_mirror : String → String → Io W (PpathError E) (Unit {0})
  await_mirror ppath_name sc =
      if str_eq sc primary_sc
      then done tt
      else (wait_for_ppath api (client sc) ppath_name >>= λ _. done tt)

  -- The last loop.
  unfoldable pub await_mirrors : String → List String → Io W (PpathError E) (Unit {0})
  await_mirrors ppath_name [] = done tt
  await_mirrors ppath_name (sc ∷ more) = await_mirror ppath_name sc >> await_mirrors ppath_name more

  -- What follows `EnsurePpath`, whose answer is the name and the id of the path.
  unfoldable pub extend :
      List (String × List ReplicationLink)
      → List String
      → String
      → List ReplicationLink
      → String × ℕ
      → Io W (PpathError E) String
  extend pairs classes owner_name more (ppath_name, ppath_id) =
      add_targets pairs owner_name ppath_name ppath_id more
      >> (await_mirrors ppath_name classes >> done ppath_name)

  unfoldable pub ensure_from :
      List (String × List ReplicationLink)
      → List String
      → String
      → List ReplicationLink
      → Io W (PpathError E) String
  ensure_from pairs classes owner_name [] = fail no_primary_links
  ensure_from pairs classes owner_name (first ∷ more) =
      ensure_ppath api (client primary_sc) (client first.edge.side_b) owner_name
        (get_str primary_sc dirs) (get_str first.edge.side_b dirs) first allow_cleanup
      >>= extend pairs classes owner_name more

  unfoldable pub ensure_constellation_ppath :
      List (String × List ReplicationLink) → List String → String → Io W (PpathError E) String
  ensure_constellation_ppath pairs classes owner_name =
      ensure_from pairs classes owner_name (get_list primary_sc pairs)
