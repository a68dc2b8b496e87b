-- ===== src/Vms/Ppath/Order.antt =====
-- The order in which `EnsureConstellationPpath` adds streams.
use vast_csi.Prelude.{
  ℕ, String, Bool, true, false, ◌≡◌, subst, List, [], ◌∷◌, Result, ok, err, str_eq, str_eq_iff,
  Bool-cases, inl, inr, get_str, get_list,
}
use vast_csi.Prelude.Effects.{◌>>◌, done}
use vast_csi.Prelude.Triples.{Outcome, Keeps, Triple->>=, Keeps->>=, Keeps->>, Outcome-weaken}
use vast_csi.Vms.Policies.{ReplicationLink}
use vast_csi.Vms.Ppath.{Stream, Ppath, StreamRequest, PpathApi, PpathError, has_stream}
use vast_csi.Vms.Ppath.Streams.{
  stream_ready, get_ppath_record, wait_for_stream_state, wait_for_ppath, add_replication_stream,
}
use vast_csi.Vms.Ppath.Primary.{ensure_ppath}
use vast_csi.Vms.Ppath.Constellation.{
  stream_name_of, add_missing, add_cross_to, add_cross, add_crosses, add_crosses_of, add_standbys,
  add_target_to, add_target, add_targets, await_mirrors, extend, ensure_from,
  ensure_constellation_ppath,
}
use vast_csi.Vms.Ppath.Kept.{
  IsQuiet, recover-kept, get_ppath_record-Keeps, wait_for_stream_state-Triple,
  wait_for_stream_state-Keeps, wait_for_ppath-Keeps,
}
use vast_csi.Vms.Ppath.Laws.{ensure_ppath-Keeps, await_mirrors-Keeps, add_missing-Keeps}

abbrev pub waiting_or_active : List String
waiting_or_active = "Waiting for a standby stream" ∷ "Active" ∷ []

-- The request for a standby stream of the link.
abbrev pub standby_request : String → String → ReplicationLink → StreamRequest
standby_request name dir cross = record {
  name = name;
  target_exported_dir = dir;
  protection_policy_id = cross.policy_id;
  remote_tenant_guid = cross.remote_tenant.guid;
  is_standby = true;
}

-- A condition on the services that only the addition of a standby stream can break, and it does not
-- where the primary's stream to the same StorageClass has been seen in one of the two states. `Seen`
-- says that it has, and stays.
pub record StandbysFollow {W Rest E : Type 0} (api : PpathApi W Rest E) (client : String → Rest)
    (primary_sc : String) (Good : W → Type 0) (Seen : String → W → Type 0) : Type 0 where
  pub quiet : IsQuiet api Good
  pub quiet_seen : (target : String) → IsQuiet api (λ w. Good w × Seen target w)
  pub observes :
      (owner_name ppath_name : String) (pair : ReplicationLink) (w w' : W) (p : Ppath)
      → Good w
      → api.get_ppath (client primary_sc) ppath_name w ≡ (w', ok p)
      → stream_ready {E = E} (stream_name_of owner_name pair) waiting_or_active p ≡ ok true
      → Seen pair.edge.side_b w'
  pub standby :
      (sc name dir : String) (id : ℕ) (cross : ReplicationLink) (w : W)
      → Good w × Seen cross.edge.side_b w
      → Good (api.add_stream (client sc) id (standby_request name dir cross) w).0
        × Seen cross.edge.side_b
            (api.add_stream (client sc) id (standby_request name dir cross) w).0

module _ {W Rest E : Type 0} (api : PpathApi W Rest E) (client : String → Rest)
    (dirs : List (String × String)) (primary_sc : String) (allow_cleanup : Bool) (Good : W → Type 0)
    (Seen : String → W → Type 0) (follow : StandbysFollow api client primary_sc Good Seen) where
  abbrev Both : String → W → Type 0
  Both target w = Good w × Seen target w

  add_standby-Keeps :
      (sc name : String) (id : ℕ) (cross : ReplicationLink)
      → Keeps (Both cross.edge.side_b) (
          add_replication_stream api
            (client sc)
            (client cross.edge.side_b)
            name
            id
            (get_str cross.edge.side_b dirs)
            cross
            true
            allow_cleanup)
  unfolding add_replication_stream
  add_standby-Keeps sc name id cross w p =
      recover-kept api (Both cross.edge.side_b) (follow.quiet_seen cross.edge.side_b)
        (client cross.edge.side_b) (get_str cross.edge.side_b dirs) cross.remote_tenant.id
        allow_cleanup
        (api.add_stream (client sc) id (standby_request name (get_str cross.edge.side_b dirs) cross)
          w)
        (follow.standby sc name (get_str cross.edge.side_b dirs) id cross w p)

  add_cross_to-Keeps :
      (ppath_name sc : String) (cross : ReplicationLink) (found : ℕ × List Stream)
      → Keeps
          (Both cross.edge.side_b)
          (add_cross_to api client dirs primary_sc allow_cleanup ppath_name sc cross found)
  unfolding add_cross_to add_missing
  add_cross_to-Keeps ppath_name sc cross (id, streams) w p =
      elim (Bool-cases (has_stream (stream_name_of ppath_name cross) streams)) [
        | inl e ↦ rw e p
        | inr e ↦ rw e (add_standby-Keeps sc (stream_name_of ppath_name cross) id cross w p)
      ]

  add_cross-Keeps :
      (ppath_name target sc : String) (cross : ReplicationLink)
      → Keeps
          (Both target)
          (add_cross api client dirs primary_sc allow_cleanup ppath_name target sc cross)
  unfolding add_cross
  add_cross-Keeps ppath_name target sc cross w p =
      elim (Bool-cases (str_eq cross.edge.side_b target)) [
        | inl e ↦
            let same = (str_eq_iff cross.edge.side_b target).0 e in
            rw e (
              Keeps->>= (Both target) (wait_for_ppath api (client sc) ppath_name)
                (add_cross_to api client dirs primary_sc allow_cleanup ppath_name sc cross)
                (wait_for_ppath-Keeps api (Both target) (follow.quiet_seen target) (client sc)
                  ppath_name)
                (λ found.
                  subst
                    (λ t. Keeps (Both t) (
                      add_cross_to api client dirs primary_sc allow_cleanup ppath_name sc cross
                        found))
                    same (add_cross_to-Keeps ppath_name sc cross found))
                w p)
        | inr e ↦ rw e p
      ]

  add_crosses-Keeps :
      (ppath_name target sc : String) (crosses : List ReplicationLink)
      → Keeps
          (Both target)
          (add_crosses api client dirs primary_sc allow_cleanup ppath_name target sc crosses)
  unfolding add_crosses
  add_crosses-Keeps ppath_name target sc [] w p = p
  add_crosses-Keeps ppath_name target sc (cross ∷ more) w p =
      Keeps->> (Both target)
        (add_cross api client dirs primary_sc allow_cleanup ppath_name target sc cross)
        (add_crosses api client dirs primary_sc allow_cleanup ppath_name target sc more)
        (add_cross-Keeps ppath_name target sc cross) (add_crosses-Keeps ppath_name target sc more) w
        p

  add_crosses_of-Keeps :
      (ppath_name target sc : String) (crosses : List ReplicationLink)
      → Keeps
          (Both target)
          (add_crosses_of api client dirs primary_sc allow_cleanup ppath_name target sc crosses)
  unfolding add_crosses_of
  add_crosses_of-Keeps ppath_name target sc crosses w p = elim (Bool-cases (str_eq sc primary_sc)) [
    | inl e ↦ rw e p
    | inr e ↦ rw e (add_crosses-Keeps ppath_name target sc crosses w p)
  ]

  add_standbys-Keeps :
      (ppath_name target : String) (pairs : List (String × List ReplicationLink))
      → Keeps
          (Both target)
          (add_standbys api client dirs primary_sc allow_cleanup ppath_name target pairs)
  unfolding add_standbys
  add_standbys-Keeps ppath_name target [] w p = p
  add_standbys-Keeps ppath_name target ((sc, crosses) ∷ more) w p =
      Keeps->> (Both target)
        (add_crosses_of api client dirs primary_sc allow_cleanup ppath_name target sc crosses)
        (add_standbys api client dirs primary_sc allow_cleanup ppath_name target more)
        (add_crosses_of-Keeps ppath_name target sc crosses)
        (add_standbys-Keeps ppath_name target more) w p

  module _ (pairs : List (String × List ReplicationLink)) (owner_name ppath_name : String)
      (ppath_id : ℕ) where
    -- Once the primary's stream has been seen, the standby streams to its target are added.
    add_target_to-Keeps :
        (pair : ReplicationLink) (p : Ppath)
        → Keeps Good (
            add_target_to api client dirs primary_sc allow_cleanup pairs owner_name ppath_name
              ppath_id pair p)
    unfolding add_target_to
    add_target_to-Keeps pair p =
        let name = stream_name_of owner_name pair in
        let target = pair.edge.side_b in
        let wait = wait_for_stream_state api (client primary_sc) ppath_name name in
        let standbys =
          add_standbys api client dirs primary_sc allow_cleanup ppath_name target pairs in
        let last = wait ("Active" ∷ []) 600 10 in
        Keeps->> Good
          (add_missing api client dirs primary_sc allow_cleanup primary_sc ppath_id p.streams name
            pair false)
          (wait waiting_or_active 300 10 >> (standbys >> last))
          (add_missing-Keeps api Good follow.quiet client dirs primary_sc allow_cleanup primary_sc
            ppath_id p.streams name pair)
          (Triple->>= Good Good (λ _. Both target) (λ _. Good) (wait waiting_or_active 300 10)
            (λ _. standbys >> last)
            (wait_for_stream_state-Triple api Good follow.quiet (Both target) (client primary_sc)
              ppath_name name waiting_or_active
              (λ w w' x before e ready. (
                subst (λ r. Good r.0) e (follow.quiet.get (client primary_sc) ppath_name w before),
                follow.observes owner_name ppath_name pair w w' x before e ready,
              ))
              300 10)
            (λ _ w both.
              Outcome-weaken (Both target) Good ((standbys >> last) w) (λ v q. q.0)
                (Keeps->> (Both target) standbys last (add_standbys-Keeps ppath_name target pairs)
                  (wait_for_stream_state-Keeps api (Both target) (follow.quiet_seen target)
                    (client primary_sc) ppath_name name ("Active" ∷ []) 600 10)
                  w both)))

    add_targets-Keeps :
        (more : List ReplicationLink)
        → Keeps Good (
            add_targets api client dirs primary_sc allow_cleanup pairs owner_name ppath_name
              ppath_id more)
    unfolding add_targets add_target
    add_targets-Keeps [] w p = p
    add_targets-Keeps (pair ∷ more) w p =
        Keeps->> Good
          (add_target api client dirs primary_sc allow_cleanup pairs owner_name ppath_name ppath_id
            pair)
          (add_targets api client dirs primary_sc allow_cleanup pairs owner_name ppath_name ppath_id
            more)
          (Keeps->>= Good (get_ppath_record api (client primary_sc) ppath_name)
            (add_target_to api client dirs primary_sc allow_cleanup pairs owner_name ppath_name
              ppath_id pair)
            (get_ppath_record-Keeps api Good follow.quiet (client primary_sc) ppath_name)
            (add_target_to-Keeps pair))
          (add_targets-Keeps more) w p

  extend-Keeps :
      (pairs : List (String × List ReplicationLink)) (classes : List String) (owner_name : String)
      (more : List ReplicationLink) (found : String × ℕ)
      → Keeps Good
          (extend api client dirs primary_sc allow_cleanup pairs classes owner_name more found)
  unfolding extend
  extend-Keeps pairs classes owner_name more (ppath_name, ppath_id) =
      Keeps->> Good
        (add_targets api client dirs primary_sc allow_cleanup pairs owner_name ppath_name ppath_id
          more)
        (await_mirrors api client dirs primary_sc allow_cleanup ppath_name classes
          >> done ppath_name)
        (add_targets-Keeps pairs owner_name ppath_name ppath_id more)
        (Keeps->> Good (await_mirrors api client dirs primary_sc allow_cleanup ppath_name classes)
          (done ppath_name)
          (await_mirrors-Keeps api Good follow.quiet client dirs primary_sc allow_cleanup ppath_name
            classes)
          (λ w p. p))

  ensure_from-Keeps :
      (pairs : List (String × List ReplicationLink)) (classes : List String) (owner_name : String)
      (primary_pairs : List ReplicationLink)
      → Keeps Good (
          ensure_from api client dirs primary_sc allow_cleanup pairs classes owner_name
            primary_pairs)
  unfolding ensure_from
  ensure_from-Keeps pairs classes owner_name [] w p = p
  ensure_from-Keeps pairs classes owner_name (first ∷ more) w p =
      Keeps->>= Good
        (ensure_ppath api (client primary_sc) (client first.edge.side_b) owner_name
          (get_str primary_sc dirs) (get_str first.edge.side_b dirs) first allow_cleanup)
        (extend api client dirs primary_sc allow_cleanup pairs classes owner_name more)
        (ensure_ppath-Keeps api Good follow.quiet (client primary_sc) (client first.edge.side_b)
          owner_name (get_str primary_sc dirs) (get_str first.edge.side_b dirs) first allow_cleanup)
        (extend-Keeps pairs classes owner_name more) w p

  -- `EnsureConstellationPpath` keeps every condition that a standby stream can break only if it is added
  -- before the primary's stream to the same StorageClass has been seen waiting for a standby stream or
  -- active: whatever it finds and wherever it stops, it adds standby streams after that only.
  pub ensure_constellation_ppath-Keeps :
      (pairs : List (String × List ReplicationLink)) (classes : List String) (owner_name : String)
      (w : W)
      → Good w
      → Good
          (ensure_constellation_ppath api client dirs primary_sc allow_cleanup pairs classes
            owner_name w).0
  unfolding ensure_constellation_ppath
  ensure_constellation_ppath-Keeps pairs classes owner_name w p =
      world_of
        (ensure_from api client dirs primary_sc allow_cleanup pairs classes owner_name
          (get_list primary_sc pairs) w)
        (ensure_from-Keeps pairs classes owner_name (get_list primary_sc pairs) w p)
    where
      world_of : (r : W × Result (PpathError E) String) → Outcome (λ _. Good) Good r → Good r.0
      world_of (v, ok a) q = q
      world_of (v, err e) q = q
