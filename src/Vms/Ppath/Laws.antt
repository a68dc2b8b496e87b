-- ===== src/Vms/Ppath/Laws.antt =====
-- Conditions that `EnsurePpath` and the plain parts of `EnsureConstellationPpath` keep.
use vast_csi.Prelude.{
  ℕ, String, Bool, false, List, [], ◌∷◌, Result, ok, err, str_eq, Bool-cases, inl, inr, get_str,
}
use vast_csi.Prelude.Effects.{Io, ◌>>=◌, done}
use vast_csi.Prelude.Triples.{Outcome, Keeps, Keeps->>=, Keeps->>}
use vast_csi.Vms.Policies.{ReplicationLink}
use vast_csi.Vms.Ppath.{Stream, Ppath, PpathApi, PpathError, has_stream}
use vast_csi.Vms.Ppath.Streams.{get_ppath_record, wait_for_ppath}
use vast_csi.Vms.Ppath.Primary.{
  pause, create_path, create_first, create_missing, create_if_missing, await_first, await_ppath,
  ensure_ppath,
}
use vast_csi.Vms.Ppath.Constellation.{add_missing, await_mirror, await_mirrors}
use vast_csi.Vms.Ppath.Kept.{
  IsQuiet, recover-kept, get_ppath_record-Keeps, wait_for_stream_state-Keeps, wait_for_ppath-Keeps,
  add_plain-Keeps,
}

module _ {W Rest E : Type 0} (api : PpathApi W Rest E) (P : W → Type 0)
    (quiet : IsQuiet api P) where
  create_path-Keeps :
      (rest remote_rest : Rest) (owner_name source_dir target_dir : String)
      (first : ReplicationLink) (allow_cleanup : Bool)
      → Keeps P
          (create_path api rest remote_rest owner_name source_dir target_dir first allow_cleanup)
  unfolding create_path
  create_path-Keeps rest remote_rest owner_name source_dir target_dir first allow_cleanup w p =
      recover-kept api P quiet remote_rest target_dir first.remote_tenant.id allow_cleanup
        (api.create_ppath rest
          (record {
            name = owner_name;
            source_dir = source_dir;
            target_exported_dir = target_dir;
            tenant_id = first.local_tenant.id;
            remote_tenant_guid = first.remote_tenant.guid;
            protection_policy_id = first.policy_id;
          })
          w)
        (quiet.create rest _ w p)

  create_first-Keeps :
      (rest remote_rest : Rest) (owner_name source_dir target_dir : String)
      (first : ReplicationLink) (allow_cleanup : Bool)
      → Keeps P
          (create_first api rest remote_rest owner_name source_dir target_dir first allow_cleanup)
  unfolding create_first
  create_first-Keeps rest remote_rest owner_name source_dir target_dir first allow_cleanup w p =
      elim (Bool-cases (str_eq first.local_tenant.guid first.remote_tenant.guid)) [
        | inl e ↦ rw e p
        | inr e ↦ rw e (
            Keeps->> P
              (create_path api rest remote_rest owner_name source_dir target_dir first
                allow_cleanup)
              (pause api 20)
              (create_path-Keeps rest remote_rest owner_name source_dir target_dir first
                allow_cleanup)
              (λ v q. quiet.sleep 20 v q) w p)
      ]

  create_missing-kept :
      (create : Io W (PpathError E) (Unit {0})) (r : W × Result E Ppath)
      → Keeps P create
      → P r.0
      → Outcome (λ _. P) P (create_missing api create r)
  unfolding create_missing
  create_missing-kept create (w, ok x) t p = p
  create_missing-kept create (w, err x) t p = elim (Bool-cases (api.is_not_found x)) [
    | inl e ↦ rw e (t w p)
    | inr e ↦ rw e p
  ]

  await_first-Keeps :
      (rest : Rest) (name : String) (streams : List Stream)
      → Keeps P (await_first api rest name streams)
  unfolding await_first
  await_first-Keeps rest name [] w p = p
  await_first-Keeps rest name (s ∷ streams) w p =
      wait_for_stream_state-Keeps api P quiet rest name s.name ("Active" ∷ []) 300 15 w p

  await_ppath-Keeps : (rest : Rest) (obj : Ppath) → Keeps P (await_ppath api rest obj)
  unfolding await_ppath
  await_ppath-Keeps rest obj w p = elim (Bool-cases (str_eq obj.failure_reason "")) [
    | inl e ↦ rw e (
        Keeps->> P (await_first api rest obj.name obj.streams) (done (obj.name, obj.id))
          (await_first-Keeps rest obj.name obj.streams) (λ v q. q) w p)
    | inr e ↦ rw e p
  ]

  pub ensure_ppath-Keeps :
      (rest remote_rest : Rest) (owner_name source_dir target_dir : String)
      (first : ReplicationLink) (allow_cleanup : Bool)
      → Keeps P
          (ensure_ppath api rest remote_rest owner_name source_dir target_dir first allow_cleanup)
  unfolding ensure_ppath create_if_missing
  ensure_ppath-Keeps rest remote_rest owner_name source_dir target_dir first allow_cleanup =
      Keeps->> P
        (create_if_missing api rest remote_rest owner_name source_dir target_dir first
          allow_cleanup)
        (get_ppath_record api rest owner_name >>= await_ppath api rest)
        (λ w p.
          create_missing-kept
            (create_first api rest remote_rest owner_name source_dir target_dir first allow_cleanup)
            (api.get_ppath rest owner_name w)
            (create_first-Keeps rest remote_rest owner_name source_dir target_dir first
              allow_cleanup)
            (quiet.get rest owner_name w p))
        (Keeps->>= P (get_ppath_record api rest owner_name) (await_ppath api rest)
          (get_ppath_record-Keeps api P quiet rest owner_name) (await_ppath-Keeps rest))

  module _ (client : String → Rest) (dirs : List (String × String)) (primary_sc : String)
      (allow_cleanup : Bool) where
    await_mirror-Keeps :
        (ppath_name sc : String)
        → Keeps P (await_mirror api client dirs primary_sc allow_cleanup ppath_name sc)
    unfolding await_mirror
    await_mirror-Keeps ppath_name sc w p = elim (Bool-cases (str_eq sc primary_sc)) [
      | inl e ↦ rw e p
      | inr e ↦ rw e (
          Keeps->>= P (wait_for_ppath api (client sc) ppath_name) (λ _. done tt)
            (wait_for_ppath-Keeps api P quiet (client sc) ppath_name) (λ _ v q. q) w p)
    ]

    pub await_mirrors-Keeps :
        (ppath_name : String) (classes : List String)
        → Keeps P (await_mirrors api client dirs primary_sc allow_cleanup ppath_name classes)
    unfolding await_mirrors
    await_mirrors-Keeps ppath_name [] w p = p
    await_mirrors-Keeps ppath_name (sc ∷ more) w p =
        Keeps->> P (await_mirror api client dirs primary_sc allow_cleanup ppath_name sc)
          (await_mirrors api client dirs primary_sc allow_cleanup ppath_name more)
          (await_mirror-Keeps ppath_name sc) (await_mirrors-Keeps ppath_name more) w p

    pub add_missing-Keeps :
        (sc : String) (id : ℕ) (streams : List Stream) (name : String) (pair : ReplicationLink)
        → Keeps P
            (add_missing api client dirs primary_sc allow_cleanup sc id streams name pair false)
    unfolding add_missing
    add_missing-Keeps sc id streams name pair w p = elim (Bool-cases (has_stream name streams)) [
      | inl e ↦ rw e p
      | inr e ↦ rw e (
          add_plain-Keeps api P quiet (client sc) (client pair.edge.side_b) name id
            (get_str pair.edge.side_b dirs) pair allow_cleanup w p)
    ]
