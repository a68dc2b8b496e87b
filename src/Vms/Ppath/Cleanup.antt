-- ===== src/Vms/Ppath/Cleanup.antt =====
-- What `handlePathOnPeerExists` removes.
use vast_csi.Prelude.{
  ℕ, String, Bool, true, false, ◌≡◌, refl, Option, none, some, Result, ok, err, Bool-cases, inl,
  inr,
}
use vast_csi.Spec.Templates.{is_positive}
use vast_csi.Vms.Ppath.{FolderStat, PpathApi}
use vast_csi.Vms.Ppath.Streams.{removal_answer, clean_up, handle_path_on_peer_exists}

-- A condition that a query keeps, and so does the removal of a path that has just been seen to be a
-- directory without children.
pub record KeepsData {W Rest E : Type 0} (api : PpathApi W Rest E) (P : W → Type 0) : Type 0 where
  pub stat : (rest : Rest) (path : String) (t : ℕ) (w : W) → P w → P (api.stat_path rest path t w).0
  pub delete :
      (rest : Rest) (path : String) (t : ℕ) (w w' : W) (seen : FolderStat)
      → api.stat_path rest path t w ≡ (w', ok (some seen))
      → seen.is_directory ≡ true
      → is_positive seen.children ≡ false
      → P w'
      → P (api.delete_folder rest path t w').0

module _ {W Rest E : Type 0} (api : PpathApi W Rest E) (P : W → Type 0)
    (data_kept : KeepsData api P) (rest : Rest) (path : String) (t : ℕ) where
  removal_answer_world : (r : W × Result E (Unit {0})) → P r.0 → P (removal_answer api r).0
  unfolding removal_answer
  removal_answer_world (w, ok _) p = p
  removal_answer_world (w, err e) p = p

  clean_up_safe :
      (w : W) (r : W × Result E (Option FolderStat))
      → api.stat_path rest path t w ≡ r
      → P r.0
      → P (clean_up api rest path t r).0
  unfolding clean_up
  clean_up_safe w (w', err e) same p = p
  clean_up_safe w (w', ok none) same p = p
  clean_up_safe w (w', ok (some seen)) same p = elim (Bool-cases seen.is_directory) [
    | inl d ↦ elim (Bool-cases (is_positive seen.children)) [
      | inl f ↦ rw (d, f) p
      | inr f ↦
          rw (d, f)
            (removal_answer_world (api.delete_folder rest path t w')
              (data_kept.delete rest path t w w' seen same d f p))
    ]
    | inr d ↦ rw d p
  ]

  -- `handlePathOnPeerExists` keeps every condition that only the removal of something else than an
  -- empty directory can break: it removes a path after it has seen it as a directory without children,
  -- and in no other case. Where cleanup is not allowed it calls nothing.
  pub handle_path_on_peer_exists_safe :
      (allow_cleanup : Bool) (w : W)
      → P w
      → P (handle_path_on_peer_exists api rest path t allow_cleanup w).0
        × (allow_cleanup ≡ false
            → (handle_path_on_peer_exists api rest path t allow_cleanup w).0 ≡ w)
  unfolding handle_path_on_peer_exists
  handle_path_on_peer_exists_safe true w p = (
    clean_up_safe w (api.stat_path rest path t w) refl (data_kept.stat rest path t w p),
    λ h. absurd cc,
  )
  handle_path_on_peer_exists_safe false w p = (p, λ _. refl)
