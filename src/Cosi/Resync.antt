-- ===== src/Cosi/Resync.antt =====
-- extensions-controller/internal/controller/ba_secret_resync_controller.go and `PokeSidecarRegrant`: new
-- credentials for a BucketAccess whose Secret names another bucket than its claim.
use vast_csi.Prelude.{
  String, Bool, true, false, not, ◌||◌, ◌&&◌, none, some, Result, ok, err, str_eq, lookup,
  if◌then◌else◌,
}
use vast_csi.Prelude.Effects.{Io, ◌>>◌, done, fail, wrap}
use vast_csi.Cosi.{FlatData, FlattenError}
use vast_csi.Cosi.Bundle.{
  secret, Flat, BucketAccess, BucketClaim, CosiError, call_failed, CosiApi, unless_missing,
  delete_owned_flat_pair,
}

module _ {W E : Type 0} (api : CosiApi W E) (ba : BucketAccess) where
  -- A call with the error `err != nil && !IsNotFound(err)`.
  unfoldable pub delete_secret : Io W (CosiError E) (Unit {0})
  delete_secret w = unless_missing api ba (api.delete secret ba.credentials_secret_name w)

  unfoldable pub strip_finalizer : Io W (CosiError E) (Unit {0})
  strip_finalizer = wrap call_failed (api.remove_finalizer ba.credentials_secret_name)

  unfoldable pub clear_status : Io W (CosiError E) (Unit {0})
  clear_status w =
      unless_missing api ba
        (api.update_status (record ba { access_granted = false; account_id = "" }) w)

  unfoldable pub clear_grant : Io W (CosiError E) (Unit {0})
  clear_grant = if not ba.access_granted && str_eq ba.account_id "" then done tt else clear_status

  -- `sec` is there, or it has been deleted before.
  unfoldable pub drop_secret : Bool → Io W (CosiError E) (Unit {0})
  drop_secret there = if there then strip_finalizer >> delete_secret else done tt

  unfoldable pub poke_sidecar_regrant : Bool → Io W (CosiError E) (Unit {0})
  poke_sidecar_regrant there =
      delete_owned_flat_pair api ba "" >> (drop_secret there >> clear_grant)

  unfoldable pub compare_bucket :
      BucketClaim → Result FlattenError FlatData → Io W (CosiError E) (Unit {0})
  compare_bucket claim (err e) = done tt
  compare_bucket claim (ok info) =
      if str_eq info.bucket_name claim.bucket_name then done tt else poke_sidecar_regrant true

  -- What follows the read of the Secret.
  unfoldable pub resync_secret :
      (String → Result FlattenError FlatData)
      → BucketClaim
      → Result E Flat
      → Io W (CosiError E) (Unit {0})
  resync_secret parse claim (err e) =
      if api.is_not_found e then poke_sidecar_regrant false else fail (call_failed e)
  resync_secret parse claim (ok sec) = elim (lookup "BucketInfo" sec.values) [
    | none ↦ done tt
    | some raw ↦ compare_bucket claim (parse raw)
  ]

  unfoldable pub read_and_resync :
      (String → Result FlattenError FlatData) → BucketClaim → Io W (CosiError E) (Unit {0})
  read_and_resync parse claim w =
      resync_secret parse claim (api.get secret ba.credentials_secret_name w) w

  -- What follows the read of the claim.
  unfoldable pub resync_claim :
      (String → Result FlattenError FlatData) → Result E BucketClaim → Io W (CosiError E) (Unit {0})
  resync_claim parse (err e) = if api.is_not_found e then done tt else fail (call_failed e)
  resync_claim parse (ok claim) =
      if not claim.bucket_ready || str_eq claim.bucket_name ""
      then done tt
      else read_and_resync parse claim

  -- `Reconcile`, after the BucketAccess has been read, with the answer to the read of its claim.
  unfoldable pub reconcile_resync :
      (String → Result FlattenError FlatData) → Result E BucketClaim → Io W (CosiError E) (Unit {0})
  reconcile_resync parse claim =
      if ba.deleting
      then done tt
      else if not ba.access_granted || str_eq ba.account_id ""
      then done tt
      else if str_eq ba.bucket_claim_name "" || str_eq ba.credentials_secret_name ""
      then done tt
      else resync_claim parse claim
