-- ===== src/Cosi/Flattener.antt =====
-- extensions-controller/internal/controller/credentials_flattener_controller.go. Events and logs are left
-- out; the result of a reconcile is whether it asks to be run again after 15 seconds.
use vast_csi.Prelude.{
  String, Bool, true, false, not, ◌&&◌, none, some, List, [], ◌∷◌, Result, ok, err, str_eq, lookup,
  insert, if◌then◌else◌,
}
use vast_csi.Prelude.Effects.{Io, ◌>>◌, done}
use vast_csi.Cosi.{FlatData, FlattenError, want_flatten, flat_name}
use vast_csi.Cosi.Bundle.{
  secret, config_map, Flat, BucketAccess, CosiError, call_failed, foreign_flat, rollback_failed,
  CosiApi, is_owned_by_bucket_access, delete_owned_flat_pair,
}

abbrev pub secret_values : FlatData → List (String × String)
secret_values flat =
    ("AWS_ACCESS_KEY_ID", flat.access_key_id)
    ∷ ("AWS_SECRET_ACCESS_KEY", flat.secret_access_key)
    ∷ []

abbrev pub config_values : FlatData → List (String × String)
config_values flat =
    ("BUCKET_NAME", flat.bucket_name)
    ∷ ("BUCKET_HOST", flat.host)
    ∷ ("BUCKET_PORT", flat.port)
    ∷ ("BUCKET_ENDPOINT", flat.endpoint)
    ∷ []

module _ {W E : Type 0} (api : CosiApi W E) (ba : BucketAccess) where
  unfoldable pub with_values : List (String × String) → Result E Flat → Result (CosiError E) Flat
  with_values values (err e) = err (call_failed e)
  with_values values (ok obj) = ok (record obj {
    labels = insert "cosi.vastdata.com/bucketaccess-uid" ba.uid obj.labels;
    values = values;
  })

  -- The function that is handed to `CreateOrUpdate`.
  unfoldable pub mutate : List (String × String) → Flat → Result (CosiError E) Flat
  mutate values obj =
      if not (str_eq obj.uid "") && not (is_owned_by_bucket_access obj ba)
      then err foreign_flat
      else with_values values (api.set_controller_reference ba obj)

  unfoldable pub ensure_flat_secret : String → FlatData → Io W (CosiError E) (Unit {0})
  ensure_flat_secret name flat = api.create_or_update secret name (mutate (secret_values flat))

  unfoldable pub ensure_flat_config_map : String → FlatData → Io W (CosiError E) (Unit {0})
  ensure_flat_config_map name flat =
      api.create_or_update config_map name (mutate (config_values flat))

  unfoldable pub missing_is_ok : W × Result E (Unit {0}) → W × Result E (Unit {0})
  missing_is_ok (w, ok _) = (w, ok tt)
  missing_is_ok (w, err e) = (w, (if api.is_not_found e then ok tt else err e))

  -- What follows the read of the Secret in `rollbackFlatSecret`.
  unfoldable pub rollback_found : String → Result E Flat → Io W E (Unit {0})
  rollback_found name (err e) w = (w, (if api.is_not_found e then ok tt else err e))
  rollback_found name (ok sec) w =
      if not (is_owned_by_bucket_access sec ba)
      then (w, ok tt)
      else missing_is_ok (api.delete secret name w)

  unfoldable pub rollback_flat_secret : String → Io W E (Unit {0})
  rollback_flat_secret name w = rollback_found name (api.get secret name w) w

  -- The error of the ConfigMap, with that of the rollback if it fails as well.
  unfoldable pub rolled_back :
      CosiError E → W × Result E (Unit {0}) → W × Result (CosiError E) (Unit {0})
  rolled_back e (w, ok _) = (w, err e)
  rolled_back e (w, err rb) = (w, err (rollback_failed e rb))

  unfoldable pub after_config_map :
      String → W × Result (CosiError E) (Unit {0}) → W × Result (CosiError E) (Unit {0})
  after_config_map name (w, ok _) = (w, ok tt)
  after_config_map name (w, err e) = rolled_back e (rollback_flat_secret name w)

  unfoldable pub config_map_or_rollback : String → FlatData → Io W (CosiError E) (Unit {0})
  config_map_or_rollback name flat w = after_config_map name (ensure_flat_config_map name flat w)

  unfoldable pub ensure_flat_pair : String → FlatData → Io W (CosiError E) (Unit {0})
  ensure_flat_pair name flat = ensure_flat_secret name flat >> config_map_or_rollback name flat

  -- `errors.Is(err, errForeignFlat)`
  unfoldable pub is_foreign : CosiError E → Bool
  is_foreign foreign_flat = true
  is_foreign (call_failed e) = false
  is_foreign (rollback_failed e rb) = is_foreign e

  unfoldable pub after_pair : W × Result (CosiError E) (Unit {0}) → W × Result (CosiError E) Bool
  after_pair (w, ok _) = (w, ok false)
  after_pair (w, err e) = (w, (if is_foreign e then ok true else err e))

  unfoldable pub flatten_parsed : String → Result FlattenError FlatData → Io W (CosiError E) Bool
  flatten_parsed name (err e) w = (w, ok true)
  flatten_parsed name (ok flat) w = after_pair (ensure_flat_pair name flat w)

  -- What follows the read of the credentials.
  unfoldable pub flatten_secret :
      (String → Result FlattenError FlatData) → String → Result E Flat → Io W (CosiError E) Bool
  flatten_secret parse name (err e) w =
      (w, (if api.is_not_found e then ok true else err (call_failed e)))
  flatten_secret parse name (ok src) w = elim (lookup "BucketInfo" src.values) [
    | none ↦ (w, ok true)
    | some raw ↦ flatten_parsed name (parse raw) w
  ]

  unfoldable pub read_and_flatten :
      (String → Result FlattenError FlatData) → Io W (CosiError E) Bool
  read_and_flatten parse w =
      flatten_secret parse (flat_name ba.credentials_secret_name)
        (api.get secret ba.credentials_secret_name w) w

  -- `Reconcile`, after the BucketAccess has been read; one that is not there ends it.
  unfoldable pub reconcile_bucket_access :
      (String → Result FlattenError FlatData) → Io W (CosiError E) Bool
  reconcile_bucket_access parse =
      if not (want_flatten ba.annotations)
      then delete_owned_flat_pair api ba "" >> done false
      else if str_eq ba.credentials_secret_name ""
      then done true
      else delete_owned_flat_pair api ba (flat_name ba.credentials_secret_name)
        >> read_and_flatten parse
