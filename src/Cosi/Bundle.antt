-- ===== src/Cosi/Bundle.antt =====
-- internal/common/cosi/credentials_bundle.go, and the calls of the API server that the two controllers of
-- credentials make. One namespace is looked at: that of the BucketAccess.
use vast_csi.Prelude.{
  String, Bool, false, not, ◌||◌, ◌&&◌, Option, none, some, List, [], ◌∷◌, Result, ok, err, str_eq,
  if◌then◌else◌,
}
use vast_csi.Prelude.Effects.{Io, ◌>>◌, done, fail}

pub data ObjectKind : Type 0 where
  secret config_map : ObjectKind

-- A Secret or ConfigMap. An owner is its UID and its `controller` pointer.
pub record Flat : Type 0 where
  pub uid : String
  pub owners : List (String × Option Bool)
  pub labels : List (String × String)
  pub values : List (String × String)

pub record BucketAccess : Type 0 where
  pub uid : String
  pub annotations : List (String × String)
  pub deleting : Bool
  pub bucket_claim_name : String
  pub credentials_secret_name : String
  pub access_granted : Bool
  pub account_id : String

pub record BucketClaim : Type 0 where
  pub bucket_ready : Bool
  pub bucket_name : String

pub data CosiError (E : Type 0) : Type 0 where
  call_failed : E → CosiError E
  foreign_flat : CosiError E
  rollback_failed : CosiError E → E → CosiError E

-- `create_or_update` is that of controller-runtime: it reads the object, or starts from an empty one,
-- hands it to the function, and writes what that returns.
pub record CosiApi (W E : Type 0) : Type 0 where
  pub is_not_found : E → Bool
  pub get : ObjectKind → String → W → Result E Flat
  pub list_labelled : ObjectKind → String → W → Result E (List (String × Flat))
  pub delete : ObjectKind → String → Io W E (Unit {0})
  pub create_or_update :
      ObjectKind → String → (Flat → Result (CosiError E) Flat) → Io W (CosiError E) (Unit {0})
  pub set_controller_reference : BucketAccess → Flat → Result E Flat
  pub remove_finalizer : String → Io W E (Unit {0})
  pub update_status : BucketAccess → Io W E (Unit {0})

unfoldable pub is_owned_by_uid : String → List (String × Option Bool) → Bool
is_owned_by_uid uid [] = false
is_owned_by_uid uid ((ref_uid, controller) ∷ refs) =
    str_eq ref_uid uid && (elim controller [ none ↦ false | some b ↦ b ])
    || is_owned_by_uid uid refs

unfoldable pub is_owned_by_bucket_access : Flat → BucketAccess → Bool
is_owned_by_bucket_access obj ba = is_owned_by_uid ba.uid obj.owners

module _ {W E : Type 0} (api : CosiApi W E) (ba : BucketAccess) where
  -- `err != nil && !IsNotFound(err)`, and the error as it is.
  unfoldable pub unless_missing : W × Result E (Unit {0}) → W × Result (CosiError E) (Unit {0})
  unless_missing (w, ok _) = (w, ok tt)
  unless_missing (w, err e) = (w, (if api.is_not_found e then ok tt else err (call_failed e)))

  -- One round of the loop.
  unfoldable pub delete_one : ObjectKind → String → String × Flat → Io W (CosiError E) (Unit {0})
  delete_one kind keep_name (name, obj) w =
      if not (is_owned_by_bucket_access obj ba)
      then (w, ok tt)
      else if not (str_eq keep_name "") && str_eq name keep_name
      then (w, ok tt)
      else unless_missing (api.delete kind name w)

  unfoldable pub delete_each :
      ObjectKind → String → List (String × Flat) → Io W (CosiError E) (Unit {0})
  delete_each kind keep_name [] = done tt
  delete_each kind keep_name (item ∷ items) =
      delete_one kind keep_name item >> delete_each kind keep_name items

  unfoldable pub delete_listed :
      ObjectKind → String → Result E (List (String × Flat)) → Io W (CosiError E) (Unit {0})
  delete_listed kind keep_name (ok items) = delete_each kind keep_name items
  delete_listed kind keep_name (err e) = fail (call_failed e)

  unfoldable pub delete_owned : ObjectKind → String → Io W (CosiError E) (Unit {0})
  delete_owned kind keep_name w = delete_listed kind keep_name (api.list_labelled kind ba.uid w) w

  unfoldable pub delete_owned_flat_pair : String → Io W (CosiError E) (Unit {0})
  delete_owned_flat_pair keep_name =
      delete_owned secret keep_name >> delete_owned config_map keep_name
