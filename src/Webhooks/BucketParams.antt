-- ===== src/Webhooks/BucketParams.antt =====
-- internal/webhook/bucket_params_webhook.go: the parameters of a claim are merged into its bucket.
use vast_csi.Prelude.{
  String, Bool, true, false, not, ◌||◌, ◌&&◌, Option, none, some, List, [], ◌∷◌, Result, ok, err,
  str_eq, lookup, length, ◌==◌, if◌then◌else◌,
}
use vast_csi.Cosi.Params.{params_from_claim_annotations, merge_parameters}

-- A Bucket; `bucket_claim` is the reference to its claim, namespace and name.
pub record Bucket : Type 0 where
  pub driver_name : String
  pub bucket_claim : Option (String × String)
  pub parameters : List (String × String)

pub data BucketResponse : Type 0 where
  allowed denied errored : BucketResponse
  patched : List (String × String) → BucketResponse

-- Every entry of the first is in the second.
unfoldable pub all_in : List (String × String) → List (String × String) → Bool
all_in [] m = true
all_in ((k, v) ∷ entries) m =
    (elim (lookup k m) [ none ↦ false | some u ↦ str_eq v u ]) && all_in entries m

-- `maps.Equal`
unfoldable pub maps_equal : List (String × String) → List (String × String) → Bool
maps_equal a b = length a == length b && all_in a b

abbrev pub is_empty_map : List (String × String) → Bool
is_empty_map [] = true
is_empty_map (_ ∷ _) = false

module _ {E : Type 0} (is_not_found : E → Bool)
    (get_claim : String → String → Result E (List (String × String))) where
  unfoldable pub merge_claim : Bucket → Result E (List (String × String)) → BucketResponse
  merge_claim bucket (err e) = if is_not_found e then denied else errored
  merge_claim bucket (ok annotations) =
      let params = params_from_claim_annotations annotations in
      let merged = merge_parameters bucket.parameters params in
      if is_empty_map params
      then allowed
      else if maps_equal bucket.parameters merged
      then allowed
      else patched merged

  -- `Handle`; `none` is a request that cannot be decoded. `get_claim` gives the annotations of a claim.
  unfoldable pub handle_bucket : String → String → Option Bucket → BucketResponse
  handle_bucket driver_name req_namespace none = errored
  handle_bucket driver_name req_namespace (some bucket) =
      if str_eq bucket.driver_name "" || not (str_eq bucket.driver_name driver_name)
      then allowed
      else elim bucket.bucket_claim [
        | none ↦ allowed
        | some (ns, name) ↦
            merge_claim bucket (get_claim (if str_eq ns "" then req_namespace else ns) name)
      ]
