-- ===== src/Cosi.antt =====
-- extensions-controller/internal/common/cosi: object-storage credentials, and in the children the two
-- controllers that use it. A Go map is an association list.
pub mod Bundle
pub mod Flattener
pub mod Resync
pub mod Kept
pub mod Foreign
pub mod Pair
pub mod Params
use text.Mathlib.Text.{find?}
use vast_csi.Prelude.{
  String, ◌<>◌, Bool, true, false, not, ◌||◌, ◌&&◌, ◌∷◌, Option, none, some, List, [], Result, ok,
  err, ◌>>=◌, ◌>>◌, reject_if, str_eq, insert, lookup, get_str, trim_space, if◌then◌else◌,
}
use vast_csi.K8s.{has_prefix}

pub record FlatData : Type 0 where
  pub access_key_id : String
  pub secret_access_key : String
  pub bucket_name : String
  pub endpoint : String
  pub host : String
  pub port : String

-- What `json.Unmarshal` reads from a BucketInfo.
pub record BucketInfo : Type 0 where
  pub bucket_name : String
  pub access_key_id : String
  pub access_secret_key : String
  pub endpoint : String

-- What `url.Parse` reads; `scheme` is in lower case.
pub record Url : Type 0 where
  pub scheme : String
  pub host : String
  pub hostname : String
  pub port : String

pub data FlattenError : Type 0 where
  bad_json incomplete bad_url missing_host missing_port : FlattenError

unfoldable pub want_flatten : List (String × String) → Bool
want_flatten annotations =
    str_eq (get_str "cosi.vastdata.com/flatten-credentials" annotations) "true"

unfoldable pub flat_name : String → String
flat_name credentials_secret_name = credentials_secret_name <> "-flat"

-- `strings.Contains(s, sub)`
abbrev pub contains : String → String → Bool
contains s sub = elim (find? s sub) [ none ↦ false | some _ ↦ true ]

unfoldable pub normalize_endpoint : String → String
normalize_endpoint endpoint =
    let trimmed = trim_space endpoint in
    if has_prefix trimmed "://"
    then "http" <> trimmed
    else if not (contains trimmed "://")
    then "http://" <> trimmed
    else trimmed

-- `json.Unmarshal` and `url.Parse`.
module _ (unmarshal : String → Option BucketInfo) (parse_url : String → Option Url) where
  unfoldable pub default_port : Url → Result FlattenError String
  default_port u =
      if not (str_eq u.port "")
      then ok u.port
      else if str_eq u.scheme "https"
      then ok "443"
      else if str_eq u.scheme "http" || str_eq u.scheme ""
      then ok "80"
      else err missing_port

  unfoldable pub split_parsed : Option Url → Result FlattenError (String × String)
  split_parsed none = err bad_url
  split_parsed (some u) = do
    reject_if (str_eq u.host "") missing_host
    reject_if (str_eq u.hostname "") missing_host
    port ← default_port u
    ok (u.hostname, port)

  unfoldable pub split_endpoint : String → Result FlattenError (String × String)
  split_endpoint endpoint = split_parsed (parse_url (normalize_endpoint endpoint))

  unfoldable pub flatten_info : Option BucketInfo → Result FlattenError FlatData
  flatten_info none = err bad_json
  flatten_info (some bi) = do
    reject_if
        (str_eq bi.bucket_name ""
          || str_eq bi.access_key_id ""
          || str_eq bi.access_secret_key ""
          || str_eq bi.endpoint "")
        incomplete
    let endpoint = normalize_endpoint bi.endpoint
    parts ← split_endpoint endpoint
    ok (record {
      access_key_id = bi.access_key_id;
      secret_access_key = bi.access_secret_key;
      bucket_name = bi.bucket_name;
      endpoint = endpoint;
      host = parts.0;
      port = parts.1;
    })

  unfoldable pub parse_bucket_info : String → Result FlattenError FlatData
  parse_bucket_info raw = flatten_info (unmarshal raw)
