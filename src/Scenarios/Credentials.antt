-- ===== src/Scenarios/Credentials.antt =====
-- The theorems about credentials, on a server that has one Secret of credentials, and one name for the
-- flat objects.
use vast_csi.Prelude.{
  String, true, false, ◌≡◌, ◌≢◌, refl, sym, ap, subst, ◌∙◌, ◌⊎◌, Option, none, some, List, [], ◌∷◌,
  Result, ok, err, str_eq, str_eq_iff, lookup, insert, has, Among, arith, Bool-cases, Result-cases,
  inl, inr, if◌then◌else◌, ok-inj,
}
use vast_csi.Prelude.Triples.{Keeps}
use vast_csi.Cosi.{FlatData, FlattenError, bad_json, want_flatten, flat_name}
use vast_csi.Cosi.Bundle.{
  ObjectKind, secret, config_map, Flat, BucketAccess, CosiError, call_failed, CosiApi,
  is_owned_by_uid, is_owned_by_bucket_access, delete_owned_flat_pair, delete_owned, delete_listed,
  delete_each,
}
use vast_csi.Cosi.Flattener.{
  secret_values, config_values, with_values, mutate, reconcile_bucket_access, read_and_flatten,
  flatten_secret, flatten_parsed, after_pair, ensure_flat_pair, ensure_flat_secret,
  config_map_or_rollback, ensure_flat_config_map, after_config_map,
}
use vast_csi.Cosi.Params.{first_of, merge_parameters, lookup-merge_parameters}
use vast_csi.Cosi.Kept.{Serves}
use vast_csi.Cosi.Foreign.{reconcile_bucket_access-Keeps}
use vast_csi.Cosi.Pair.{Writes, Flattened, reconcile_bucket_access-HoldsPair}

-- The Secret and the ConfigMap that are called "creds-flat".
abbrev World : Type 0
World = Option Flat × Option Flat

abbrev creds : Flat
creds = record { uid = "u0"; owners = []; labels = []; values = ("BucketInfo", "json") ∷ [] }

abbrev answer : Option Flat → Result String Flat
answer none = err "not found"
answer (some obj) = ok obj

abbrev at : ObjectKind → World → Option Flat
at secret w = w.0
at config_map w = w.1

abbrev put_flat : ObjectKind → Option Flat → World → World
put_flat secret o w = (o, w.1)
put_flat config_map o w = (w.0, o)

abbrev read_flat : ObjectKind → String → World → Result String Flat
read_flat kind name w =
    if str_eq name "creds-flat"
    then answer (at kind w)
    else if str_eq name "creds"
    then ok creds
    else err "not found"

abbrev shown : Option Flat → List (String × Flat)
shown none = []
shown (some obj) = ("creds-flat", obj) ∷ []

abbrev fresh : Flat
fresh = record { uid = ""; owners = []; labels = []; values = [] }

abbrev before : Option Flat → Flat
before none = fresh
before (some obj) = obj

-- The server gives a new object its uid.
abbrev stored_as : Flat → Flat
stored_as obj = record obj { uid = if str_eq obj.uid "" then "u9" else obj.uid }

abbrev wrote :
    ObjectKind
    → World
    → Result (CosiError String) Flat
    → World × Result (CosiError String) (Unit {0})
wrote kind w (ok obj) = (put_flat kind (some (stored_as obj)) w, ok tt)
wrote kind w (err e) = (w, err e)

abbrev write_flat :
    ObjectKind
    → String
    → (Flat → Result (CosiError String) Flat)
    → World
    → World × Result (CosiError String) (Unit {0})
write_flat kind name f w =
    if str_eq name "creds-flat"
    then wrote kind w (f (before (at kind w)))
    else (w, err (call_failed "forbidden"))

abbrev server : CosiApi World String
server = record {
  is_not_found = λ e. str_eq e "not found";
  get = read_flat;
  list_labelled = λ kind uid w. ok (shown (at kind w));
  delete = λ kind name w. (if str_eq name "creds-flat" then put_flat kind none w else w, ok tt);
  create_or_update = write_flat;
  set_controller_reference =
      λ ba obj. ok (record obj { owners = (ba.uid, some true) ∷ obj.owners });
  remove_finalizer = λ name w. (w, ok tt);
  update_status = λ ba w. (w, ok tt);
}

abbrev access : BucketAccess
access = record {
  uid = "ba";
  annotations = ("cosi.vastdata.com/flatten-credentials", "true") ∷ [];
  deleting = false;
  bucket_claim_name = "claim";
  credentials_secret_name = "creds";
  access_granted = true;
  account_id = "a";
}

abbrev flat : FlatData
flat = record {
  access_key_id = "k";
  secret_access_key = "s";
  bucket_name = "b";
  endpoint = "http://h";
  host = "h";
  port = "80";
}

abbrev parse : String → Result FlattenError FlatData
parse raw = if str_eq raw "json" then ok flat else err bad_json

-- A Secret of another owner under the name of the flat one.
abbrev theirs : Flat
theirs = record { uid = "u1"; owners = ("other", some true) ∷ []; labels = []; values = [] }

shown-answer :
    (o : Option Flat) (obj : Flat) → Among ("creds-flat", obj) (shown o) → answer o ≡ ok obj
shown-answer none obj m = elim m [ ]
shown-answer (some o) obj (inl e) = ap (λ p. answer (some p.1)) e
shown-answer (some o) obj (inr m) = elim m [ ]

deleted_other :
    (k : ObjectKind) (n : String) (w : World)
    → ((k ≡ secret) → n ≢ "creds-flat")
    → answer (at secret (if str_eq n "creds-flat" then put_flat k none w else w)) ≡ answer w.0
deleted_other secret n w other = elim (Bool-cases (str_eq n "creds-flat")) [
  | inl e ↦ absurd (other refl ((str_eq_iff n "creds-flat").0 e))
  | inr e ↦ rw e refl
]
deleted_other config_map n w other = elim (Bool-cases (str_eq n "creds-flat")) [
  | inl e ↦ rw e refl
  | inr e ↦ rw e refl
]

wrote_config :
    (w : World) (r : Result (CosiError String) Flat)
    → answer (wrote config_map w r).0.0 ≡ answer w.0
wrote_config w (ok obj) = refl
wrote_config w (err e) = refl

written_other :
    (k : ObjectKind) (n : String) (f : Flat → Result (CosiError String) Flat) (w : World)
    → ((k ≡ secret) → n ≢ "creds-flat")
    → answer (at secret (write_flat k n f w).0) ≡ answer w.0
written_other secret n f w other = elim (Bool-cases (str_eq n "creds-flat")) [
  | inl e ↦ absurd (other refl ((str_eq_iff n "creds-flat").0 e))
  | inr e ↦ rw e refl
]
written_other config_map n f w other = elim (Bool-cases (str_eq n "creds-flat")) [
  | inl e ↦ rw e (wrote_config w (f (before w.1)))
  | inr e ↦ rw e refl
]

written_same :
    (f : Flat → Result (CosiError String) Flat) (w : World) (obj : Flat)
    → answer w.0 ≡ ok obj
    → (answer (at secret (wrote secret w (f (before w.0))).0) ≡ ok obj)
      ⊎ ((obj' : Flat) × (f obj ≡ ok obj'))
written_same f (none, c) obj there = absurd cc
written_same f (some o, c) obj there = elim (Result-cases (f o)) [
  | inl (obj', q) ↦ inr (obj', ap f (sym (ok-inj there)) ∙ q)
  | inr (e, q) ↦ inl (rw q there)
]

wrote-ok :
    (kind : ObjectKind) (w w' : World) (r : Result (CosiError String) Flat)
    → wrote kind w r ≡ (w', ok tt)
    → (obj : Flat) × (r ≡ ok obj) × (answer (at kind w') ≡ ok (stored_as obj))
wrote-ok kind w w' (err e) h = absurd cc
wrote-ok secret w w' (ok obj) h = (obj, refl, ap (λ r. answer r.0.0) (sym h))
wrote-ok config_map w w' (ok obj) h = (obj, refl, ap (λ r. answer r.0.1) (sym h))

written_at :
    (kind : ObjectKind) (name : String) (f : Flat → Result (CosiError String) Flat) (w w' : World)
    → write_flat kind name f w ≡ (w', ok tt)
    → (b : Flat) × (a : Flat) × (got : Flat) × (f b ≡ ok a)
      × (read_flat kind name w' ≡ ok got)
      × (got.values ≡ a.values)
      × (got.owners ≡ a.owners)
written_at kind name f w w' h = elim (Bool-cases (str_eq name "creds-flat")) [
  | inl e ↦
      let there = rw e at h in
      let (obj, made, found) = wrote-ok kind w w' (f (before (at kind w))) there in
      (before (at kind w), obj, stored_as obj, made, rw e found, refl, refl)
  | inr e ↦ absurd (ground arith)
]

apart_from :
    (name : String) (f : Flat → Result (CosiError String) Flat) (w : World)
    → read_flat secret name (write_flat config_map name f w).0 ≡ read_flat secret name w
apart_from name f w = elim (Bool-cases (str_eq name "creds-flat")) [
  | inl e ↦ rw e (wrote_config w (f (before w.1)))
  | inr e ↦ rw e refl
]

server-Serves : Serves server secret "creds-flat"
unfolding str_eq
server-Serves = record {
  listed = λ uid w items obj h m.
      shown-answer w.0 obj (subst (λ l. Among ("creds-flat", obj) l) (sym (ok-inj h)) m);
  deleted = λ k n w other. deleted_other k n w other;
  written = λ k n f w other. written_other k n f w other;
  written_itself = λ f w obj there. written_same f w obj there;
}

server-Writes : Writes server access
unfolding is_owned_by_bucket_access is_owned_by_uid str_eq
server-Writes = record {
  written = λ kind name f w w' h. written_at kind name f w w' h;
  apart = λ name f w. apart_from name f w;
  owns = λ obj obj' h. subst (λ o. is_owned_by_bucket_access o access ≡ true) (ok-inj h) refl;
}

reconcile_bucket_access-Keeps_example :
    Keeps
      (λ w. read_flat secret "creds-flat" w ≡ ok theirs)
      (reconcile_bucket_access server access parse)
unfolding is_owned_by_bucket_access is_owned_by_uid str_eq
reconcile_bucket_access-Keeps_example =
    reconcile_bucket_access-Keeps server access secret "creds-flat" theirs server-Serves refl
      (λ e. cc) parse

-- The pair that one reconcile of an empty server makes.
abbrev made : List (String × String) → Flat
made values = record {
  uid = "u9";
  owners = ("ba", some true) ∷ [];
  labels = ("cosi.vastdata.com/bucketaccess-uid", "ba") ∷ [];
  values = values;
}

abbrev after_one : World
after_one = (some (made (secret_values flat)), some (made (config_values flat)))

reconcile_bucket_access-HoldsPair_example :
    (v : World) × (delete_owned_flat_pair server access "creds-flat" (none, none) ≡ (v, ok tt))
    × Flattened server access server-Writes parse v after_one
unfolding reconcile_bucket_access want_flatten flat_name delete_owned_flat_pair delete_owned
    delete_listed delete_each read_and_flatten flatten_secret flatten_parsed after_pair
    ensure_flat_pair ensure_flat_secret config_map_or_rollback ensure_flat_config_map
    after_config_map mutate with_values lookup insert str_eq is_owned_by_bucket_access
    is_owned_by_uid
reconcile_bucket_access-HoldsPair_example =
    reconcile_bucket_access-HoldsPair server access server-Writes parse (none, none) after_one refl
      (λ e. cc) refl

abbrev class_params : List (String × String)
class_params = ("a", "1") ∷ ("b", "2") ∷ []

lookup-merge_parameters_example :
    lookup "b" (merge_parameters class_params (("b", "3") ∷ []))
    ≡ first_of (lookup "b" (("b", "3") ∷ [])) (lookup "b" class_params)
unfolding has str_eq
lookup-merge_parameters_example =
    lookup-merge_parameters class_params (("b", "3") ∷ []) "b" (refl, (refl, tt)) (refl, tt)
