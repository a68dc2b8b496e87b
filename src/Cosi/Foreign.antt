-- ===== src/Cosi/Foreign.antt =====
-- An object that another one owns is never touched.
use vast_csi.Prelude.{
  String, Bool, true, false, not, ◌≡◌, ◌≢◌, refl, sym, subst, ◌∙◌, inl, inr, Option, none, some,
  List, Result, ok, err, str_eq, str_eq_iff, lookup, arith, Bool-cases, if◌then◌else◌, ok-inj,
}
use vast_csi.Prelude.Effects.{Io, done}
use vast_csi.Prelude.Triples.{Outcome, Keeps, Keeps->>, Outcome-kept}
use vast_csi.Cosi.{FlatData, FlattenError, want_flatten, flat_name}
use vast_csi.Cosi.Bundle.{
  ObjectKind, secret, config_map, Flat, BucketAccess, CosiError, foreign_flat, CosiApi,
  is_owned_by_bucket_access, delete_owned_flat_pair,
}
use vast_csi.Cosi.Flattener.{
  mutate, ensure_flat_secret, ensure_flat_config_map, missing_is_ok, rollback_found,
  rollback_flat_secret, rolled_back, after_config_map, config_map_or_rollback, ensure_flat_pair,
  after_pair, flatten_parsed, flatten_secret, read_and_flatten, reconcile_bucket_access,
  secret_values, config_values,
}
use vast_csi.Cosi.Kept.{
  Serves, same_object, err-ne-ok, delete-IsThere, delete_owned_flat_pair-Keeps,
}

module _ {W E : Type 0} (api : CosiApi W E) (ba : BucketAccess) (kind : ObjectKind) (name : String)
    (obj : Flat) (serves : Serves api kind name)
    (foreign : is_owned_by_bucket_access obj ba ≡ false) (exists : obj.uid ≢ "") where
  abbrev IsThere : W → Type 0
  IsThere w = api.get kind name w ≡ ok obj

  mutate_foreign : (values : List (String × String)) → mutate api ba values obj ≡ err foreign_flat
  unfolding mutate
  mutate_foreign values = ground (arith, str_eq_iff obj.uid "")

  kept_itself :
      (values : List (String × String)) (w : W)
      → IsThere w
      → IsThere (api.create_or_update kind name (mutate api ba values) w).0
  kept_itself values w there = elim (serves.written_itself (mutate api ba values) w obj there) [
    | inl same ↦ same
    | inr (obj', made) ↦ absurd (err-ne-ok (sym (mutate_foreign values) ∙ made))
  ]

  missing_is_ok_world : (r : W × Result E (Unit {0})) → (missing_is_ok api ba r).0 ≡ r.0
  unfolding missing_is_ok
  missing_is_ok_world (w, ok _) = refl
  missing_is_ok_world (w, err e) = refl

  foreign_read :
      (n : String) (sec : Flat) (w : W)
      → api.get secret n w ≡ ok sec
      → IsThere w
      → secret ≡ kind
      → n ≡ name
      → sec ≡ obj
  foreign_read n sec w read there k same =
      let here = subst (λ n'. api.get secret n' w ≡ ok sec) same read in
      ok-inj (sym (subst (λ k'. api.get k' name w ≡ ok sec) k here) ∙ there)

  rollback_found-IsThere :
      (n : String) (r : Result E Flat) (w : W)
      → api.get secret n w ≡ r
      → IsThere w
      → IsThere (rollback_found api ba n r w).0
  unfolding rollback_found
  rollback_found-IsThere n (err e) w read there = there
  rollback_found-IsThere n (ok sec) w read there =
      elim (Bool-cases (is_owned_by_bucket_access sec ba)) [
        | inr e ↦ rw e there
        | inl e ↦
            let gone =
              delete-IsThere api ba kind name obj serves foreign exists secret n w
                (λ k same. cc (foreign_read n sec w read there k same, e, foreign)) there in
            rw e (subst IsThere (sym (missing_is_ok_world (api.delete secret n w))) gone)
      ]

  create_or_update-Keeps :
      (k : ObjectKind) (n : String) (values : List (String × String))
      → Keeps IsThere (api.create_or_update k n (mutate api ba values))
  create_or_update-Keeps k n values w there =
      Outcome-kept IsThere (api.create_or_update k n (mutate api ba values) w)
        (elim (same_object k kind n name) [
          | inl (same_kind, same_name) ↦
              let itself = kept_itself values w there in cc (itself, same_kind, same_name)
          | inr other ↦ serves.written k n (mutate api ba values) w other ∙ there
        ])

  back :
      (e : CosiError E) (r : W × Result E (Unit {0}))
      → IsThere r.0
      → Outcome {A = Unit {0}} (λ _. IsThere) IsThere (rolled_back api ba e r)
  unfolding rolled_back
  back e (w, ok _) there = there
  back e (w, err rb) there = there

  ensure_flat_config_map-Keeps :
      (n : String) (flat : FlatData) → Keeps IsThere (config_map_or_rollback api ba n flat)
  unfolding config_map_or_rollback ensure_flat_config_map after_config_map rollback_flat_secret
  ensure_flat_config_map-Keeps n flat w there =
      after (api.create_or_update config_map n (mutate api ba (config_values flat)) w)
        (create_or_update-Keeps config_map n (config_values flat) w there)
    where
      after :
          (r : W × Result (CosiError E) (Unit {0}))
          → Outcome (λ _. IsThere) IsThere r
          → Outcome {A = Unit {0}} (λ _. IsThere) IsThere (after_config_map api ba n r)
      after (v, ok _) there = there
      after (v, err e) there =
          back e (rollback_flat_secret api ba n v)
            (rollback_found-IsThere n (api.get secret n v) v refl there)

  ensure_flat_pair-Keeps :
      (n : String) (flat : FlatData) → Keeps IsThere (ensure_flat_pair api ba n flat)
  unfolding ensure_flat_pair ensure_flat_secret
  ensure_flat_pair-Keeps n flat =
      Keeps->> IsThere (ensure_flat_secret api ba n flat) (config_map_or_rollback api ba n flat)
        (create_or_update-Keeps secret n (secret_values flat)) (ensure_flat_config_map-Keeps n flat)

  after_pair-Outcome :
      (r : W × Result (CosiError E) (Unit {0}))
      → Outcome (λ _. IsThere) IsThere r
      → Outcome {A = Bool} (λ _. IsThere) IsThere (after_pair api ba r)
  unfolding after_pair
  after_pair-Outcome (w, ok _) there = there
  after_pair-Outcome (w, err e) there = Outcome-kept IsThere (after_pair api ba (w, err e)) there

  flatten_parsed-Keeps :
      (n : String) (p : Result FlattenError FlatData) → Keeps IsThere (flatten_parsed api ba n p)
  unfolding flatten_parsed
  flatten_parsed-Keeps n (err e) w there = there
  flatten_parsed-Keeps n (ok flat) w there =
      after_pair-Outcome (ensure_flat_pair api ba n flat w) (ensure_flat_pair-Keeps n flat w there)

  flatten_secret-Keeps :
      (parse : String → Result FlattenError FlatData) (n : String) (r : Result E Flat)
      → Keeps IsThere (flatten_secret api ba parse n r)
  unfolding flatten_secret
  flatten_secret-Keeps parse n (err e) w there =
      Outcome-kept IsThere (flatten_secret api ba parse n (err e) w) there
  flatten_secret-Keeps parse n (ok src) w there = at (lookup "BucketInfo" src.values)
    where
      parsed : (p : Result FlattenError FlatData) → Keeps IsThere (flatten_parsed api ba n p)
      parsed p = flatten_parsed-Keeps n p

      at :
          (o : Option String)
          → Outcome {A = Bool}
              (λ _. IsThere)
              IsThere
              (elim o as (λ _. W × Result (CosiError E) Bool) [
                | none ↦ (w, ok true)
                | some raw ↦ flatten_parsed api ba n (parse raw) w
              ])
      at none = there
      at (some raw) = parsed (parse raw) w there

-- A Secret or ConfigMap that exists and that the BucketAccess does not own is the same before and after
-- each reconcile of the flattener, however it ends. It is stated for an API server whose writes and
-- deletions are about the named object alone, whose lists show objects as they are, and where
-- CreateOrUpdate writes only what its function returns.
pub reconcile_bucket_access-Keeps :
    {W E : Type 0}
    → (api : CosiApi W E) (ba : BucketAccess) (kind : ObjectKind) (name : String) (obj : Flat)
    → Serves api kind name
    → is_owned_by_bucket_access obj ba ≡ false
    → obj.uid ≢ ""
    → (parse : String → Result FlattenError FlatData)
    → Keeps (λ w. api.get kind name w ≡ ok obj) (reconcile_bucket_access api ba parse)
unfolding reconcile_bucket_access read_and_flatten
reconcile_bucket_access-Keeps {W} {E} api ba kind name obj serves foreign exists parse =
    either (not (want_flatten ba.annotations)) _ _
      (Keeps->> there (delete_owned_flat_pair api ba "") (done false) (pair "") (λ w h. h))
      (either (str_eq ba.credentials_secret_name "") _ _ (λ w h. h)
        (Keeps->> there (delete_owned_flat_pair api ba (flat_name ba.credentials_secret_name))
          (read_and_flatten api ba parse) (pair (flat_name ba.credentials_secret_name))
          (λ w h.
            flatten_secret-Keeps api ba kind name obj serves foreign exists parse
              (flat_name ba.credentials_secret_name) (api.get secret ba.credentials_secret_name w) w
              h)))
  where
    there : W → Type 0
    there w = api.get kind name w ≡ ok obj

    pair : (keep : String) → Keeps there (delete_owned_flat_pair api ba keep)
    pair keep = delete_owned_flat_pair-Keeps api ba kind name obj serves foreign exists keep

    either :
        (b : Bool) (x y : Io W (CosiError E) Bool)
        → Keeps there x
        → Keeps there y
        → Keeps there (if b then x else y)
    either true x y p q = p
    either false x y p q = q
