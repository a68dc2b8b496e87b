-- ===== src/Cosi/Pair.antt =====
-- What a reconcile of the flattener that has nothing to wait for leaves.
use vast_csi.Prelude.{
  String, Bool, true, false, not, ◌&&◌, ◌≡◌, ◌≢◌, refl, sym, ap, subst, ◌∙◌, Option, none, some,
  List, Result, ok, err, str_eq, str_eq_iff, lookup, arith, Bool-cases, inl, inr, if◌then◌else◌,
  ok-inj,
}
use vast_csi.Prelude.Effects.{◌>>◌, done, resume-ok}
use vast_csi.Cosi.{FlatData, FlattenError, want_flatten, flat_name}
use vast_csi.Cosi.Bundle.{
  ObjectKind, secret, config_map, Flat, BucketAccess, CosiError, CosiApi, is_owned_by_bucket_access,
  is_owned_by_uid, delete_owned_flat_pair,
}
use vast_csi.Cosi.Flattener.{
  with_values, mutate, ensure_flat_secret, ensure_flat_config_map, rollback_flat_secret,
  rolled_back, after_config_map, config_map_or_rollback, ensure_flat_pair, after_pair,
  flatten_parsed, flatten_secret, read_and_flatten, reconcile_bucket_access, secret_values,
  config_values,
}

-- `CreateOrUpdate` that succeeds has written the values and the owners that its function returned (the
-- server gives a new object its uid), a ConfigMap leaves the Secret of the same name, and
-- SetControllerReference makes the BucketAccess an owner.
pub record Writes {W E : Type 0} (api : CosiApi W E) (ba : BucketAccess) : Type 0 where
  pub written :
      (kind : ObjectKind) (name : String) (f : Flat → Result (CosiError E) Flat) (w w' : W)
      → api.create_or_update kind name f w ≡ (w', ok tt)
      → (before : Flat) × (after : Flat) × (got : Flat) × (f before ≡ ok after)
        × (api.get kind name w' ≡ ok got)
        × (got.values ≡ after.values)
        × (got.owners ≡ after.owners)
  pub apart :
      (name : String) (f : Flat → Result (CosiError E) Flat) (w : W)
      → api.get secret name (api.create_or_update config_map name f w).0 ≡ api.get secret name w
  pub owns :
      (obj obj' : Flat)
      → api.set_controller_reference ba obj ≡ ok obj'
      → is_owned_by_bucket_access obj' ba ≡ true

module _ {W E : Type 0} (api : CosiApi W E) (ba : BucketAccess) (writes : Writes api ba) where
  -- The object is there with the values, and the BucketAccess owns it.
  abbrev pub Holds : ObjectKind → String → List (String × String) → W → Type 0
  Holds kind name values w =
      (obj : Flat) × (api.get kind name w ≡ ok obj)
      × (obj.values ≡ values)
      × (is_owned_by_bucket_access obj ba ≡ true)

  mutate-ok :
      (values : List (String × String)) (before after : Flat)
      → mutate api ba values before ≡ ok after
      → (after.values ≡ values) × (is_owned_by_bucket_access after ba ≡ true)
  unfolding mutate with_values is_owned_by_bucket_access
  mutate-ok values before after h =
      elim (Bool-cases (not (str_eq before.uid "") && not (is_owned_by_bucket_access before ba))) [
        | inl e ↦ absurd (ground arith)
        | inr e ↦ let made = rw e at h in at (api.set_controller_reference ba before) refl made
      ]
    where
      at :
          (r : Result E Flat)
          → api.set_controller_reference ba before ≡ r
          → with_values api ba values r ≡ ok after
          → (after.values ≡ values) × (is_owned_by_bucket_access after ba ≡ true)
      at (err e) set made = absurd cc
      at (ok obj) set made =
          let same = ok-inj made in
          let owned = writes.owns before obj set in
          (
            ap (λ o. o.values) (sym same),
            subst (λ o. is_owned_by_bucket_access o ba ≡ true) same owned,
          )

  create_or_update-Holds :
      (kind : ObjectKind) (name : String) (values : List (String × String)) (w w' : W)
      → api.create_or_update kind name (mutate api ba values) w ≡ (w', ok tt)
      → Holds kind name values w'
  unfolding is_owned_by_bucket_access
  create_or_update-Holds kind name values w w' h =
      let (before, after, got, made, there, values_kept, owners_kept) =
        writes.written kind name (mutate api ba values) w w' h in
      let (same, owned) = mutate-ok values before after made in
      let still : is_owned_by_bucket_access got ba ≡ true =
        ap (is_owned_by_uid ba.uid) owners_kept ∙ owned in
      (got, there, values_kept ∙ same, still)

  after_config_map-ok :
      (name : String) (r : W × Result (CosiError E) (Unit {0})) (w' : W)
      → after_config_map api ba name r ≡ (w', ok tt)
      → r ≡ (w', ok tt)
  unfolding after_config_map rolled_back
  after_config_map-ok name (w, ok _) w' h = cc
  after_config_map-ok name (w, err e) w' h = at (rollback_flat_secret api ba name w) h
    where
      at :
          (s : W × Result E (Unit {0}))
          → rolled_back api ba e s ≡ (w', ok tt)
          → ◌≡◌ {A = W × Result (CosiError E) (Unit {0})} (w, err e) (w', ok tt)
      at (v, ok _) q = absurd (ground arith)
      at (v, err rb) q = absurd (ground arith)

  -- Both objects hold their part.
  abbrev pub HoldsPair : String → FlatData → W → Type 0
  HoldsPair name flat w =
      Holds secret name (secret_values flat) w × Holds config_map name (config_values flat) w

  ensure_flat_pair-HoldsPair :
      (name : String) (flat : FlatData) (w w' : W)
      → ensure_flat_pair api ba name flat w ≡ (w', ok tt)
      → HoldsPair name flat w'
  unfolding ensure_flat_pair ensure_flat_secret config_map_or_rollback ensure_flat_config_map
  ensure_flat_pair-HoldsPair name flat w w' h =
      let (v, _u, first, second) =
        resume-ok (λ _. config_map_or_rollback api ba name flat)
          (ensure_flat_secret api ba name flat w) w' tt h in
      let config = after_config_map-ok name (ensure_flat_config_map api ba name flat v) w' second in
      let (sec, there, same, owned) =
        create_or_update-Holds secret name (secret_values flat) w v first in
      let still = writes.apart name (mutate api ba (config_values flat)) v ∙ there in
      let now = subst (λ u. api.get secret name u ≡ ok sec) (ap (λ r. r.0) config) still in
      (
        (sec, now, same, owned),
        create_or_update-Holds config_map name (config_values flat) v w' config,
      )

  after_pair-done :
      (r : W × Result (CosiError E) (Unit {0})) (w' : W)
      → after_pair api ba r ≡ (w', ok false)
      → r ≡ (w', ok tt)
  unfolding after_pair
  after_pair-done (w, ok _) w' h = cc
  after_pair-done (w, err e) w' h = absurd (ground arith)

  -- The credentials were there, and what they say is held by the pair.
  abbrev pub Flattened : (String → Result FlattenError FlatData) → W → W → Type 0
  Flattened parse v w' =
      (src : Flat) × (raw : String) × (flat : FlatData) × (api.get secret ba.credentials_secret_name
          v
        ≡ ok src)
      × (lookup "BucketInfo" src.values ≡ some raw)
      × (parse raw ≡ ok flat)
      × HoldsPair (flat_name ba.credentials_secret_name) flat w'

  flatten_parsed-Flattened :
      (parse : String → Result FlattenError FlatData) (v w' : W) (src : Flat) (raw : String)
      (p : Result FlattenError FlatData)
      → api.get secret ba.credentials_secret_name v ≡ ok src
      → lookup "BucketInfo" src.values ≡ some raw
      → parse raw ≡ p
      → flatten_parsed api ba (flat_name ba.credentials_secret_name) p v ≡ (w', ok false)
      → Flattened parse v w'
  unfolding flatten_parsed
  flatten_parsed-Flattened parse v w' src raw (err e) read found same q = absurd (ground arith)
  flatten_parsed-Flattened parse v w' src raw (ok flat) read found same q =
      let name = flat_name ba.credentials_secret_name in
      let pair = after_pair-done (ensure_flat_pair api ba name flat v) w' q in
      (src, raw, flat, read, found, same, ensure_flat_pair-HoldsPair name flat v w' pair)

  flatten_secret-Flattened :
      (parse : String → Result FlattenError FlatData) (v w' : W) (r : Result E Flat)
      → api.get secret ba.credentials_secret_name v ≡ r
      → flatten_secret api ba parse (flat_name ba.credentials_secret_name) r v ≡ (w', ok false)
      → Flattened parse v w'
  unfolding flatten_secret
  flatten_secret-Flattened parse v w' (err e) read h = absurd (ground arith)
  flatten_secret-Flattened parse v w' (ok src) read h = at (lookup "BucketInfo" src.values) refl h
    where
      name : String
      name = flat_name ba.credentials_secret_name

      parsed :
          (raw : String) (p : Result FlattenError FlatData)
          → lookup "BucketInfo" src.values ≡ some raw
          → parse raw ≡ p
          → flatten_parsed api ba name p v ≡ (w', ok false)
          → Flattened parse v w'
      parsed raw p found same q = flatten_parsed-Flattened parse v w' src raw p read found same q

      at :
          (o : Option String)
          → lookup "BucketInfo" src.values ≡ o
          → (elim o as (λ _. W × Result (CosiError E) Bool) [
            | none ↦ (v, ok true)
            | some raw ↦ flatten_parsed api ba name (parse raw) v
          ])
            ≡ (w', ok false)
          → Flattened parse v w'
      at none found q = absurd (ground arith)
      at (some raw) found q = parsed raw (parse raw) found refl q

-- A reconcile of the flattener that succeeds and does not ask to be run again, for a BucketAccess that
-- wants the flat objects and names its credentials, has first cleaned up with success, has then read the
-- credentials in the state that the cleanup left, and leaves the Secret and the ConfigMap side by side, both owned by the BucketAccess, with the values that
-- the credentials were parsed into.
pub reconcile_bucket_access-HoldsPair :
    {W E : Type 0}
    → (api : CosiApi W E) (ba : BucketAccess) (writes : Writes api ba)
      (parse : String → Result FlattenError FlatData) (w w' : W)
    → want_flatten ba.annotations ≡ true
    → ba.credentials_secret_name ≢ ""
    → reconcile_bucket_access api ba parse w ≡ (w', ok false)
    → (v : W) × (delete_owned_flat_pair api ba (flat_name ba.credentials_secret_name) w
        ≡ (v, ok tt))
      × Flattened api ba writes parse v w'
unfolding reconcile_bucket_access read_and_flatten
reconcile_bucket_access-HoldsPair {W} {E} api ba writes parse w w' want named h =
    let no_cred : str_eq ba.credentials_secret_name "" ≡ false =
      ground (arith, str_eq_iff ba.credentials_secret_name "") in
    let run =
      subst
        (λ b.
          (if not b
              then delete_owned_flat_pair api ba "" >> done false
              else if str_eq ba.credentials_secret_name ""
              then done true
              else delete_owned_flat_pair api ba (flat_name ba.credentials_secret_name)
                >> read_and_flatten api ba parse)
            w
          ≡ (w', ok false))
        want h in
    let run' =
      subst
        (λ b.
          (if b
              then done true
              else delete_owned_flat_pair api ba (flat_name ba.credentials_secret_name)
                >> read_and_flatten api ba parse)
            w
          ≡ (w', ok false))
        no_cred run in
    let (v, _u, cleaned, rest) =
      resume-ok (λ _. read_and_flatten api ba parse)
        (delete_owned_flat_pair api ba (flat_name ba.credentials_secret_name) w) w' false run' in
    (
      v,
      cleaned,
      flatten_secret-Flattened api ba writes parse v w'
          (api.get secret ba.credentials_secret_name v) refl rest,
    )
