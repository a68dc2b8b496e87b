-- ===== src/Controller/Remap/Settled.antt =====
-- A remap is done once: what it has patched needs no other one.
use vast_csi.Prelude.{
  String, false, ◌≡◌, refl, sym, ap, ◌∙◌, Option, none, some, List, [], ◌∷◌, map, Result, ok, err,
  str_eq, str_eq_refl, str_eq_comm, subst, lookup, has, IsDistinct, Among, arith, inl, inr,
  if◌then◌else◌,
}
use vast_csi.Controller.Remap.{Pvc, Volume, RemapApi, Table, siblings_of, build_sibling_remap_table}
use vast_csi.Controller.Remap.Pods.{
  new_claim, note_volume, volumes_from, volumes_needing_remap, note_update, to_update,
}
use vast_csi.Controller.Remap.Laws.{
  or_else, or_else-none, claimed_by_pvc, claimed_by_listed, primary_for,
  lookup-build_sibling_remap_table,
}

abbrev pub with_claim : Volume → Option String → Volume
with_claim v none = v
with_claim v (some claim) = record v { claim = some claim }

-- What the API server makes of a volume under a merge by name.
abbrev pub overlay : List (String × String) → Volume → Volume
overlay updates v = with_claim v (lookup v.name updates)

-- A volume with its claim moved to the primary.
abbrev pub moved : Table → Volume → Volume
moved table v = with_claim v (new_claim table v)

abbrev pub names : List Volume → List String
names vs = map (λ v. v.name) vs

lookup-note_update :
    (v : Volume) (o : Option String) (updates : List (String × String)) (name : String)
    → lookup name (note_update v o updates)
      ≡ (if str_eq v.name name then or_else o (lookup name updates) else lookup name updates)
unfolding note_update lookup
lookup-note_update v none updates name = ground arith
lookup-note_update v (some c) updates name = ground arith

lookup-to_update-none :
    (table : Table) (vs : List Volume) (name : String)
    → has name (names vs) ≡ false
    → lookup name (to_update table vs) ≡ none
unfolding to_update lookup has note_update
lookup-to_update-none table [] name h = refl
lookup-to_update-none table (v ∷ vs) name h = ground (
  arith,
  lookup-to_update-none table vs name,
  lookup-note_update v (new_claim table v) (to_update table vs) name,
)

Among-has :
    (name : String) (vs : List Volume) (v : Volume)
    → has name (names vs) ≡ false
    → Among v vs
    → str_eq name v.name ≡ false
unfolding has
Among-has name [] v h among = elim among [ ]
Among-has name (u ∷ vs) v h (inl same) =
    let here : str_eq u.name name ≡ false = ground arith in
    let there = subst (λ z. str_eq z.name name ≡ false) same here in str_eq_comm name v.name ∙ there
Among-has name (u ∷ vs) v h (inr among) = Among-has name vs v (ground arith) among

lookup-to_update :
    (table : Table) (vs : List Volume) (v : Volume)
    → IsDistinct (names vs)
    → Among v vs
    → lookup v.name (to_update table vs) ≡ new_claim table v
unfolding to_update
lookup-to_update table [] v d among = elim among [ ]
lookup-to_update table (u ∷ vs) v d (inl same) =
    let absent = lookup-to_update-none table vs u.name d.0 in
    let at_u : lookup u.name (to_update table (u ∷ vs)) ≡ new_claim table u =
      lookup-note_update u (new_claim table u) (to_update table vs) u.name
      ∙ rw (str_eq_refl u.name, absent) (or_else-none (new_claim table u)) in
    subst (λ z. lookup z.name (to_update table (u ∷ vs)) ≡ new_claim table z) same at_u
lookup-to_update table (u ∷ vs) v d (inr among) =
    let other = Among-has u.name vs v d.0 among in
    lookup-note_update u (new_claim table u) (to_update table vs) v.name
    ∙ rw other (lookup-to_update table vs v d.1 among)

-- What the patch makes of each volume of the workload.
overlay-moved :
    (table : Table) (vs us : List Volume)
    → IsDistinct (names vs)
    → ((v : Volume) → Among v us → Among v vs)
    → map (overlay (to_update table vs)) us ≡ map (moved table) us
overlay-moved table vs [] d sub = refl
overlay-moved table vs (u ∷ us) d sub =
    let rest = overlay-moved table vs us d (λ v m. sub v (inr m)) in
    let here = lookup-to_update table vs u d (sub u (inl refl)) in cc (ap (with_claim u) here, rest)

new_claim-some :
    (table : Table) (v : Volume) (c : String)
    → new_claim table v ≡ some c
    → (claim : String) × (lookup claim table ≡ some c)
unfolding new_claim
new_claim-some table v c e = at v.claim e
  where
    at :
        (o : Option String)
        → (elim o as (λ _. Option String) [ none ↦ none | some claim ↦ lookup claim table ])
          ≡ some c
        → (claim : String) × (lookup claim table ≡ some c)
    at none e = absurd cc
    at (some claim) e = (claim, e)

new_claim-moved :
    (table : Table) (v : Volume)
    → ((claim v : String) → lookup claim table ≡ some v → lookup v table ≡ none)
    → new_claim table (moved table v) ≡ none
unfolding new_claim
new_claim-moved table v once = at (new_claim table v) refl
  where
    at : (o : Option String) → new_claim table v ≡ o → new_claim table (with_claim v o) ≡ none
    at none e = e
    at (some c) e = let (claim, e') = new_claim-some table v c e in once claim c e'

volumes_from-moved :
    (table : Table) (vs : List Volume)
    → ((claim v : String) → lookup claim table ≡ some v → lookup v table ≡ none)
    → volumes_from table (map (moved table) vs) [] ≡ []
unfolding volumes_from note_volume
volumes_from-moved table [] once = refl
volumes_from-moved table (v ∷ vs) once =
    let rest = volumes_from-moved table vs once in
    let still = new_claim-moved table v once in
    ap (λ o. volumes_from table (map (moved table) vs) (note_volume (moved table v) o [])) still
    ∙ rest

module _ {W E : Type 0} (api : RemapApi W E) (ns : String) where
  -- No primary of the list is a sibling of another one.
  abbrev pub AreApart : List String → Type 0
  AreApart refs =
      (ref other : String) (p : Pvc)
      → Among ref refs
      → Among other refs
      → api.get_pvc ns ref ≡ ok p
      → claimed_by_pvc api ns p.name (api.get_pvc ns other) ≡ none

  claimed_by_pvc-some :
      (claim v : String) (r : Result E Pvc)
      → claimed_by_pvc api ns claim r ≡ some v
      → (p : Pvc) × (r ≡ ok p) × (p.name ≡ v)
  claimed_by_pvc-some claim v (err e) h = absurd cc
  claimed_by_pvc-some claim v (ok p) h = (p, refl, at (siblings_of api ns p) h)
    where
      at : (s : Result E (List Pvc)) → claimed_by_listed api ns p claim s ≡ some v → p.name ≡ v
      at (err e) h = absurd cc
      at (ok siblings) h = ground arith

  primary_for-Among :
      (refs : List String) (claim v : String)
      → primary_for api ns claim refs ≡ some v
      → (ref : String) × (p : Pvc) × Among ref refs × (api.get_pvc ns ref ≡ ok p) × (p.name ≡ v)
  unfolding primary_for
  primary_for-Among [] claim v h = absurd cc
  primary_for-Among (ref ∷ refs) claim v h =
      at (primary_for-Among refs claim v) (primary_for api ns claim refs) refl h
    where
      at :
          (primary_for api ns claim refs ≡ some v
            → (r : String) × (p : Pvc) × Among r refs × (api.get_pvc ns r ≡ ok p) × (p.name ≡ v))
          → (o : Option String) → primary_for api ns claim refs ≡ o
          → or_else o (claimed_by_pvc api ns claim (api.get_pvc ns ref)) ≡ some v
          → (r : String) × (p : Pvc) × Among r (ref ∷ refs)
            × (api.get_pvc ns r ≡ ok p)
            × (p.name ≡ v)
      at later (some u) e q = let (r, p, m, get, name) = later (e ∙ q) in (r, p, inr m, get, name)
      at later none e q =
          let (p, get, name) = claimed_by_pvc-some claim v (api.get_pvc ns ref) q in
          (ref, p, inl refl, get, name)

  primary_for-none :
      (refs : List String) (claim : String)
      → ((ref : String) → Among ref refs → claimed_by_pvc api ns claim (api.get_pvc ns ref) ≡ none)
      → primary_for api ns claim refs ≡ none
  unfolding primary_for
  primary_for-none [] claim h = refl
  primary_for-none (ref ∷ refs) claim h =
      let rest = primary_for-none refs claim (λ r m. h r (inr m)) in
      let here = h ref (inl refl) in rw (rest, here) refl

  -- Where no primary is a sibling of another, a patch with the table that was built moves each volume of
  -- a workload whose claim is a sibling to the primary, leaves every other volume, and needs no second
  -- remap. It is stated for volumes with different names and for an API server that merges by name.
  pub remap_settles :
      (merge : List Volume → List (String × String) → List Volume)
      → ((vs : List Volume) (updates : List (String × String))
          → merge vs updates ≡ map (overlay updates) vs)
      → (refs : List String) (table : Table) (vs : List Volume) → AreApart refs
      → build_sibling_remap_table api ns refs ≡ ok table
      → IsDistinct (names vs)
      → (merge vs (to_update table vs) ≡ map (moved table) vs)
        × (volumes_needing_remap (merge vs (to_update table vs)) table ≡ [])
  unfolding volumes_needing_remap
  remap_settles merge merges refs table vs apart built d =
      let same = merges vs (to_update table vs) ∙ overlay-moved table vs vs d (λ v m. m) in
      (same, ap (λ us. volumes_from table us []) same ∙ volumes_from-moved table vs once)
    where
      once : (claim v : String) → lookup claim table ≡ some v → lookup v table ≡ none
      once claim v e =
          let found = sym (lookup-build_sibling_remap_table api ns refs table claim built) ∙ e in
          let (ref, p, m, get, name) = primary_for-Among refs claim v found in
          lookup-build_sibling_remap_table api ns refs table v built
          ∙ primary_for-none refs v (λ other m'.
            subst (λ z. claimed_by_pvc api ns z (api.get_pvc ns other) ≡ none) name
              (apart ref other p m m' get))
