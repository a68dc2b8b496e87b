-- ===== src/Cosi/Kept.antt =====
-- The cleanup of the flat objects leaves an object of another owner.
use vast_csi.Prelude.{
  String, true, false, not, ◌&&◌, ◌≡◌, ◌≢◌, refl, sym, subst, ◌∙◌, ◌⊎◌, inl, inr, List, [], ◌∷◌,
  Result, ok, err, str_eq, str_eq_iff, Among, arith, Bool-cases, ok-inj,
}
use vast_csi.Prelude.Triples.{Outcome, Keeps, Keeps->>, Outcome-kept}
use vast_csi.Cosi.Bundle.{
  ObjectKind, secret, config_map, Flat, BucketAccess, CosiError, CosiApi, is_owned_by_bucket_access,
  unless_missing, delete_one, delete_each, delete_listed, delete_owned, delete_owned_flat_pair,
}

-- How the API server treats the object `name` of a kind: another one is written or deleted without it,
-- a list shows it as it is, and it changes under `CreateOrUpdate` only into what the function makes of it.
pub record Serves {W E : Type 0} (api : CosiApi W E) (kind : ObjectKind) (name : String)
    : Type 0 where
  pub listed :
      (uid : String) (w : W) (items : List (String × Flat)) (obj : Flat)
      → api.list_labelled kind uid w ≡ ok items
      → Among (name, obj) items
      → api.get kind name w ≡ ok obj
  pub deleted :
      (k : ObjectKind) (n : String) (w : W)
      → ((k ≡ kind) → n ≢ name)
      → api.get kind name (api.delete k n w).0 ≡ api.get kind name w
  pub written :
      (k : ObjectKind) (n : String) (f : Flat → Result (CosiError E) Flat) (w : W)
      → ((k ≡ kind) → n ≢ name)
      → api.get kind name (api.create_or_update k n f w).0 ≡ api.get kind name w
  pub written_itself :
      (f : Flat → Result (CosiError E) Flat) (w : W) (obj : Flat)
      → api.get kind name w ≡ ok obj
      → (api.get kind name (api.create_or_update kind name f w).0 ≡ ok obj)
        ⊎ ((obj' : Flat) × (f obj ≡ ok obj'))

kind_cases : (a b : ObjectKind) → (a ≡ b) ⊎ (a ≢ b)
kind_cases secret secret = inl refl
kind_cases secret config_map = inr (λ e. cc)
kind_cases config_map secret = inr (λ e. cc)
kind_cases config_map config_map = inl refl

pub same_object :
    (k kind : ObjectKind) (n name : String) → ((k ≡ kind) × (n ≡ name)) ⊎ ((k ≡ kind) → n ≢ name)
same_object k kind n name = elim (kind_cases k kind) [
  | inr other ↦ inr (λ e. absurd (other e))
  | inl same ↦ elim (Bool-cases (str_eq n name)) [
    | inl e ↦ inl (same, (str_eq_iff n name).0 e)
    | inr e ↦ inr (λ k' n'. absurd (ground (arith, str_eq_iff n name)))
  ]
]

pub err-ne-ok : {E A : Type 0} {e : E} {a : A} → ◌≡◌ {A = Result E A} (err e) (ok a) → ⊥
err-ne-ok h = cc

module _ {W E : Type 0} (api : CosiApi W E) (ba : BucketAccess) (kind : ObjectKind) (name : String)
    (obj : Flat) (serves : Serves api kind name)
    (foreign : is_owned_by_bucket_access obj ba ≡ false) (exists : obj.uid ≢ "") where
  abbrev pub IsThere : W → Type 0
  IsThere w = api.get kind name w ≡ ok obj

  pub delete-IsThere :
      (k : ObjectKind) (n : String) (w : W)
      → ((k ≡ kind) → n ≢ name)
      → IsThere w
      → IsThere (api.delete k n w).0
  delete-IsThere k n w other there = serves.deleted k n w other ∙ there

  unless_missing_world : (r : W × Result E (Unit {0})) → (unless_missing api ba r).0 ≡ r.0
  unfolding unless_missing
  unless_missing_world (w, ok _) = refl
  unless_missing_world (w, err e) = refl

  -- What a round must not be about.
  abbrev IsOther : ObjectKind → String × Flat → Type 0
  IsOther k item = is_owned_by_bucket_access item.1 ba ≡ true → (k ≡ kind) → item.0 ≢ name

  delete_one-IsThere :
      (k : ObjectKind) (keep n : String) (o : Flat)
      → IsOther k (n, o)
      → (w : W) → IsThere w
      → IsThere (delete_one api ba k keep (n, o) w).0
  unfolding delete_one
  delete_one-IsThere k keep n o other w there = elim (Bool-cases (is_owned_by_bucket_access o ba)) [
    | inr e ↦ rw e there
    | inl e ↦ elim (Bool-cases (not (str_eq keep "") && str_eq n keep)) [
      | inl f ↦ rw (e, f) there
      | inr f ↦
          let gone = delete-IsThere k n w (other e) there in
          rw (e, f) (subst IsThere (sym (unless_missing_world (api.delete k n w))) gone)
    ]
  ]

  delete_each-Keeps :
      (k : ObjectKind) (keep : String) (items : List (String × Flat))
      → ((item : String × Flat) → Among item items → IsOther k item)
      → Keeps IsThere (delete_each api ba k keep items)
  unfolding delete_each
  delete_each-Keeps k keep [] other = λ w there. there
  delete_each-Keeps k keep ((n, o) ∷ items) other =
      Keeps->> IsThere (delete_one api ba k keep (n, o)) (delete_each api ba k keep items)
        (λ w there.
          Outcome-kept IsThere (delete_one api ba k keep (n, o) w)
            (delete_one-IsThere k keep n o (other (n, o) (inl refl)) w there))
        (delete_each-Keeps k keep items (λ item m. other item (inr m)))

  listed-IsOther :
      (k : ObjectKind) (w : W) (items : List (String × Flat))
      → IsThere w
      → api.list_labelled k ba.uid w ≡ ok items
      → (item : String × Flat) → Among item items
      → IsOther k item
  listed-IsOther k w items there shown (n, o) m owned e same =
      let shown' = subst (λ k'. api.list_labelled k' ba.uid w ≡ ok items) e shown in
      let m' = subst (λ n'. Among (n', o) items) same m in
      let it = serves.listed ba.uid w items o shown' m' in
      let twice : o ≡ obj = ok-inj (sym it ∙ there) in
      cc (subst (λ x. is_owned_by_bucket_access x ba ≡ true) twice owned, foreign)

  delete_owned-Keeps : (k : ObjectKind) (keep : String) → Keeps IsThere (delete_owned api ba k keep)
  unfolding delete_owned delete_listed
  delete_owned-Keeps k keep w there = at (api.list_labelled k ba.uid w) refl
    where
      at :
          (r : Result E (List (String × Flat)))
          → api.list_labelled k ba.uid w ≡ r
          → Outcome {A = Unit {0}} (λ _. IsThere) IsThere (delete_listed api ba k keep r w)
      at (ok items) shown =
          delete_each-Keeps k keep items (listed-IsOther k w items there shown) w there
      at (err e) shown = there

  pub delete_owned_flat_pair-Keeps :
      (keep : String) → Keeps IsThere (delete_owned_flat_pair api ba keep)
  unfolding delete_owned_flat_pair
  delete_owned_flat_pair-Keeps keep =
      Keeps->> IsThere (delete_owned api ba secret keep) (delete_owned api ba config_map keep)
        (delete_owned-Keeps secret keep) (delete_owned-Keeps config_map keep)
