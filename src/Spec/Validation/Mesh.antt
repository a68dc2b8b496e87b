-- ===== src/Spec/Validation/Mesh.antt =====
-- The mesh test of VastVolumeReplicationSpec: which pairs it reports as missing.
use vast_csi.Prelude.{
  String, true, ◌||◌, ◌≡◌, refl, sym, subst, ◌∙◌, ◌≢◌, ◌↔◌, List, [], ◌∷◌, ◌++◌, arith, str_eq,
  str_eq_iff, str_eq_refl, str_lt_total, str_lt_asym, has, Bool-cases, IsDistinct, inl, inr,
}
use vast_csi.Spec.Validation.{UnorderedPair, norm_pair, has_pair, missing_with, missing_from}

norm_pair_comm : (a b : String) → a ≢ b → norm_pair a b ≡ norm_pair b a
unfolding norm_pair
norm_pair_comm a b n = ground (arith, str_lt_total a b n, str_lt_asym a b)

append-eq-nil : (xs ys : List UnorderedPair) → (xs ++ ys ≡ []) ↔ ((xs ≡ []) × (ys ≡ []))
append-eq-nil [] ys = (λ h. (refl, h), λ h. h.1)
append-eq-nil (x ∷ xs) ys = (λ h. cc, λ (h, _). cc)

module _ (seen : List UnorderedPair) where
  missing_with_iff :
      (a : String) (bs : List String)
      → (missing_with seen a bs ≡ [])
        ↔ ((b : String) → has b bs ≡ true → has_pair (norm_pair a b) seen ≡ true)
  unfolding missing_with has
  missing_with_iff a [] = (λ _ b h. cc, λ _. refl)
  missing_with_iff a (c ∷ cs) =
      let (to, from) = missing_with_iff a cs in
      (
        λ h b m. elim (Bool-cases (str_eq c b)) [
          | inl e ↦
              subst (λ x. has_pair (norm_pair a x) seen ≡ true) ((str_eq_iff c b).0 e)
                (ground arith)
          | inr e ↦ to (ground arith) b (ground arith)
        ],
        λ all.
            let first = all c (ground (arith, str_eq_refl c)) in
            let rest = from (λ b m. all b (ground arith)) in ground arith,
      )

  -- Every two of the names are connected.
  abbrev pub IsMesh : List String → Type 0
  IsMesh xs =
      (a b : String)
      → has a xs ≡ true
      → has b xs ≡ true
      → a ≢ b
      → has_pair (norm_pair a b) seen ≡ true

  -- Without repetitions, no pair is missing exactly when every two of the names are connected.
  pub missing_from_iff :
      (xs : List String) → IsDistinct xs → (missing_from seen xs ≡ []) ↔ IsMesh xs
  unfolding missing_from has
  missing_from_iff [] d = (λ _ a b h. cc, λ _. refl)
  missing_from_iff (x ∷ xs) (n, d) =
      let (to, from) = missing_from_iff xs d in
      let (to_x, from_x) = missing_with_iff x xs in
      let (split, join) = append-eq-nil (missing_with seen x xs) (missing_from seen xs) in
      (
        λ h a b p q ne.
            let (none_x, none_xs) = split h in
            elim (Bool-cases (str_eq x a)) [
              | inl e ↦
                  let at = (str_eq_iff x a).0 e in
                  subst (λ y. has_pair (norm_pair y b) seen ≡ true) at
                    (to_x none_x b (later b q (λ same. ne (sym at ∙ same))))
              | inr e ↦ elim (Bool-cases (str_eq x b)) [
                | inl f ↦
                    let at = (str_eq_iff x b).0 f in
                    subst (λ y. has_pair y seen ≡ true) (norm_pair_comm b a (λ same. ne (sym same)))
                      (subst (λ y. has_pair (norm_pair y a) seen ≡ true) at
                        (to_x none_x a (ground arith)))
                | inr f ↦ to none_xs a b (ground arith) (ground arith) ne
              ]
            ],
        λ all. join (
          from_x (λ b m. all x b (ground (arith, str_eq_refl x)) (ground arith) (λ same. cc)),
          from (λ a b p q ne. all a b (ground arith) (ground arith) ne),
        ),
      )
    where
      later : (b : String) → (str_eq x b || has b xs) ≡ true → x ≢ b → has b xs ≡ true
      later b q ne = ground (arith, str_eq_iff x b)
