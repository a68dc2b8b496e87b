-- ===== src/Spec/Durations/Pattern.antt =====
-- The texts that `vastDurationRe` matches.
use vast_csi.Prelude.{
  ℕ, ◌≤◌, ◌≡◌, refl, sym, ap, subst, ◌↔◌, true, List, [], ◌∷◌, ◌++◌, ◌&&◌, All, Among, arith,
  Bool-cases, inl, inr,
}
use vast_csi.Spec.Durations.{codes, is_digit, is_unit, is_nil, match_tail, match_duration}
use vast_csi.Spec.Durations.Laws.{match_tail_iff}

-- Between 0 and 9.
abbrev pub IsDigit : ℕ → Type 0
IsDigit c = (b'0' ≤ c) × (c ≤ b'9')

-- At least one digit, and then one of the letters for units.
abbrev pub IsDurationText : List ℕ → Type 0
IsDurationText s =
    (d : ℕ) × (ds : List ℕ) × (u : ℕ) × (s ≡ d ∷ (ds ++ u ∷ []))
    × All IsDigit (d ∷ ds)
    × Among u (codes "sSmMhHdDwWyY")

unit-Among : (u : ℕ) → (is_unit u ≡ true) ↔ Among u (codes "sSmMhHdDwWyY")
unfolding is_unit
unit-Among u = (λ h. ground arith, λ h. ground arith)

is_digit_iff : (c : ℕ) → (is_digit c ≡ true) ↔ IsDigit c
unfolding is_digit
is_digit_iff c = (λ h. (ground arith, ground arith), λ (a, b). ground arith)

digits-All : (ds : List ℕ) → All IsDigit ds → All (λ c. is_digit c ≡ true) ds
digits-All [] h = tt
digits-All (d ∷ ds) (h, hs) = ((is_digit_iff d).1 h, digits-All ds hs)

match_tail-parts :
    (s : List ℕ)
    → match_tail s ≡ true
    → (ds : List ℕ) × (u : ℕ) × (s ≡ ds ++ u ∷ []) × All IsDigit ds × (is_unit u ≡ true)
unfolding match_tail
match_tail-parts [] h = absurd (ground arith)
match_tail-parts (c ∷ cs) h = elim (Bool-cases (is_digit c && match_tail cs)) [
  | inl e ↦
      let (ds, u, same, digits, unit) = match_tail-parts cs (ground arith) in
      (c ∷ ds, u, ap (λ t. c ∷ t) same, ((is_digit_iff c).0 (ground arith), digits), unit)
  | inr e ↦ at cs (ground arith) (ground arith)
]
  where
    at :
        (t : List ℕ)
        → is_unit c ≡ true
        → is_nil t ≡ true
        → (ds : List ℕ) × (u : ℕ) × (c ∷ t ≡ ds ++ u ∷ []) × All IsDigit ds × (is_unit u ≡ true)
    at [] unit e = ([], c, refl, tt, unit)
    at (x ∷ t) unit e = absurd (ground arith)

pub match_duration-IsDurationText : (s : List ℕ) → (match_duration s ≡ true) ↔ IsDurationText s
unfolding match_duration
match_duration-IsDurationText s = (to s, from s)
  where
    to : (s : List ℕ) → match_duration s ≡ true → IsDurationText s
    to [] h = absurd (ground arith)
    to (c ∷ cs) h =
        let (ds, u, same, digits, unit) = match_tail-parts cs (ground arith) in
        (
          c,
          ds,
          u,
          ap (λ t. c ∷ t) same,
          ((is_digit_iff c).0 (ground arith), digits),
          (unit-Among u).0 unit,
        )

    from : (s : List ℕ) → IsDurationText s → match_duration s ≡ true
    from s (d, ds, u, same, (digit, digits), unit) =
        let tail = match_tail_iff ds u (digits-All ds digits) ((unit-Among u).1 unit) in
        let first = (is_digit_iff d).1 digit in
        subst (λ t. match_duration t ≡ true) (sym same) (ground (arith, tail, first))
