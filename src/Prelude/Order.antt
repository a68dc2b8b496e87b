-- ===== src/Prelude/Order.antt =====
-- Go's order of strings, and sorting by it. `sort.Strings` is modelled by insertion.
use Prim.Native.Nat.{ℕ, Ordering, compare as compare_ℕ}
use Prim.Native.Char.{code}
use Prim.Native.String
use Prim.Native.String.{String, then as and_then}
use Prim.Native.String.compare
use mathlib.Core.Path.{◌≡◌, refl, sym, subst, ◌∙◌}
use mathlib.Core.Bool.{Bool, true, false, ◌||◌}
use mathlib.Core.Logic.{◌≢◌, inl, inr}
use mathlib.Core.List.{List, [], ◌∷◌}
use native.Mathlib.Omega.{arith}
use text.Mathlib.Text.{is_lt}
use text.Mathlib.TextEquality.{path_by_compare}
use vast_csi.Prelude.Tests.{str_eq, str_eq_iff, str_eq_comm, if◌then◌else◌, Bool-cases}
use vast_csi.Prelude.Lists.{has, IsDistinct, All}

-- Go's `a < b` on strings: lexicographic by bytes, which is the order of the code points.
unfoldable pub str_lt : String → String → Bool
str_lt a b = is_lt (String.compare a b)

abbrev swap : Ordering → Ordering
swap Ordering.lt = Ordering.gt
swap Ordering.eq = Ordering.eq
swap Ordering.gt = Ordering.lt

compare_ℕ-swap : (m n : ℕ) → compare_ℕ n m ≡ swap (compare_ℕ m n)
compare_ℕ-swap m n = ground arith

compare-swap : (s t : String) → String.compare t s ≡ swap (String.compare s t)
compare-swap String.[] String.[] = refl
compare-swap String.[] (String.◌∷◌ d t) = ground (arith, compare.nil-cons d t, compare.cons-nil d t)
compare-swap (String.◌∷◌ c s) String.[] = ground (arith, compare.nil-cons c s, compare.cons-nil c s)
compare-swap (String.◌∷◌ c s) (String.◌∷◌ d t) = ground (
  arith,
  compare.cons-cons c d s t,
  compare.cons-cons d c t s,
  compare_ℕ-swap (code c) (code d),
  compare-swap s t,
)

-- The head of a comparison of three texts, and the tails.
then_trans :
    (a b c : ℕ) (x y z : Ordering)
    → (x ≡ Ordering.lt → y ≡ Ordering.lt → z ≡ Ordering.lt)
    → and_then (compare_ℕ a b) x ≡ Ordering.lt
    → and_then (compare_ℕ b c) y ≡ Ordering.lt
    → and_then (compare_ℕ a c) z ≡ Ordering.lt
then_trans a b c x y z h p q = ground arith

compare_lt_trans :
    (s t u : String)
    → String.compare s t ≡ Ordering.lt
    → String.compare t u ≡ Ordering.lt
    → String.compare s u ≡ Ordering.lt
compare_lt_trans String.[] t String.[] p q = ground (arith, compare-swap t "")
compare_lt_trans String.[] t (String.◌∷◌ e u) p q = compare.nil-cons e u
compare_lt_trans (String.◌∷◌ c s) String.[] u p q = ground (arith, compare.cons-nil c s)
compare_lt_trans (String.◌∷◌ c s) (String.◌∷◌ d t) String.[] p q =
    ground (arith, compare.cons-nil d t)
compare_lt_trans (String.◌∷◌ c s) (String.◌∷◌ d t) (String.◌∷◌ e u) p q =
    compare.cons-cons c e s u
    ∙ then_trans (code c) (code d) (code e) _ _ _ (compare_lt_trans s t u)
        (sym (compare.cons-cons c d s t) ∙ p) (sym (compare.cons-cons d e t u) ∙ q)

pub str_lt_trans : (s t u : String) → str_lt s t ≡ true → str_lt t u ≡ true → str_lt s u ≡ true
unfolding str_lt
str_lt_trans s t u p q = ground (arith, compare_lt_trans s t u)

pub str_lt_total : (s t : String) → s ≢ t → str_lt s t ≡ false → str_lt t s ≡ true
unfolding str_lt
str_lt_total s t n h = ground (arith, compare-swap s t, path_by_compare s t)

pub str_lt_asym : (s t : String) → str_lt s t ≡ true → str_lt t s ≡ false
unfolding str_lt
str_lt_asym s t h = ground (arith, compare-swap s t)

-- Insertion sort by a comparison of Go's `sort.Slice`.
module _ (less : String → String → Bool) where
  unfoldable pub insert_by : String → List String → List String
  insert_by x [] = x ∷ []
  insert_by x (y ∷ ys) = if less x y then x ∷ y ∷ ys else y ∷ insert_by x ys

  unfoldable pub sort_by : List String → List String
  unfolding insert_by
  sort_by [] = []
  sort_by (x ∷ xs) = insert_by x (sort_by xs)

  abbrev pub IsAbove : String → List String → Type 0
  IsAbove x ys = All (λ y. less x y ≡ true) ys

  -- Every element is below all that follow it.
  abbrev pub IsSorted : List String → Type 0
  IsSorted [] = Unit
  IsSorted (x ∷ xs) = IsAbove x xs × IsSorted xs

  has-insert_by :
      (k x : String) (ys : List String) → has k (insert_by x ys) ≡ (str_eq x k || has k ys)
  unfolding insert_by has
  has-insert_by k x [] = refl
  has-insert_by k x (y ∷ ys) = ground (arith, has-insert_by k x ys)

  -- Sorting keeps the elements.
  pub has-sort_by : (k : String) (xs : List String) → has k (sort_by xs) ≡ has k xs
  unfolding sort_by has
  has-sort_by k [] = refl
  has-sort_by k (x ∷ xs) = ground (arith, has-insert_by k x (sort_by xs), has-sort_by k xs)

  IsAbove-insert_by :
      (z x : String) (ys : List String)
      → less z x ≡ true
      → IsAbove z ys
      → IsAbove z (insert_by x ys)
  unfolding insert_by
  IsAbove-insert_by z x [] h a = (h, tt)
  IsAbove-insert_by z x (y ∷ ys) h (b, a) = ground (arith, IsAbove-insert_by z x ys h a)

  insert_by-IsDistinct :
      (x : String) (ys : List String)
      → has x ys ≡ false
      → IsDistinct ys
      → IsDistinct (insert_by x ys)
  unfolding insert_by has
  insert_by-IsDistinct x [] n d = (refl, tt)
  insert_by-IsDistinct x (y ∷ ys) n (m, d) = elim (Bool-cases (less x y)) [
    | inl h ↦ rw h (n, (m, d))
    | inr h ↦ rw h (
      has-insert_by y x ys ∙ ground (arith, str_eq_comm x y),
      insert_by-IsDistinct x ys (ground arith) d,
    )
  ]

  pub sort_by-IsDistinct : (xs : List String) → IsDistinct xs → IsDistinct (sort_by xs)
  unfolding sort_by
  sort_by-IsDistinct [] d = tt
  sort_by-IsDistinct (x ∷ xs) (n, d) =
      insert_by-IsDistinct x (sort_by xs) (has-sort_by x xs ∙ n) (sort_by-IsDistinct xs d)

  pub less_of-IsAbove :
      (x z : String) (ys : List String) → IsAbove x ys → has z ys ≡ true → less x z ≡ true
  unfolding has
  less_of-IsAbove x z [] a h = cc
  less_of-IsAbove x z (y ∷ ys) (b, a) h = elim (Bool-cases (str_eq y z)) [
    | inl e ↦ subst (λ w. less x w ≡ true) ((str_eq_iff y z).0 e) b
    | inr e ↦ less_of-IsAbove x z ys a (ground arith)
  ]

  module _ (less_trans : (a b c : String) → less a b ≡ true → less b c ≡ true → less a c ≡ true)
      (less_total : (a b : String) → a ≢ b → less a b ≡ false → less b a ≡ true) where
    IsAbove-trans :
        (x y : String) (ys : List String) → less x y ≡ true → IsAbove y ys → IsAbove x ys
    IsAbove-trans x y [] h a = tt
    IsAbove-trans x y (z ∷ zs) h (b, a) = (less_trans x y z h b, IsAbove-trans x y zs h a)

    insert_by-IsSorted :
        (x : String) (ys : List String) → has x ys ≡ false → IsSorted ys → IsSorted (insert_by x ys)
    unfolding insert_by has
    insert_by-IsSorted x [] n s = (tt, tt)
    insert_by-IsSorted x (y ∷ ys) n (a, s) = elim (Bool-cases (less x y)) [
      | inl h ↦ rw h ((h, IsAbove-trans x y ys h a), (a, s))
      | inr h ↦ rw h (
        IsAbove-insert_by y x ys (less_total x y (λ e. ground (arith, str_eq_iff y x, sym e)) h) a,
        insert_by-IsSorted x ys (ground arith) s,
      )
    ]

    -- Sorting a list without repetitions gives a strictly sorted one.
    pub sort_by-IsSorted : (xs : List String) → IsDistinct xs → IsSorted (sort_by xs)
    unfolding sort_by
    sort_by-IsSorted [] d = tt
    sort_by-IsSorted (x ∷ xs) (n, d) =
        insert_by-IsSorted x (sort_by xs) (has-sort_by x xs ∙ n) (sort_by-IsSorted xs d)

-- `sort.Strings`
unfoldable pub sort_strings : List String → List String
unfolding sort_by
sort_strings xs = sort_by str_lt xs

pub has-sort_strings : (k : String) (xs : List String) → has k (sort_strings xs) ≡ has k xs
unfolding sort_strings
has-sort_strings k xs = has-sort_by str_lt k xs

pub sort_strings-IsSorted : (xs : List String) → IsDistinct xs → IsSorted str_lt (sort_strings xs)
unfolding sort_strings
sort_strings-IsSorted xs d = sort_by-IsSorted str_lt str_lt_trans str_lt_total xs d

pub sort_strings-IsDistinct : (xs : List String) → IsDistinct xs → IsDistinct (sort_strings xs)
unfolding sort_strings
sort_strings-IsDistinct xs d = sort_by-IsDistinct str_lt xs d
