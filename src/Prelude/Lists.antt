-- ===== src/Prelude/Lists.antt =====
-- Lists under native numbers, predicates on lists, and lists of names read as sets.
use Prim.Native.Nat.{ℕ, suc}
use Prim.Native.String.{String}
use mathlib.Core.Path.{◌≡◌, refl, ap}
use mathlib.Core.Bool.{Bool, true, false, ◌&&◌, ◌||◌}
use mathlib.Core.Logic.{◌⊎◌, inl, inr}
use mathlib.Core.List.{List, [], ◌∷◌, ◌++◌}
use native.Mathlib.Omega.{arith}
use vast_csi.Prelude.Tests.{str_eq, str_eq_iff, str_eq_refl, if◌then◌else◌, Bool-cases}

module _ {ℓ} {A : Type ℓ} where
  abbrev pub length : List A → ℕ
  length [] = 0
  length (x ∷ xs) = suc (length xs)

  -- The elements that pass a test, in order.
  abbrev pub keep_if : (A → Bool) → List A → List A
  keep_if p [] = []
  keep_if p (x ∷ xs) = if p x then x ∷ keep_if p xs else keep_if p xs

  abbrev pub any : (A → Bool) → List A → Bool
  any p [] = false
  any p (x ∷ xs) = p x || any p xs

module _ {ℓ κ} {A : Type ℓ} (P : A → Type κ) where
  -- Every element satisfies `P`.
  abbrev pub All : List A → Type κ
  All [] = Unit
  All (x ∷ xs) = P x × All xs

pub All-map :
    {P Q : String → Type 0} (xs : List String) → ((x : String) → P x → Q x) → All P xs → All Q xs
All-map [] f p = tt
All-map (x ∷ xs) f (p, ps) = (f x p, All-map xs f ps)

-- Some element satisfies `P`, and the position is kept.
abbrev pub Any {ℓ} : {A : Type ℓ} → (A → Type 0) → List A → Type 0
Any P [] = ⊥
Any P (x ∷ xs) = P x ⊎ Any P xs

-- Two lists of the same length, related element by element.
abbrev pub Pairwise : {A B : Type 0} → (A → B → Type 0) → List A → List B → Type 0
Pairwise R [] [] = Unit
Pairwise R (x ∷ xs) (y ∷ ys) = R x y × Pairwise R xs ys
Pairwise R [] (y ∷ ys) = ⊥
Pairwise R (x ∷ xs) [] = ⊥

-- `x` is an element of the list.
abbrev pub Among : {A : Type 0} → A → List A → Type 0
Among x [] = ⊥
Among x (y ∷ ys) = (y ≡ x) ⊎ Among x ys

module _ {A B : Type 0} (R S : A → B → Type 0) where
  pub Pairwise-map :
      (xs : List A) (ys : List B)
      → ((x : A) (y : B) → Among x xs → R x y → S x y)
      → Pairwise R xs ys
      → Pairwise S xs ys
  Pairwise-map [] [] f p = tt
  Pairwise-map [] (y ∷ ys) f p = p
  Pairwise-map (x ∷ xs) [] f p = p
  Pairwise-map (x ∷ xs) (y ∷ ys) f (r, p) =
      (f x y (inl refl) r, Pairwise-map xs ys (λ a b m. f a b (inr m)) p)

-- `k` stands in the list.
abbrev pub In : String → List String → Type 0
In k xs = Any (λ x. x ≡ k) xs

-- Membership in a Go `map[string]struct{}`, kept as the list of its keys.
unfoldable pub has : String → List String → Bool
has k [] = false
has k (x ∷ xs) = str_eq x k || has k xs

pub has→In : (k : String) (xs : List String) → has k xs ≡ true → In k xs
unfolding has
has→In k [] h = cc
has→In k (x ∷ xs) h = ground (arith, str_eq_iff x k, has→In k xs)

pub In→has : (k : String) (xs : List String) → In k xs → has k xs ≡ true
unfolding has
In→has k [] h = elim h [ ]
In→has k (x ∷ xs) (inl e) = ground (arith, str_eq_iff x k)
In→has k (x ∷ xs) (inr h) = ground (arith, In→has k xs h)

-- `seen[k] = struct{}{}`
unfoldable pub add : String → List String → List String
add k xs = if has k xs then xs else k ∷ xs

pub has-add : (k j : String) (xs : List String) → has j (add k xs) ≡ (str_eq k j || has j xs)
unfolding add has
has-add k j xs = ground (arith, str_eq_iff k j)

pub has-++ : (k : String) (xs ys : List String) → has k (xs ++ ys) ≡ (has k xs || has k ys)
unfolding has
has-++ k [] ys = refl
has-++ k (x ∷ xs) ys = ground (arith, has-++ k xs ys)

-- No element stands twice.
abbrev pub IsDistinct : List String → Type 0
IsDistinct [] = Unit
IsDistinct (x ∷ xs) = (has x xs ≡ false) × IsDistinct xs

pub add-IsDistinct : (k : String) (xs : List String) → IsDistinct xs → IsDistinct (add k xs)
unfolding add
add-IsDistinct k xs h = ground arith

pub has-keep_if :
    (p : String → Bool) (k : String) (xs : List String) → has k (keep_if p xs) ≡ (has k xs && p k)
unfolding has
has-keep_if p k [] = refl
has-keep_if p k (x ∷ xs) = elim (Bool-cases (str_eq x k)) [
  | inl e ↦
      let same = (str_eq_iff x k).0 e in
      let here : p x ≡ p k = ap p same in ground (arith, has-keep_if p k xs)
  | inr e ↦ ground (arith, has-keep_if p k xs)
]

pub keep_if-IsDistinct :
    (p : String → Bool) (xs : List String) → IsDistinct xs → IsDistinct (keep_if p xs)
keep_if-IsDistinct p [] d = tt
keep_if-IsDistinct p (x ∷ xs) (n, d) = elim (Bool-cases (p x)) [
  | inl e ↦ rw e (ground (arith, has-keep_if p x xs), keep_if-IsDistinct p xs d)
  | inr e ↦ rw e (keep_if-IsDistinct p xs d)
]

-- A set with one member.
pub singleton_of_has :
    (x : String) (xs : List String)
    → IsDistinct xs
    → ((k : String) → has k xs ≡ true → k ≡ x)
    → has x xs ≡ true
    → xs ≡ x ∷ []
unfolding has
singleton_of_has x [] d only h = cc
singleton_of_has x (y ∷ []) d only h = ap (λ z. z ∷ []) (only y (ground (arith, str_eq_refl y)))
singleton_of_has x (y ∷ z ∷ zs) (n, _) only h =
    let first = only y (ground (arith, str_eq_refl y)) in
    let second = only z (ground (arith, str_eq_refl z)) in ground (arith, str_eq_iff z y)
