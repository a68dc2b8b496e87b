-- ===== src/Prelude/Dict.antt =====
-- Go maps with string keys, as association lists with one entry for each key that `insert` adds.
use Prim.Native.String.{String}
use mathlib.Core.Path.{◌≡◌, refl}
use mathlib.Core.List.{List, [], ◌∷◌, ◌++◌}
use mathlib.Core.Bool.{Bool, true, false}
use mathlib.Core.Option.{Option, none, some}
use native.Mathlib.Omega.{arith}
use vast_csi.Prelude.Tests.{str_eq, str_eq_iff, if◌then◌else◌}

module _ {ℓ} {V : Type ℓ} where
  -- `value, ok := entries[key]`
  unfoldable pub lookup : String → List (String × V) → Option V
  lookup key [] = none
  lookup key (entry ∷ more) = if str_eq entry.0 key then some entry.1 else lookup key more

  -- `entries[key] = value`
  unfoldable pub insert : String → V → List (String × V) → List (String × V)
  insert key value [] = (key, value) ∷ []
  insert key value (entry ∷ more) =
      if str_eq entry.0 key then (key, value) ∷ more else entry ∷ insert key value more

  pub lookup-insert :
      (key asked : String) (value : V) (entries : List (String × V))
      → lookup asked (insert key value entries)
        ≡ (if str_eq key asked then some value else lookup asked entries)
  unfolding lookup insert
  lookup-insert key asked value [] = refl
  lookup-insert key asked value (entry ∷ more) =
      let rest = lookup-insert key asked value more in
      ground (arith, str_eq_iff entry.0 key, str_eq_iff key asked, str_eq_iff entry.0 asked)

-- `_, ok := m[k]`
abbrev pub has_key {ℓ} : {V : Type ℓ} → String → List (String × V) → Bool
has_key k m = elim (lookup k m) [ none ↦ false | some _ ↦ true ]

-- `m[k]` where an absent key reads as the empty string.
abbrev pub get_str : String → List (String × String) → String
get_str k m = elim (lookup k m) [ none ↦ "" | some v ↦ v ]

module _ {A : Type 0} where
  -- `m[k]` where an absent key reads as the empty slice.
  unfoldable pub or_nil : Option (List A) → List A
  or_nil none = []
  or_nil (some xs) = xs

  unfoldable pub get_list : String → List (String × List A) → List A
  get_list k m = or_nil (lookup k m)

  pub get_list-nil : (k : String) → get_list k [] ≡ []
  unfolding get_list or_nil lookup
  get_list-nil k = refl

  -- `m[k] = append(m[k], x)`
  unfoldable pub append_to : String → A → List (String × List A) → List (String × List A)
  append_to k x m = insert k (get_list k m ++ (x ∷ [])) m

  pub get_list-append_to :
      (k j : String) (x : A) (m : List (String × List A))
      → get_list j (append_to k x m)
        ≡ (if str_eq k j then get_list j m ++ (x ∷ []) else get_list j m)
  unfolding append_to get_list or_nil
  get_list-append_to k j x m =
      ground (arith, str_eq_iff k j, lookup-insert k j (get_list k m ++ (x ∷ [])) m)
