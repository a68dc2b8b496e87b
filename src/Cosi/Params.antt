-- ===== src/Cosi/Params.antt =====
-- internal/common/cosi/parameters.go.
use vast_csi.Prelude.{
  String, false, not, ◌||◌, ◌&&◌, ◌≡◌, refl, ap, subst, map, has, IsDistinct, Bool-cases, inl, inr,
  ◌∙◌, Option, none, some, List, [], ◌∷◌, str_eq, str_eq_iff, insert, lookup, lookup-insert,
  get_str, arith, if◌then◌else◌,
}
use vast_csi.K8s.{has_prefix}

unfoldable pub params_into :
    List (String × String) → List (String × String) → List (String × String)
params_into [] out = out
params_into ((key, value) ∷ annotations) out = params_into annotations (
    if not (has_prefix key "cosi.vastdata.com/") || str_eq value ""
    then out
    else insert key value out)

unfoldable pub params_from_claim_annotations : List (String × String) → List (String × String)
params_from_claim_annotations annotations = params_into annotations []

unfoldable pub copy_into : List (String × String) → List (String × String) → List (String × String)
copy_into [] merged = merged
copy_into ((k, v) ∷ params) merged = copy_into params (insert k v merged)

unfoldable pub merge_parameters :
    List (String × String) → List (String × String) → List (String × String)
merge_parameters class_params claim_params = copy_into claim_params (copy_into class_params [])

unfoldable pub secret_ref_from_parameters : List (String × String) → Option (String × String)
secret_ref_from_parameters params =
    let name = get_str "vastdata.com/secret-name" params in
    let namespace = get_str "vastdata.com/secret-namespace" params in
    if str_eq name "" && str_eq namespace "" then none else some (name, namespace)

-- `later` before `earlier`.
abbrev pub first_of : Option String → Option String → Option String
first_of (some v) o = some v
first_of none o = o

first_of-none : (o : Option String) → first_of o none ≡ o
first_of-none none = refl
first_of-none (some v) = refl

lookup-none_of_has :
    (params : List (String × String)) (key : String)
    → has key (map (λ p. p.0) params) ≡ false
    → lookup key params ≡ none
unfolding lookup has
lookup-none_of_has [] key h = refl
lookup-none_of_has ((k, v) ∷ params) key h = ground (arith, lookup-none_of_has params key)

lookup-copy_into :
    (params merged : List (String × String)) (key : String)
    → IsDistinct (map (λ p. p.0) params)
    → lookup key (copy_into params merged) ≡ first_of (lookup key params) (lookup key merged)
unfolding copy_into lookup
lookup-copy_into [] merged key d = refl
lookup-copy_into ((k, v) ∷ params) merged key d =
    let rest =
      lookup-copy_into params (insert k v merged) key d.1
      ∙ ap (first_of (lookup key params)) (lookup-insert k key v merged) in
    elim (Bool-cases (str_eq k key)) [
      | inl e ↦
          let same = (str_eq_iff k key).0 e in
          let absent =
            lookup-none_of_has params key
              (subst (λ s. has s (map (λ p. p.0) params) ≡ false) same d.0) in
          let now = rw (e, absent) at rest in rw e now
      | inr e ↦ let now = rw e at rest in rw e now
    ]

-- The parameters of a bucket are those of its claim where the claim gives them, and else those of its
-- class. It is stated for parameters with different keys, as Go maps have.
pub lookup-merge_parameters :
    (class_params claim_params : List (String × String)) (key : String)
    → IsDistinct (map (λ p. p.0) class_params)
    → IsDistinct (map (λ p. p.0) claim_params)
    → lookup key (merge_parameters class_params claim_params)
      ≡ first_of (lookup key claim_params) (lookup key class_params)
unfolding merge_parameters lookup
lookup-merge_parameters class_params claim_params key d e =
    lookup-copy_into claim_params (copy_into class_params []) key e
    ∙ ap (first_of (lookup key claim_params))
        (lookup-copy_into class_params [] key d ∙ first_of-none (lookup key class_params))
