-- ===== src/Scenarios/Contents.antt =====
-- The theorems about a constellation, on two objects.
use vast_csi.Prelude.{String, true, false, ◌≡◌, refl, List, [], ◌∷◌, All, str_eq}
use vast_csi.Controller.Content.{
  Answers, gone, Store, parent_is_fully_gone, all_vcrs_deleted, listed_names, clean, release,
  release_cleaned, reconcile, created, reconciled,
}
use vast_csi.Controller.Content.Laws.{Reachable-waits, reconcile_cleans_last}

abbrev both : List String
both = "a" ∷ "b" ∷ []

abbrev terminating_store : Store
terminating_store k = record { deleting = true; cleanup_done = false; finalizer = true }

-- The parent is gone, and every call succeeds.
abbrev all_well : Answers
all_well = record {
  owner_found = true;
  parent = gone;
  cleaned = true;
  annotated = true;
  listed = true;
  finalizer_removed = true;
  deleted = true;
}

-- First "a", then "b".
abbrev after_both : Store
after_both = reconcile both all_well "b" (reconcile both all_well "a" terminating_store)

Reachable-waits_example :
    ((after_both "b").cleanup_done ≡ true) × All (λ j. (after_both j).cleanup_done ≡ true) both
unfolding reconcile release_cleaned release clean parent_is_fully_gone all_vcrs_deleted listed_names
    str_eq
Reachable-waits_example =
    Reachable-waits both after_both "b"
      (reconciled all_well "b" (reconcile both all_well "a" terminating_store)
        (reconciled all_well "a" terminating_store (created terminating_store (λ k. refl))))
      refl

reconcile_cleans_last_example :
    ((terminating_store "a").deleting ≡ true) × (all_well.parent ≡ gone) × (all_well.cleaned ≡ true)
unfolding reconcile release_cleaned release clean parent_is_fully_gone all_vcrs_deleted listed_names
    str_eq
reconcile_cleans_last_example = reconcile_cleans_last both all_well "a" terminating_store refl refl
