-- ===== src/Controller/OwnerRefs/Laws.antt =====
-- What `clearParentBlockOwnerDeletion` leaves.
use vast_csi.Prelude.{
  String, Bool, true, false, not, ◌&&◌, ◌≡◌, refl, sym, ap, ◌∙◌, Option, none, some, List, [], ◌∷◌,
  any, Pairwise, Bool-cases, inl, inr, if◌then◌else◌,
}
use vast_csi.Controller.OwnerRefs.{
  OwnerReference, is_cleared, is_owner, clear_parent_block_owner_deletion,
}

-- The reference of the parent with its flag at false, and any other one as it was.
abbrev pub Cleared : String → String → OwnerReference → OwnerReference → Type 0
Cleared owner_kind owner_name ref ref' = ref' ≡ (
    if is_owner owner_kind owner_name ref
    then record ref { block_owner_deletion = some false }
    else ref)

-- The reference of the parent whose flag is not false yet.
abbrev pub blocks : String → String → OwnerReference → Bool
blocks owner_kind owner_name ref =
    is_owner owner_kind owner_name ref && not (is_cleared ref.block_owner_deletion)

cleared-same :
    (ref : OwnerReference)
    → is_cleared ref.block_owner_deletion ≡ true
    → ref ≡ record ref { block_owner_deletion = some false }
cleared-same ref h = go ref.block_owner_deletion h
  where
    go :
        (o : Option Bool)
        → is_cleared o ≡ true
        → record ref { block_owner_deletion = o } ≡ record ref { block_owner_deletion = some false }
    go none e = absurd cc
    go (some true) e = absurd cc
    go (some false) e = refl

owned :
    (k n : String) (ref ref' : OwnerReference)
    → is_owner k n ref ≡ true
    → ref' ≡ record ref { block_owner_deletion = some false }
    → Cleared k n ref ref'
owned k n ref ref' e p =
    p ∙ sym (ap (λ b. if b then record ref { block_owner_deletion = some false } else ref) e)

foreign : (k n : String) (ref : OwnerReference) → is_owner k n ref ≡ false → Cleared k n ref ref
foreign k n ref e =
    sym (ap (λ b. if b then record ref { block_owner_deletion = some false } else ref) e)

-- Each reference of the parent comes out with its flag at false, every other reference is as it was,
-- and a change is reported exactly when some reference of the parent did not have its flag at false.
pub clear_parent_block_owner_deletion_lem :
    (refs : List OwnerReference) (owner_kind owner_name : String)
    → Pairwise
        (Cleared owner_kind owner_name)
        refs
        (clear_parent_block_owner_deletion refs owner_kind owner_name).0
      × ((clear_parent_block_owner_deletion refs owner_kind owner_name).1
          ≡ any (blocks owner_kind owner_name) refs)
unfolding clear_parent_block_owner_deletion
clear_parent_block_owner_deletion_lem [] k n = (tt, refl)
clear_parent_block_owner_deletion_lem (ref ∷ refs) k n =
    let (each, change) = clear_parent_block_owner_deletion_lem refs k n in
    elim (Bool-cases (is_owner k n ref)) [
      | inl e ↦ elim (Bool-cases (is_cleared ref.block_owner_deletion)) [
        | inl f ↦
            let same = owned k n ref ref e (cleared-same ref f) in rw (e, f) ((same, each), change)
        | inr f ↦
            let cleared = owned k n ref (record ref { block_owner_deletion = some false }) e refl in
            rw (e, f) ((cleared, each), refl)
      ]
      | inr e ↦ let same = foreign k n ref e in rw e ((same, each), change)
    ]
