-- ===== src/Controller/OwnerRefs.antt =====
-- `clearParentBlockOwnerDeletion` of
-- extensions-controller/internal/controller/vastreplicationcontent_controller.go.
pub mod Laws
use vast_csi.Prelude.{
  String, Bool, true, false, not, ◌&&◌, ◌||◌, Option, none, some, List, [], ◌∷◌, str_eq,
  if◌then◌else◌,
}

-- An owner reference. `block_owner_deletion` is the pointer, with none for nil.
pub record OwnerReference : Type 0 where
  pub kind : String
  pub name : String
  pub block_owner_deletion : Option Bool

-- `ref.BlockOwnerDeletion != nil && !*ref.BlockOwnerDeletion`
abbrev pub is_cleared : Option Bool → Bool
is_cleared none = false
is_cleared (some b) = not b

abbrev pub is_owner : String → String → OwnerReference → Bool
is_owner owner_kind owner_name ref = str_eq ref.kind owner_kind && str_eq ref.name owner_name

-- The references afterwards, and whether one of them changed.
unfoldable pub clear_parent_block_owner_deletion :
    List OwnerReference → String → String → List OwnerReference × Bool
clear_parent_block_owner_deletion [] owner_kind owner_name = ([], false)
clear_parent_block_owner_deletion (ref ∷ refs) owner_kind owner_name =
    let rest = clear_parent_block_owner_deletion refs owner_kind owner_name in
    if not (is_owner owner_kind owner_name ref) || is_cleared ref.block_owner_deletion
    then (ref ∷ rest.0, rest.1)
    else (record ref { block_owner_deletion = some false } ∷ rest.0, true)
