-- ===== src/Scenarios/Owners.antt =====
-- The theorem about owner references, on two of them.
use vast_csi.Prelude.{true, ◌≡◌, none, some, List, [], ◌∷◌, any, Pairwise}
use vast_csi.Controller.OwnerRefs.{OwnerReference, clear_parent_block_owner_deletion}
use vast_csi.Controller.OwnerRefs.Laws.{Cleared, blocks, clear_parent_block_owner_deletion_lem}

abbrev two_owners : List OwnerReference
two_owners =
    record { kind = "VolumeGroupReplication"; name = "a"; block_owner_deletion = some true }
    ∷ record { kind = "VastVolumeReplication"; name = "a"; block_owner_deletion = none }
    ∷ []

clear_parent_block_owner_deletion_lem_example :
    Pairwise
      (Cleared "VolumeGroupReplication" "a")
      two_owners
      (clear_parent_block_owner_deletion two_owners "VolumeGroupReplication" "a").0
    × ((clear_parent_block_owner_deletion two_owners "VolumeGroupReplication" "a").1
        ≡ any (blocks "VolumeGroupReplication" "a") two_owners)
clear_parent_block_owner_deletion_lem_example =
    clear_parent_block_owner_deletion_lem two_owners "VolumeGroupReplication" "a"
