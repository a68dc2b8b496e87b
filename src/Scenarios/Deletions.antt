-- ===== src/Scenarios/Deletions.antt =====
-- The theorem about the deletion of policies, on a cluster that has one of them.
use vast_csi.Prelude.{
  String, Bool, true, false, ◌≡◌, refl, sym, ap, ◌∙◌, inr, [], ◌&&◌, Result, ok, err, str_eq,
  if◌then◌else◌,
}
use vast_csi.Prelude.Effects.{done}
use vast_csi.Vms.Policies.{ProtectionPolicy, PolicyApi, new_replication_edges_list}
use vast_csi.Vms.Policies.Deletion.{delete_protection_policies}
use vast_csi.Vms.Policies.Reach.{IsKept, IsReached, delete_protection_policies-IsReached}
use vast_csi.Scenarios.{triangle}

abbrev mirrored : ProtectionPolicy
mirrored = record { id = 7; name = "own-p" }

abbrev found : Bool → Bool → Bool × Result String ProtectionPolicy
found w true = (w, ok mirrored)
found w false = (w, err "not found")

-- The world is whether the cluster of "silver" still has the policy.
abbrev silver_only : PolicyApi Bool String String
silver_only = record {
  list_peers = λ rest names. done [];
  get_policy =
      λ rest name w. found w (if str_eq rest "silver" && str_eq name "own-p" then w else false);
  create_policy = λ rest r w. (w, err "read-only");
  policy_exists = λ rest name. done true;
  delete_policy = λ rest id w. (if str_eq rest "silver" then false else w, ok tt);
  clock = record { now = λ w. 0; sleep = λ d w. w };
}

abbrev IsGone : Bool → Type 0
IsGone w = w ≡ false

found_world : (w b : Bool) → (found w b).0 ≡ w
found_world w true = refl
found_world w false = refl

deleted_gone : (b w : Bool) → w ≡ false → (if b then false else w) ≡ false
deleted_gone true w h = refl
deleted_gone false w h = h

missing_gone : (w v : Bool) (e : String) → found w w ≡ (v, err e) → v ≡ false
missing_gone true v e h = absurd cc
missing_gone false v e h = sym (ap (λ r. r.0) h)

silver_only-IsKept : IsKept silver_only (λ sc. done sc) "own" "gold" triangle IsGone
silver_only-IsKept = record {
  built = λ sc w h. h;
  looked_up = λ rest name w h.
      found_world w (if str_eq rest "silver" && str_eq name "own-p" then w else false) ∙ h;
  deleted = λ sc name rest policy u u' v w b c g h. deleted_gone (str_eq rest "silver") w h;
}

silver_only-IsReached : IsReached silver_only (λ sc. done sc) "own" "gold" triangle IsGone
unfolding str_eq new_replication_edges_list
silver_only-IsReached = record {
  sc = "silver";
  name = "own-p";
  rest = "silver";
  belongs = refl;
  builds = λ w. (w, refl);
  not_found = λ w v e h. missing_gone w v e h;
  removed = λ w v policy h. refl;
}

delete_protection_policies-IsReached_example :
    delete_protection_policies silver_only (λ sc. done sc) "own" "gold" triangle true ≡ false
delete_protection_policies-IsReached_example =
    delete_protection_policies-IsReached silver_only (λ sc. done sc) "own" "gold" triangle IsGone
      true silver_only-IsKept (inr silver_only-IsReached)
