-- ===== src/Admission/Laws.antt =====
-- What an admitted object has passed, and what the answer leaves out.
use vast_csi.Prelude.{
  String, Bool, true, ◌≡◌, refl, Option, none, some, List, [], ◌∷◌, Result, ok, err, arith, All,
  Pairwise,
}
use vast_csi.Spec.Types.{
  ReplicationTarget, VastStorageClassReplicationSpec, VastVolumeReplicationSpec,
}
use vast_csi.Spec.Classes.{all_storage_classes}
use vast_csi.Spec.Validation.{SpecError, validate_vscr, validate_vvr}
use vast_csi.Admission.{Response, allowed, denied, errored, is_allowed, patch_of, allow, ◌⨾◌}
use vast_csi.Admission.Clients.{Outside}
use vast_csi.Admission.Storage.{validate_storage_class_consistency}
use vast_csi.Admission.Claims.{Owner, Self, Replication, vscr, check_unused, validate}
use vast_csi.Admission.Handlers.{
  Operation, create, other, update, Request, update_response, spec_response, on_create, create_vscr,
  create_vvr, handle_vscr, handle_vvr,
}
use vast_csi.Admission.Shape.{SameShape, validate_topology_immutable_iff}
use vast_csi.Admission.Exclusive.{IsUnclaimed, validate_iff}

allowed-⨾ :
    (r s : Response) → is_allowed (r ⨾ s) ≡ true → (is_allowed r ≡ true) × (is_allowed s ≡ true)
allowed-⨾ (allowed p) s h = (refl, h)
allowed-⨾ (denied d) s h = absurd cc
allowed-⨾ errored s h = absurd cc

patch_of-⨾ : (r s : Response) → patch_of s ≡ none → patch_of (r ⨾ s) ≡ none
patch_of-⨾ (allowed p) s h = h
patch_of-⨾ (denied d) s h = refl
patch_of-⨾ errored s h = refl

allowed-chain :
    (a b c d e : Response)
    → is_allowed (a ⨾ b ⨾ c ⨾ d ⨾ e) ≡ true
    → (is_allowed a ≡ true) × (is_allowed b ≡ true) × (is_allowed e ≡ true)
allowed-chain a b c d e h =
    let (first, h1) = allowed-⨾ a (b ⨾ c ⨾ d ⨾ e) h in
    let (second, h2) = allowed-⨾ b (c ⨾ d ⨾ e) h1 in
    let (_, h3) = allowed-⨾ c (d ⨾ e) h2 in
    let (_, last) = allowed-⨾ d e h3 in (first, second, last)

patch_of-chain : (a b c d e : Response) → patch_of e ≡ none → patch_of (a ⨾ b ⨾ c ⨾ d ⨾ e) ≡ none
patch_of-chain a b c d e h =
    patch_of-⨾ a (b ⨾ c ⨾ d ⨾ e)
      (patch_of-⨾ b (c ⨾ d ⨾ e) (patch_of-⨾ c (d ⨾ e) (patch_of-⨾ d e h)))

patch_of-check_unused :
    (used : List (String × Owner)) (classes : List String)
    → patch_of (check_unused used classes) ≡ none
unfolding check_unused
patch_of-check_unused used [] = refl
patch_of-check_unused used (sc ∷ classes) = ground (arith, patch_of-check_unused used classes)

patch_of-validate :
    (vscrs vvrs : Option (List Replication)) (self : Self) (classes : List String)
    → patch_of (validate vscrs vvrs self classes) ≡ none
unfolding validate
patch_of-validate none vvrs self classes = refl
patch_of-validate (some vscrs) none self classes = refl
patch_of-validate (some vscrs) (some vvrs) self classes = patch_of-check_unused _ classes

-- What an operation lets an update do.
abbrev pub KeepsShape : Operation → List ReplicationTarget → Type 0
KeepsShape create topology = Unit
KeepsShape other topology = Unit
KeepsShape (update none) topology = ⊥
KeepsShape (update (some old)) topology = Pairwise SameShape old topology

update_response-KeepsShape :
    (o : Operation) (topology : List ReplicationTarget)
    → is_allowed (update_response o topology) ≡ true
    → KeepsShape o topology
update_response-KeepsShape create topology h = tt
update_response-KeepsShape other topology h = tt
update_response-KeepsShape (update none) topology h = absurd cc
update_response-KeepsShape (update (some old)) topology h =
    (validate_topology_immutable_iff old topology).0 h

spec_response-ok :
    (r : Result SpecError (Unit {0})) → is_allowed (spec_response r) ≡ true → r ≡ ok tt
spec_response-ok (ok tt) h = refl
spec_response-ok (err e) h = absurd cc

unclaimed :
    (vscrs vvrs : Option (List Replication)) (self : Self) (classes : List String)
    → is_allowed (validate vscrs vvrs self classes) ≡ true
    → (seen : List Replication × List Replication) × (vscrs ≡ some seen.0)
      × (vvrs ≡ some seen.1)
      × All (IsUnclaimed seen.0 seen.1 self) classes
unfolding validate
unclaimed none vvrs self classes e = absurd cc
unclaimed (some xs) none self classes e = absurd cc
unclaimed (some xs) (some ys) self classes e =
    ((xs, ys), refl, refl, (validate_iff xs ys self classes).0 e)

module _ {Rest E : Type 0} (outside : Outside Rest E) (time_parse : String → String → Bool) where
  -- A VSCR that the webhook admits is valid, none of its StorageClasses is in another VSCR or VVR of
  -- the lists that the webhook has read, and on an update its topology has kept its shape. A webhook
  -- that cannot read one of the lists admits nothing.
  pub handle_vscr_sound :
      (vscrs vvrs : Option (List Replication)) (r : Request VastStorageClassReplicationSpec)
      → is_allowed (handle_vscr outside time_parse vscrs vvrs (some r)) ≡ true
      → (validate_vscr time_parse r.spec ≡ ok tt)
        × KeepsShape r.operation r.spec.protection_topology
        × (seen : List Replication × List Replication) × (vscrs ≡ some seen.0)
        × (vvrs ≡ some seen.1)
        × All
            (IsUnclaimed seen.0 seen.1
              (record { kind = vscr; namespace = r.namespace; name = r.name }))
            (all_storage_classes r.spec.protection_topology)
  unfolding handle_vscr
  handle_vscr_sound vscrs vvrs r h =
      let classes = all_storage_classes r.spec.protection_topology in
      let self : Self = record { kind = vscr; namespace = r.namespace; name = r.name } in
      let (shape, spec, free) =
        allowed-chain (update_response r.operation r.spec.protection_topology)
          (spec_response (validate_vscr time_parse r.spec))
          (on_create r.operation (create_vscr outside time_parse r))
          (validate_storage_class_consistency outside classes) (validate vscrs vvrs self classes)
          h in
      let (seen, first, second, all) = unclaimed vscrs vvrs self classes free in
      (
        spec_response-ok (validate_vscr time_parse r.spec) spec,
        update_response-KeepsShape r.operation r.spec.protection_topology shape,
        seen,
        first,
        second,
        all,
      )

  vscr_patches_nothing :
      (vscrs vvrs : Option (List Replication))
      (r : Option (Request VastStorageClassReplicationSpec))
      → patch_of (handle_vscr outside time_parse vscrs vvrs r) ≡ none
  unfolding handle_vscr
  vscr_patches_nothing vscrs vvrs none = refl
  vscr_patches_nothing vscrs vvrs (some r) =
      let classes = all_storage_classes r.spec.protection_topology in
      let self : Self = record { kind = vscr; namespace = r.namespace; name = r.name } in
      patch_of-chain (update_response r.operation r.spec.protection_topology)
        (spec_response (validate_vscr time_parse r.spec))
        (on_create r.operation (create_vscr outside time_parse r))
        (validate_storage_class_consistency outside classes) (validate vscrs vvrs self classes)
        (patch_of-validate vscrs vvrs self classes)

  vvr_patches_nothing :
      (pvc_namespace : String) (r : Option (Request VastVolumeReplicationSpec))
      → patch_of (handle_vvr outside time_parse pvc_namespace r) ≡ none
  unfolding handle_vvr
  vvr_patches_nothing pvc_namespace none = refl
  vvr_patches_nothing pvc_namespace (some r) =
      patch_of-chain (update_response r.operation r.spec.protection_topology)
        (spec_response (validate_vvr time_parse r.spec))
        (on_create r.operation (create_vvr outside time_parse pvc_namespace r))
        (validate_storage_class_consistency outside
          (all_storage_classes r.spec.protection_topology))
        allow refl

  -- The answer of either webhook carries no patch, also where a peer has been discovered on creation
  -- and `validateAndDefaultTopology` has answered with one.
  pub handlers_patch_nothing :
      (vscrs vvrs : Option (List Replication)) (pvc_namespace : String)
      (r : Option (Request VastStorageClassReplicationSpec))
      (s : Option (Request VastVolumeReplicationSpec))
      → (patch_of (handle_vscr outside time_parse vscrs vvrs r) ≡ none)
        × (patch_of (handle_vvr outside time_parse pvc_namespace s) ≡ none)
  handlers_patch_nothing vscrs vvrs ns r s =
      (vscr_patches_nothing vscrs vvrs r, vvr_patches_nothing ns s)
