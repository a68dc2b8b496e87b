-- ===== src/Controller/Remap/Pods.antt =====
-- The second half of pvcremap_controller.go: the pods of a namespace, the workloads that own them, and
-- the patch of their volumes.
use vast_csi.Prelude.{
  String, Bool, true, false, not, ◌&&◌, Option, none, some, List, [], ◌∷◌, Result, ok, err, ◌>>=◌,
  str_eq, has, lookup, insert, if◌then◌else◌,
}
use vast_csi.Controller.Remap.{
  Volume, ControllerRef, WorkloadKind, replica_set, deployment, stateful_set, daemon_set, Workload,
  Pod, RemapApi, RemapError, list_pods_failed, Table,
}

-- `remapTable[v.PersistentVolumeClaim.ClaimName]`
unfoldable pub new_claim : Table → Volume → Option String
new_claim table v = elim v.claim [ none ↦ none | some claim ↦ lookup claim table ]

unfoldable pub note_volume : Volume → Option String → Table → Table
note_volume v none out = out
note_volume v (some new_name) out = insert v.name new_name out

unfoldable pub volumes_from : Table → List Volume → Table → Table
volumes_from table [] out = out
volumes_from table (v ∷ vs) out = volumes_from table vs (note_volume v (new_claim table v) out)

unfoldable pub volumes_needing_remap : List Volume → Table → Table
volumes_needing_remap volumes table = volumes_from table volumes []

unfoldable pub note_update :
    Volume → Option String → List (String × String) → List (String × String)
note_update v none updates = updates
note_update v (some new_name) updates = (v.name, new_name) ∷ updates

-- The loop of `patchOwnerVolumes`: names of volumes and claims.
unfoldable pub to_update : Table → List Volume → List (String × String)
to_update table [] = []
to_update table (v ∷ vs) = note_update v (new_claim table v) (to_update table vs)

-- `ref.Controller != nil && *ref.Controller`
abbrev pub is_controller : ControllerRef → Bool
is_controller ref = elim ref.controller [ none ↦ false | some b ↦ b ]

abbrev pub none_left {ℓ} : {A : Type ℓ} → List A → Bool
none_left [] = true
none_left (_ ∷ _) = false

module _ {W E : Type 0} (api : RemapApi W E) (ns : String) where
  -- `c.Get` of one workload.
  unfoldable pub the_workload : WorkloadKind → String → Result E (Option Workload)
  the_workload kind name = api.get_workload ns kind name >>= λ found. ok (some found)

  -- The loop over the owners of a ReplicaSet.
  unfoldable pub above_replica_set : Workload → List ControllerRef → Result E (Option Workload)
  above_replica_set rs [] = ok (some rs)
  above_replica_set rs (ref ∷ refs) =
      let rest = above_replica_set rs refs in
      if is_controller ref && str_eq ref.kind "Deployment"
      then the_workload deployment ref.name
      else rest

  unfoldable pub top_level_owner : List ControllerRef → Result E (Option Workload)
  top_level_owner [] = ok none
  top_level_owner (ref ∷ refs) =
      let rest = top_level_owner refs in
      if not (is_controller ref)
      then rest
      else if str_eq ref.kind "ReplicaSet"
      then api.get_workload ns replica_set ref.name >>= (λ rs. above_replica_set rs rs.owners)
      else if str_eq ref.kind "Deployment"
      then the_workload deployment ref.name
      else if str_eq ref.kind "StatefulSet"
      then the_workload stateful_set ref.name
      else if str_eq ref.kind "DaemonSet"
      then the_workload daemon_set ref.name
      else rest

  unfoldable pub patch_owner_volumes : Workload → Table → W → W × Result E (Unit {0})
  patch_owner_volumes owner table w =
      let updates = to_update table owner.template_volumes in
      if none_left updates then (w, ok tt) else api.patch owner updates w

  -- What follows `topLevelOwner` of one pod. An error is logged, and the loop goes on. The second result
  -- is `patched`.
  unfoldable pub visit_owner :
      Table → List String → W → Result E (Option Workload) → W × List String
  visit_owner table patched w (err e) = (w, patched)
  visit_owner table patched w (ok none) = (w, patched)
  visit_owner table patched w (ok (some owner)) =
      if has owner.uid patched
      then (w, patched)
      else ((patch_owner_volumes owner table w).0, owner.uid ∷ patched)

  unfoldable pub visit_pod : Table → Pod → W × List String → W × List String
  visit_pod table pod (w, patched) =
      if none_left (volumes_needing_remap pod.volumes table)
      then (w, patched)
      else visit_owner table patched w (top_level_owner pod.owners)

  unfoldable pub visit_pods : Table → List Pod → W × List String → W × List String
  visit_pods table [] state = state
  visit_pods table (pod ∷ pods) state = visit_pods table pods (visit_pod table pod state)

  unfoldable pub remap_listed :
      Table → Result E (List Pod) → W → W × Result (RemapError E) (Unit {0})
  remap_listed table (ok pods) w = ((visit_pods table pods (w, [])).0, ok tt)
  remap_listed table (err e) w = (w, err (list_pods_failed e))

  unfoldable pub remap_pods_in_namespace : Table → W → W × Result (RemapError E) (Unit {0})
  remap_pods_in_namespace table w = remap_listed table (api.list_pods ns) w

  unfoldable pub do_remap : Result (RemapError E) Table → W → W × Result (RemapError E) (Unit {0})
  do_remap (err e) w = (w, err e)
  do_remap (ok table) w = if none_left table then (w, ok tt) else remap_pods_in_namespace table w
