-- ===== src/Controller/Remap.antt =====
-- extensions-controller/internal/controller/pvcremap_controller.go: which claims are moved to the new
-- primary after a failover. The reads of the API server are answers that stay the same during one
-- reconcile; a patch of a workload changes the world. Logs are left out.
pub mod Pods
pub mod Reconcile
pub mod Requests
pub mod Laws
pub mod Settled
use vast_csi.Prelude.{
  String, Bool, true, false, not, Option, List, [], ◌∷◌, Result, ok, err, ◌>>=◌, str_eq, get_str,
  insert, if◌then◌else◌,
}

pub record Pvc : Type 0 where
  pub name : String
  pub labels : List (String × String)

-- The parts of a Volume that are read: its name, and the name of its claim if it has one.
pub record Volume : Type 0 where
  pub name : String
  pub claim : Option String

-- An entry of `ownerReferences`. `controller` is the pointer, with none for nil.
pub record ControllerRef : Type 0 where
  pub controller : Option Bool
  pub kind : String
  pub name : String

pub data WorkloadKind : Type 0 where
  replica_set deployment stateful_set daemon_set : WorkloadKind

pub record Workload : Type 0 where
  pub kind : WorkloadKind
  pub uid : String
  pub owners : List ControllerRef
  pub template_volumes : List Volume

pub record Pod : Type 0 where
  pub owners : List ControllerRef
  pub volumes : List Volume

-- What the controller asks the API server. `patch` sends a strategic-merge patch with the given names of
-- volumes and claims.
pub record RemapApi (W E : Type 0) : Type 0 where
  pub is_not_found : E → Bool
  pub get_pvc : String → String → Result E Pvc
  pub list_pvcs : String → List (String × String) → Result E (List Pvc)
  pub list_pods : String → Result E (List Pod)
  pub get_workload : String → WorkloadKind → String → Result E Workload
  pub patch : Workload → List (String × String) → W → W × Result E (Unit {0})

pub data RemapError (E : Type 0) : Type 0 where
  get_object list_mirrors list_pods_failed : E → RemapError E
  get_primary list_siblings : String → E → RemapError E

-- Name of a claim to the name of the primary's.
abbrev pub Table : Type 0
Table = List (String × String)

abbrev pub managed : String × String
managed = ("app.kubernetes.io/managed-by", "vast-extensions-controller")

abbrev pub label_source_pvc : String
label_source_pvc = "vastdata.com/source-pvc"

-- The name that all siblings share: of the PVC that `p` mirrors, or its own.
unfoldable pub source_of : Pvc → String
source_of p =
    if str_eq (get_str label_source_pvc p.labels) ""
    then p.name
    else get_str label_source_pvc p.labels

-- The loop over the siblings.
unfoldable pub add_siblings : Pvc → List Pvc → Table → Table
add_siblings p [] table = table
add_siblings p (sibling ∷ siblings) table =
    add_siblings p siblings
      (if str_eq sibling.name p.name then table else insert sibling.name p.name table)

-- `table[sourcePVCName] = primaryPVC.Name`, where the primary is itself a mirror.
unfoldable pub add_source : Pvc → Table → Table
add_source p table =
    if not (str_eq (get_str label_source_pvc p.labels) "")
    then insert (source_of p) p.name table
    else table

module _ {W E : Type 0} (api : RemapApi W E) (ns : String) where
  unfoldable pub siblings_of : Pvc → Result E (List Pvc)
  siblings_of p = api.list_pvcs ns (managed ∷ (label_source_pvc, source_of p) ∷ [])

  -- What follows the list of the siblings of `p`.
  unfoldable pub add_listed : Table → Pvc → Result E (List Pvc) → Result (RemapError E) Table
  add_listed table p (ok siblings) = ok (add_source p (add_siblings p siblings table))
  add_listed table p (err e) = err (list_siblings (source_of p) e)

  -- What follows `GetPVC` of one reference.
  unfoldable pub add_primary : Table → String → Result E Pvc → Result (RemapError E) Table
  add_primary table ref (ok p) = add_listed table p (siblings_of p)
  add_primary table ref (err e) = if api.is_not_found e then ok table else err (get_primary ref e)

  unfoldable pub add_primaries : List String → Table → Result (RemapError E) Table
  add_primaries [] table = ok table
  add_primaries (ref ∷ refs) table =
      add_primary table ref (api.get_pvc ns ref) >>= λ more. add_primaries refs more

  unfoldable pub build_sibling_remap_table : List String → Result (RemapError E) Table
  build_sibling_remap_table refs = add_primaries refs []
