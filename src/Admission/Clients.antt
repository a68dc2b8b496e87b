-- ===== src/Admission/Clients.antt =====
-- `validateAndDefaultTopology`: a client for each StorageClass of the topology, the peers, and the
-- patch.
use vast_csi.Prelude.{
  String, Bool, Option, none, some, List, [], ◌∷◌, Result, ok, err, lookup, insert, ◌>>=◌,
}
use vast_csi.Spec.Types.{ReplicationTarget}
use vast_csi.K8s.{StorageClass}
use vast_csi.Vms.Peers.{
  TopologyError, invalid, list_failed, fetch_failed, no_client, resolve_and_fetch_topology_peers,
}
use vast_csi.Admission.{Response, allowed, denied, errored, class_not_found, invalid_peer}
use vast_csi.Admission.Topology.{apply_topology_defaults}

-- What the webhook reads of the outside.
pub record Outside (Rest E : Type 0) : Type 0 where
  pub get_storage_class : String → Option StorageClass
  pub new_from_storage_class : StorageClass → Option Rest
  pub list_peers : Rest → Option (List String) → Result E (List String)
  -- The view of that name exists, for that tenant where it is not empty.
  pub view_exists : Rest → String → String → Option Bool
  -- The StorageClass of the PVC `ns/name`, if there is such a PVC.
  pub get_pvc : String → String → Option (Option String)
  pub marshal : String → String

module _ {Rest E : Type 0} (outside : Outside Rest E) where
  -- The body of the inner loop over the two StorageClasses of an entry.
  unfoldable pub client_for : List (String × Rest) → String → Result Response (List (String × Rest))
  client_for clients sc_name = elim (lookup sc_name clients) [
    | some _ ↦ ok clients
    | none ↦ elim (outside.get_storage_class sc_name) [
      | none ↦ err (denied (class_not_found sc_name))
      | some sc ↦ elim (outside.new_from_storage_class sc) [
        | none ↦ err errored
        | some rest ↦ ok (insert sc_name rest clients)
      ]
    ]
  ]

  unfoldable pub clients_for :
      List (String × Rest) → List ReplicationTarget → Result Response (List (String × Rest))
  clients_for clients [] = ok clients
  clients_for clients (t ∷ ts) = client_for clients t.source >>= λ with_source.
      client_for with_source t.destination >>= λ with_both. clients_for with_both ts

  -- The answer to an error of `ResolveAndFetchTopologyPeers`: only a ValidationError is a denial.
  abbrev pub resolve_failure : TopologyError E → Response
  resolve_failure (invalid i e) = denied (invalid_peer i e)
  resolve_failure (list_failed _ _) = errored
  resolve_failure (fetch_failed _ _) = errored
  resolve_failure (no_client _) = errored

  -- The answer, and the topology as the call leaves it.
  unfoldable pub default_response :
      List String
      → List ReplicationTarget × Result (TopologyError E) (Unit {0})
      → Response × List ReplicationTarget
  default_response entries (topology, err e) = (resolve_failure e, topology)
  default_response entries (topology, ok _) =
      (allowed (apply_topology_defaults outside.marshal entries topology), topology)

  unfoldable pub validate_and_default_topology :
      List String → List ReplicationTarget → Response × List ReplicationTarget
  validate_and_default_topology entries topology = elim (clients_for [] topology) [
    | err response ↦ (response, topology)
    | ok clients ↦
        default_response entries
          (resolve_and_fetch_topology_peers outside.list_peers clients topology)
  ]
