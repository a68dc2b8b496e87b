-- ===== src/Scenarios/Paths.antt =====
-- The theorems about protected paths, on a service with two memories.
use vast_csi.Prelude.{
  ℕ, String, Bool, true, false, ◌&&◌, ◌≡◌, refl, sym, ap, subst, ok-inj, Option, none, some, List,
  [], ◌∷◌, ok, arith, if◌then◌else◌,
}
use vast_csi.Spec.Templates.{is_positive}
use vast_csi.Vms.Tenants.{TenantInfo}
use vast_csi.Vms.Policies.{ReplicationLink}
use vast_csi.Vms.Ppath.{Ppath, FolderStat, PpathApi}
use vast_csi.Vms.Ppath.Streams.{handle_path_on_peer_exists}
use vast_csi.Vms.Ppath.Constellation.{ensure_constellation_ppath}
use vast_csi.Vms.Ppath.Order.{StandbysFollow, ensure_constellation_ppath-Keeps}
use vast_csi.Vms.Ppath.Cleanup.{KeepsData, handle_path_on_peer_exists_safe}

-- Whether a path has been read, and whether every standby stream came after that.
abbrev Memory : Type 0
Memory = Bool × Bool

-- A path with two streams that are active.
abbrev own_path : Ppath
own_path = record {
  id = 3;
  name = "own";
  state = "Active";
  failure_reason = "";
  streams =
      record { name = "first"; state = "Active" }
      ∷ record { name = "own-G-B"; state = "Active" }
      ∷ [];
}

abbrev paths : PpathApi Memory String String
paths = record {
  get_ppath = λ rest name w. ((true, w.1), ok own_path);
  create_ppath = λ rest r w. (w, ok tt);
  add_stream = λ rest id r w. ((w.0, (if r.is_standby then w.1 && w.0 else w.1)), ok tt);
  stat_path = λ rest path t w. (w, ok (some (record { is_directory = true; children = 2 })));
  delete_folder = λ rest path t w. (w, ok tt);
  is_not_found = λ e. false;
  has_status_not_found = λ e. false;
  is_path_on_peer_exists = λ e. false;
  clock = record { now = λ w. 0; sleep = λ d w. w };
}

paths-StandbysFollow :
    (primary_sc : String)
    → StandbysFollow paths (λ sc. sc) primary_sc (λ w. w.1 ≡ true) (λ target w. w.0 ≡ true)
paths-StandbysFollow primary_sc = record {
  quiet = record {
    get = λ rest name w p. p;
    create = λ rest r w p. p;
    add = λ rest id r w plain p. ground arith;
    stat = λ rest path t w p. p;
    delete = λ rest path t w p. p;
    sleep = λ d w p. p;
  };
  quiet_seen = λ target. record {
    get = λ rest name w (good, seen). (good, refl);
    create = λ rest r w p. p;
    add = λ rest id r w plain (good, seen). (ground arith, seen);
    stat = λ rest path t w p. p;
    delete = λ rest path t w p. p;
    sleep = λ d w p. p;
  };
  observes = λ owner name pair w w' p good e ready. sym (ap (λ z. z.0.0) e);
  standby = λ sc name dir id cross w (good, seen). (ground arith, seen);
}

abbrev tenant_of : String → TenantInfo
tenant_of guid = record { name = "t"; guid = guid; id = 1 }

abbrev link_of : String → String → String → String → ReplicationLink
link_of side_a side_b a b = record {
  policy_name = "own-p";
  policy_id = 9;
  local_peer_target_name = "p";
  remote_peer_target_name = "p";
  local_peer_name = a;
  remote_peer_name = b;
  edge = record { side_a = side_a; side_b = side_b; peer_name = "p" };
  local_tenant = tenant_of a;
  remote_tenant = tenant_of b;
}

abbrev links : List (String × List ReplicationLink)
links =
    ("gold", link_of "gold" "silver" "G" "S" ∷ link_of "gold" "bronze" "G" "B" ∷ [])
    ∷ ("silver", link_of "silver" "bronze" "S" "B" ∷ [])
    ∷ []

ensure_constellation_ppath-Keeps_example :
    (ensure_constellation_ppath paths
      (λ sc. sc)
      []
      "gold"
      true
      links
      ("gold" ∷ "silver" ∷ "bronze" ∷ [])
      "own"
      (false, true)).0.1
    ≡ true
ensure_constellation_ppath-Keeps_example =
    ensure_constellation_ppath-Keeps paths (λ sc. sc) [] "gold" true (λ w. w.1 ≡ true)
      (λ target w. w.0 ≡ true) (paths-StandbysFollow "gold") links
      ("gold" ∷ "silver" ∷ "bronze" ∷ []) "own" (false, true) refl

-- Every path has two children, so a removal would lose data: it clears the second memory.
abbrev full_paths : PpathApi Memory String String
full_paths = record paths { delete_folder = λ rest path t w. ((w.0, false), ok tt) }

has_two :
    (w w' : Memory) (seen : FolderStat)
    → full_paths.stat_path "S" "/x" 1 w ≡ (w', ok (some seen))
    → is_positive seen.children ≡ true
has_two w w' seen e =
    subst (λ o. is_positive (children_of o) ≡ true) (ok-inj (ap (λ z. z.1) e)) refl
  where
    children_of : Option FolderStat → ℕ
    children_of none = 0
    children_of (some x) = x.children

full_paths-KeepsData : KeepsData full_paths (λ w. w.1 ≡ true)
full_paths-KeepsData = record {
  stat = λ rest path t w p. p;
  delete = λ rest path t w w' seen e d empty p.
      let two : is_positive seen.children ≡ true = has_two w w' seen e in ground arith;
}

handle_path_on_peer_exists_safe_example :
    ((handle_path_on_peer_exists full_paths "S" "/x" 1 true (false, true)).0.1 ≡ true)
    × (true ≡ false
        → (handle_path_on_peer_exists full_paths "S" "/x" 1 true (false, true)).0 ≡ (false, true))
handle_path_on_peer_exists_safe_example =
    handle_path_on_peer_exists_safe full_paths (λ w. w.1 ≡ true) full_paths-KeepsData "S" "/x" 1
      true (false, true) refl
