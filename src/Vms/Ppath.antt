-- ===== src/Vms/Ppath.antt =====
-- extensions-controller/internal/common/vmsrest/ppath.go: protected paths and their streams. The
-- calls on a cluster are arguments; an answer of the service is already decoded.
pub mod Streams
pub mod Primary
pub mod Constellation
pub mod Kept
pub mod Laws
pub mod Order
pub mod Cleanup
use Prim.Native.Char.{code}
use vast_csi.Prelude.{
  ℕ, zero, suc, ◌+◌, String, Bool, true, false, not, ◌&&◌, ◌||◌, Option, none, some, List, [], ◌∷◌,
  Result, ok, err, str_eq, leb, ◌==◌, if◌then◌else◌,
}
use vast_csi.Prelude.Effects.{Io}
use vast_csi.Spec.Durations.{codes}
use vast_csi.Vms.Wait.{WaitError, timed_out, out_of_fuel, check_failed, Clock}

-- A stream and a path, as far as the code reads them. `failure_reason` is empty where there is none.
pub record Stream : Type 0 where
  pub name : String
  pub state : String

pub record Ppath : Type 0 where
  pub id : ℕ
  pub name : String
  pub state : String
  pub failure_reason : String
  pub streams : List Stream

-- What the service says of a directory. `children` is the int64 as its 64-bit pattern.
pub record FolderStat : Type 0 where
  pub is_directory : Bool
  pub children : ℕ

pub record CreateRequest : Type 0 where
  pub name : String
  pub source_dir : String
  pub target_exported_dir : String
  pub tenant_id : ℕ
  pub remote_tenant_guid : String
  pub protection_policy_id : ℕ

pub record StreamRequest : Type 0 where
  pub name : String
  pub target_exported_dir : String
  pub protection_policy_id : ℕ
  pub remote_tenant_guid : String
  pub is_standby : Bool

-- The calls on a cluster, and what the code asks of their errors. `stat_path` is `StatPath`: an
-- absent path is no error.
pub record PpathApi (W Rest E : Type 0) : Type 0 where
  pub get_ppath : Rest → String → Io W E Ppath
  pub create_ppath : Rest → CreateRequest → Io W E (Unit {0})
  pub add_stream : Rest → ℕ → StreamRequest → Io W E (Unit {0})
  pub stat_path : Rest → String → ℕ → Io W E (Option FolderStat)
  pub delete_folder : Rest → String → ℕ → Io W E (Unit {0})
  pub is_not_found : E → Bool
  pub has_status_not_found : E → Bool
  pub is_path_on_peer_exists : E → Bool
  pub clock : Clock W

-- The errors that ask for another attempt are `not_yet_active`, `path_now_absent` and `path_removed`.
pub data PpathError (E : Type 0) : Type 0 where
  no_primary_links same_cluster no_streams : PpathError E
  call_failed : E → PpathError E
  path_failed not_active not_yet_active stream_failed : PpathError E
  cleanup_not_allowed not_directory not_empty path_now_absent path_removed : PpathError E
  wait_timed_out wait_out_of_fuel : PpathError E

-- An error of `WaitResource`: that of the check stands for itself.
abbrev pub wait_error : {E : Type 0} → WaitError (PpathError E) → PpathError E
wait_error timed_out = wait_timed_out
wait_error out_of_fuel = wait_out_of_fuel
wait_error (check_failed e) = e

-- ASCII `strings.ToLower` and `strings.EqualFold`: the states of the service are ASCII.
abbrev pub lower_code : ℕ → ℕ
lower_code c = if leb b'A' c && leb c b'Z' then c + 32 else c

unfoldable pub same_codes : List ℕ → List ℕ → Bool
same_codes [] [] = true
same_codes [] (d ∷ ds) = false
same_codes (c ∷ cs) [] = false
same_codes (c ∷ cs) (d ∷ ds) = lower_code c == lower_code d && same_codes cs ds

unfoldable pub equal_fold : String → String → Bool
equal_fold s t = same_codes (codes s) (codes t)

unfoldable pub check_ppath_state : {E : Type 0} → String → String → Result (PpathError E) (Unit {0})
check_ppath_state state failure_reason =
    if equal_fold state "active"
    then ok tt
    else if equal_fold state "partially active"
    then ok tt
    else if equal_fold state "failed"
    then err path_failed
    else if not (str_eq failure_reason "")
    then err not_active
    else err not_yet_active

-- `s[:vastNameMaxLen]` on the bytes of the name; the names that Kubernetes and the service give are
-- ASCII.
unfoldable pub take_codes : ℕ → String → String
take_codes n String.[] = ""
take_codes n (String.◌∷◌ c s) = elim n [ zero ↦ "" | suc m ↦ String.◌∷◌ c (take_codes m s) ]

unfoldable pub truncate_name : String → String
truncate_name s = take_codes 64 s

-- The state of the stream of that name, if the path has one: the loop takes the first.
unfoldable pub stream_state : String → List Stream → Option String
stream_state name [] = none
stream_state name (s ∷ streams) =
    if str_eq s.name name then some s.state else stream_state name streams

-- `ppathStreamNameSet(streams).Has(name)`: a stream without a name is not in the set.
unfoldable pub has_stream : String → List Stream → Bool
has_stream name [] = false
has_stream name (s ∷ streams) =
    not (str_eq s.name "") && str_eq s.name name || has_stream name streams
