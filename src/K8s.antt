-- ===== src/K8s.antt =====
-- extensions-controller/internal/common/k8s_client/storageclass.go and ppathdir/ppathdir.go: what a
-- StorageClass says of itself. A Go map is an association list.
use text.Mathlib.TextPositions.{starts_with-append, slice-append_right, len-append}
use vast_csi.Prelude.{
  String, ◌<>◌, ◌≡◌, Bool, ◌&&◌, ◌||◌, List, [], ◌∷◌, str_eq, has_key, get_str, if◌then◌else◌,
}

pub record StorageClass : Type 0 where
  pub name : String
  pub provisioner : String
  pub parameters : List (String × String)

-- `strings.HasPrefix(s, prefix)`
abbrev pub has_prefix : String → String → Bool
has_prefix s prefix = text.Mathlib.Text.starts_with s prefix

-- `strings.TrimPrefix(s, prefix)`
unfoldable pub trim_prefix : String → String → String
trim_prefix s prefix =
    if has_prefix s prefix
    then Prim.Native.String.slice s (Prim.Native.String.len prefix) (Prim.Native.String.len s)
    else s

-- What `TrimPrefix` leaves of a text that was put together with the prefix.
pub trim_prefix-append : (prefix s : String) → trim_prefix (prefix <> s) prefix ≡ s
unfolding trim_prefix
trim_prefix-append prefix s =
    rw (starts_with-append prefix s, len-append prefix s) (slice-append_right prefix s)

unfoldable pub is_block_storage_class : StorageClass → Bool
is_block_storage_class sc =
    let has_subsystem = has_key "subsystem" sc.parameters in
    let has_root_export = has_key "root_export" sc.parameters in
    if has_subsystem && has_root_export then has_prefix sc.provisioner "block" else has_subsystem

unfoldable pub extract_non_prefixed_params :
    String → List (String × String) → List (String × String)
extract_non_prefixed_params prefix [] = []
extract_non_prefixed_params prefix ((key, val) ∷ params) =
    let result = extract_non_prefixed_params prefix params in
    if has_prefix key prefix then result else (key, val) ∷ result

-- `strings.TrimPrefix(s, "/") == ""`
abbrev pub is_root : String → Bool
is_root s = str_eq s "" || str_eq s "/"

unfoldable pub is_subsystem_level : StorageClass → Bool
is_subsystem_level sc =
    is_block_storage_class sc
    && is_root
        (get_str "volume_group" (extract_non_prefixed_params "csi.storage.k8s.io/" sc.parameters))
