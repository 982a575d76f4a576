-- ===== src/HostRoutes.antt =====
-- How src/bdhost/PartitionHandler.cpp finds the action that a request asks for.
pub mod Paths
use drive.OrderedMap.{find, erase}
use drive.Prelude.{
  ℕ, ◌+◌, Bool, true, false, not, ◌||◌, ◌&&◌, Option, none, some, [], ◌∷◌, ◌++◌, leb, ◌==◌,
  if◌then◌else◌, length, drop, get_or,
}
use drive.Prelude.Texts.{Bytes, codes, str_eq}
use drive.Reserve.{Host, is_blank, unreserve_space}

-- `PATH`; `sizeof` counts the zero at its end.
abbrev pub prefix : Bytes
prefix = codes "/api/host/Partitions"

abbrev pub prefix_size : ℕ
prefix_size = 21

abbrev pub slash : ℕ
slash = b'/'

-- `find('/')` and the two `substr`: what stands before the first slash and what behind it.
unfoldable pub split_slash : Bytes → Option (Bytes × Bytes)
split_slash [] = none
split_slash (c ∷ text) =
    let rest = split_slash text in
    if c == slash
    then some ([], text)
    else elim rest [ none ↦ none | some (name, action) ↦ some (c ∷ name, action) ]

pub data Route : Type 0 where
  description object_not_found : Route
  folder_request : Bytes → Route
  partition_request : Bytes → Bytes → Route

unfoldable pub process_request : Bytes → Route
process_request path =
    let rest = drop prefix_size path in
    if leb (length path) prefix_size || not (get_or path 20 0 == slash)
    then if (length path == prefix_size) && str_eq path (prefix ++ slash ∷ [])
      then description
      else object_not_found
    else elim (split_slash rest) [
      | none ↦ folder_request rest
      | some (name, action) ↦ partition_request name action
    ]

pub data FolderAction : Type 0 where
  create_partition reserve_partition unreserve_partition not_supported : FolderAction

unfoldable pub on_folder_request : Bytes → FolderAction
on_folder_request action =
    if str_eq action (codes "NewPartition")
    then create_partition
    else if str_eq action (codes "Reserve")
    then reserve_partition
    else if str_eq action (codes "Unreserve")
    then unreserve_partition
    else not_supported

-- The action with the block count and the block size that `.config` holds.
pub data PartitionAction : Type 0 where
  partition_not_found action_not_supported : PartitionAction
  describe : Bytes → PartitionAction
  read_request write_request : Bytes → ℕ → ℕ → PartitionAction
  delete_request : Bytes → PartitionAction

abbrev pub is_partition_name : Bytes → Bool
is_partition_name name =
    not (is_blank name) && (not (str_eq name (codes ".")) && not (str_eq name (codes "..")))

unfoldable pub on_partition_request : Bytes → Bytes → Host → PartitionAction
on_partition_request name action h =
    let config = if is_partition_name name then find name h.configs else none in
    elim config [
      | none ↦ partition_not_found
      | some (block_count, block_size) ↦
          if is_blank action
          then describe name
          else if str_eq action (codes "ReadBlock")
          then read_request name block_count block_size
          else if str_eq action (codes "WriteBlock")
          then write_request name block_count block_size
          else if str_eq action (codes "Delete")
          then delete_request name
          else action_not_supported
    ]
