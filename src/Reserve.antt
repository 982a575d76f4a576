-- ===== src/Reserve.antt =====
-- src/bdhost/Util.cpp and the reservation requests of src/bdhost/PartitionHandler.cpp.
pub mod Accounting
use drive.OrderedMap.{Map, find, assign}
use drive.Prelude.{
  ℕ, ◌+◌, ◌-◌, ◌/◌, ◌%◌, ◌^◌, Bool, true, false, not, [], ◌∷◌, Option, none, some, ltb, ◌==◌,
  if◌then◌else◌, ◌||◌,
}
use drive.Prelude.Texts.{Bytes}

-- The host's work directory: the "size" member of `reserved.json`, and of the file of that name in
-- the directory of each reservation, as `Json::Reader` finds it. A file that is missing, or not an
-- object with an integral "size", is `none`, or absent from the map. `configs` holds what stands in
-- each `.config`: the number of blocks and their size.
pub record Host : Type 0 where
  pub capacity : ℕ
  pub total : Option ℕ
  pub reservations : Map ℕ
  pub configs : Map (ℕ × ℕ)

abbrev pub size_or_zero : Option ℕ → ℕ
size_or_zero none = 0
size_or_zero (some n) = n

-- `GetReservedSpace`: the total for the empty id.
unfoldable pub get_reserved_space : Bytes → Host → ℕ
get_reserved_space [] h = size_or_zero h.total
get_reserved_space (c ∷ id) h = size_or_zero (find (c ∷ id) h.reservations)

-- `ReserveSpace`. `fresh` is what `uuidgen` returns; the answer "" is `none`. Sums are of type
-- `uint64_t`, and `Json::Value::UInt` is as wide.
unfoldable pub reserve_space : Bytes → ℕ → Host → Option Bytes × Host
unfolding get_reserved_space
reserve_space fresh size h =
    let reserved = get_reserved_space [] h in
    let sum = (size + reserved) % 2 ^ 64 in
    if ltb h.capacity sum
    then (none, h)
    else (some fresh, record h { total = some sum; reservations = assign fresh sum h.reservations })

-- `UnreserveSpace`; the difference wraps as `uint64_t` does.
unfoldable pub unreserve_space : Bytes → Host → Host
unfolding get_reserved_space
unreserve_space id h =
    let total = get_reserved_space [] h in
    let reserved = get_reserved_space id h in
    record h {
      total = some ((total + 2 ^ 64 - reserved) % 2 ^ 64);
      reservations = assign id 0 h.reservations;
    }

-- The response of a handler: its code and why it failed, or its content.
pub data Failure : Type 0 where
  invalid_reserve_id zero_block_size block_too_large not_initialized zero_reserve_size : Failure

pub data Response : Type 0 where
  failed : ℕ → Failure → Response
  granted : Bytes → Response
  refused : Response
  done : Response

-- `OnReservePartition`; `size` is what `strtoull` reads. The second result tells whether the host
-- publishes its storage.
unfoldable pub on_reserve_partition : Bytes → ℕ → Host → Response × Bool × Host
on_reserve_partition fresh size h =
    let (answer, h') = reserve_space fresh size h in
    if size == 0
    then (failed 500 zero_reserve_size, false, h)
    else elim answer [ none ↦ (refused, false, h') | some id ↦ (granted id, true, h') ]

abbrev pub is_blank : Bytes → Bool
is_blank [] = true
is_blank (_ ∷ _) = false

unfoldable pub on_unreserve_partition : Bytes → Host → Response × Bool × Host
on_unreserve_partition id h =
    if is_blank id
    then (failed 500 invalid_reserve_id, false, h)
    else (done, true, unreserve_space id h)

-- `OnCreatePartition`; `opens` tells whether `.config` can be opened for writing.
unfoldable pub on_create_partition : Bool → Bytes → ℕ → Host → Response × Host
on_create_partition opens uuid block_size h =
    let reserved = if is_blank uuid then 0 else get_reserved_space uuid h in
    let block_count = reserved / block_size in
    if reserved == 0
    then (failed 500 invalid_reserve_id, h)
    else if block_size == 0
    then (failed 500 zero_block_size, h)
    else if block_count == 0
    then (failed 500 block_too_large, h)
    else if not opens
    then (failed 500 not_initialized, h)
    else (granted uuid, record h { configs = assign uuid (block_count, block_size) h.configs })
