-- ===== src/Reserve/Accounting.antt =====
-- What the host accounts for, and where its accounts go wrong.
use drive.OrderedMap.{Map, find, assign, find-assign}
use drive.Prelude.{
  Bool, true, false, ℕ, zero, suc, ◌+◌, ◌-◌, ◌*◌, ◌/◌, ◌%◌, ◌^◌, ◌≤◌, ◌<◌, ◌≡◌, ◌≢◌, refl, not,
  ◌&&◌, ◌⊎◌, false, [], ◌∷◌, none, some, arith, ltb, ◌==◌, Bool-cases, inl, inr, ltb→lt,
  ltb_false→le, le→ltb_false, lt→ltb,
}
use drive.Prelude.Texts.{Bytes, str_eq_self}
use native.Mathlib.Nat.{mod-eq_of_lt, suc-mul, mod-lt, div-add-mod'}
use drive.Reserve.{
  Host, get_reserved_space, reserve_space, unreserve_space, failed, granted, Failure,
  invalid_reserve_id, zero_block_size, block_too_large, not_initialized, on_create_partition,
}

-- The total is at most what the host offers.
abbrev pub IsBounded : Host → Type 0
IsBounded h = get_reserved_space [] h ≤ h.capacity

-- On a host that has not promised more than it offers, `ReserveSpace` never makes it do so.
pub reserve_space-IsBounded :
    (fresh : Bytes) (size : ℕ) (h : Host) → IsBounded h → IsBounded (reserve_space fresh size h).1
unfolding reserve_space
reserve_space-IsBounded fresh size h b = ground arith

-- What the host keeps after granting `sum` in all to `fresh`.
abbrev pub granted_host : Bytes → ℕ → Host → Host
granted_host fresh sum h = record h {
  total = some sum;
  reservations = assign fresh sum h.reservations;
}

pub reserve_space-refused :
    (fresh : Bytes) (size : ℕ) (h : Host)
    → size + get_reserved_space [] h < 2 ^ 64
    → h.capacity < size + get_reserved_space [] h
    → reserve_space fresh size h ≡ (none, h)
unfolding reserve_space
reserve_space-refused fresh size h fits large =
    rw (mod-eq_of_lt fits, lt→ltb (h.capacity) (size + get_reserved_space [] h) large)

pub reserve_space-granted :
    (fresh : Bytes) (size : ℕ) (h : Host)
    → size + get_reserved_space [] h < 2 ^ 64
    → size + get_reserved_space [] h ≤ h.capacity
    → reserve_space fresh size h
      ≡ (some fresh, granted_host fresh (size + get_reserved_space [] h) h)
unfolding reserve_space
reserve_space-granted fresh size h fits room =
    rw (mod-eq_of_lt fits, le→ltb_false h.capacity (size + get_reserved_space [] h) room)

pub find_assigned : {V : Type 0} → (k : Bytes) (v : V) (m : Map V) → find k (assign k v m) ≡ some v
find_assigned k v m = rw (find-assign k k v m, str_eq_self k)

pub total_granted :
    (id : Bytes) (sum : ℕ) (h : Host) → get_reserved_space [] (granted_host id sum h) ≡ sum
unfolding get_reserved_space
total_granted id sum h = refl

pub find-granted :
    (c : ℕ) (id : Bytes) (sum : ℕ) (h : Host)
    → get_reserved_space (c ∷ id) (granted_host (c ∷ id) sum h) ≡ sum
unfolding get_reserved_space
find-granted c id sum h = rw (find_assigned (c ∷ id) sum h.reservations)

all_back : (n : ℕ) → (n + 2 ^ 64 - n) % 2 ^ 64 ≡ 0
all_back n = omega arith

pub unreserve_all :
    (c : ℕ) (id : Bytes) (sum : ℕ) (h : Host)
    → get_reserved_space [] (unreserve_space (c ∷ id) (granted_host (c ∷ id) sum h)) ≡ 0
unfolding unreserve_space
unreserve_all c id sum h = rw (find-granted c id sum h) (all_back sum)

-- As long as the sum is below 2 ^ 64, a request is refused and changes nothing exactly if it does
-- not fit into what is left; else the total and the record of the reservation both become that sum.
pub reserve_space_lem :
    (c : ℕ) (id : Bytes) (size : ℕ) (h : Host)
    → size + get_reserved_space [] h < 2 ^ 64
    → let (answer, h') = reserve_space (c ∷ id) size h in
      let sum = size + get_reserved_space [] h in
      ((h.capacity < sum) × (answer ≡ none) × (h' ≡ h))
      ⊎ ((sum ≤ h.capacity)
          × (answer ≡ some (c ∷ id))
          × (get_reserved_space [] h' ≡ sum)
          × (get_reserved_space (c ∷ id) h' ≡ sum))
reserve_space_lem c id size h fits =
    elim (Bool-cases (ltb h.capacity (size + get_reserved_space [] h))) [
      | inl large ↦
          let large' = ltb→lt h.capacity _ large in
          rw (reserve_space-refused (c ∷ id) size h fits large') (inl (large', refl, refl))
      | inr room ↦
          let room' = ltb_false→le h.capacity _ room in
          rw (reserve_space-granted (c ∷ id) size h fits room') (
            inr (
              room',
              refl,
              total_granted (c ∷ id) (size + get_reserved_space [] h) h,
              find-granted c id (size + get_reserved_space [] h) h,
            ))
    ]

-- When the sum of a request and the total is below 2 ^ 64 and within the host's size, giving
-- back what was just reserved leaves a total of 0, whatever the host had promised before.
pub unreserve_space-reserve_space :
    (c : ℕ) (id : Bytes) (size : ℕ) (h : Host)
    → size + get_reserved_space [] h < 2 ^ 64
    → size + get_reserved_space [] h ≤ h.capacity
    → get_reserved_space [] (unreserve_space (c ∷ id) (reserve_space (c ∷ id) size h).1) ≡ 0
unreserve_space-reserve_space c id size h fits room =
    rw (reserve_space-granted (c ∷ id) size h fits room)
      (unreserve_all c id (size + get_reserved_space [] h) h)

pub div_bounds : (n m : ℕ) → 0 < m → (n / m * m ≤ n) × (n < n / m * m + m)
div_bounds n m p =
    let whole = div-add-mod' n m in let part = mod-lt n p in (omega arith, omega arith)

small_quotient : (q n m : ℕ) → q * m ≤ n → n < m → q ≡ 0
small_quotient zero n m low lt = refl
small_quotient (suc q) n m low lt = ground (arith, suc-mul q m)

pub div_zero : (n m : ℕ) → n < m → n / m ≡ 0
div_zero n m lt = small_quotient (n / m) n m (div_bounds n m (ground arith)).0 lt

pub div_pos : (n m : ℕ) → 0 < m → m ≤ n → (n / m ≢ 0)
div_pos n m p le e =
    let (_, high) = div_bounds n m p in let high' : n < 0 * m + m = (rw e at high) in ground arith

pub on_create_partition-granted :
    (c : ℕ) (id : Bytes) (block_size : ℕ) (h : Host)
    → 0 < block_size
    → block_size ≤ get_reserved_space (c ∷ id) h
    → on_create_partition true (c ∷ id) block_size h ≡ (
      granted (c ∷ id),
      record h {
        configs =
            assign (c ∷ id) (get_reserved_space (c ∷ id) h / block_size, block_size) h.configs;
      },
    )
unfolding on_create_partition
on_create_partition-granted c id block_size h positive fits =
    let some_blocks = div_pos (get_reserved_space (c ∷ id) h) block_size positive fits in
    ground arith

pub on_create_partition-failed :
    (opens : Bool) (c : ℕ) (id : Bytes) (block_size : ℕ) (h : Host)
    → (block_size ≡ 0) ⊎ ((get_reserved_space (c ∷ id) h < block_size) ⊎ (opens ≡ false))
    → ((on_create_partition opens (c ∷ id) block_size h).1 ≡ h)
      × (why : Failure) × ((on_create_partition opens (c ∷ id) block_size h).0 ≡ failed 500 why)
unfolding on_create_partition
on_create_partition-failed opens c id block_size h bad =
    elim (Bool-cases (get_reserved_space (c ∷ id) h == 0)) [
      | inl e ↦ rw e (refl, invalid_reserve_id, refl)
      | inr e ↦ elim (Bool-cases (block_size == 0)) [
        | inl e' ↦ rw (e, e') (refl, zero_block_size, refl)
        | inr e' ↦ elim (Bool-cases (get_reserved_space (c ∷ id) h / block_size == 0)) [
          | inl e'' ↦ rw (e, e', e'') (refl, block_too_large, refl)
          | inr e'' ↦
              let small = div_zero (get_reserved_space (c ∷ id) h) block_size in
              let closed : opens ≡ false = ground (arith, small) in
              rw (e, e', e'', closed) (refl, not_initialized, refl)
        ]
      ]
    ]

-- A partition gets all blocks of the size asked for that its reservation holds, and at least one;
-- the request fails and changes nothing exactly on a block size of 0, on one that the reservation
-- does not hold, an unknown reservation holding nothing, or if `.config` cannot be opened.
pub on_create_partition_lem :
    (opens : Bool) (c : ℕ) (id : Bytes) (block_size : ℕ) (h : Host)
    → let reserved = get_reserved_space (c ∷ id) h in
      let (response, h') = on_create_partition opens (c ∷ id) block_size h in
      (((block_size ≡ 0) ⊎ ((reserved < block_size) ⊎ (opens ≡ false)))
        × (h' ≡ h)
        × (why : Failure) × (response ≡ failed 500 why))
      ⊎ ((0 < block_size)
          × (block_size ≤ reserved)
          × (opens ≡ true)
          × (response ≡ granted (c ∷ id))
          × (n : ℕ) × (find (c ∷ id) h'.configs ≡ some (n, block_size))
          × (0 < n)
          × (n * block_size ≤ reserved)
          × (reserved < n * block_size + block_size))
on_create_partition_lem opens c id block_size h =
    let reserved = get_reserved_space (c ∷ id) h in
    elim (Bool-cases (opens && (ltb 0 block_size && not (ltb reserved block_size)))) [
      | inl ok ↦
          let positive : 0 < block_size = ground arith in
          let fits : block_size ≤ reserved = ground arith in
          let opened : opens ≡ true = ground arith in
          let (low, high) = div_bounds reserved block_size positive in
          let some_blocks = div_pos reserved block_size positive fits in
          rw (opened, on_create_partition-granted c id block_size h positive fits)
            (inr (
              positive,
              fits,
              refl,
              refl,
              reserved / block_size,
              find_assigned (c ∷ id) (reserved / block_size, block_size) h.configs,
              ground arith,
              low,
              high,
            ))
      | inr bad ↦
          let why : (block_size ≡ 0) ⊎ ((reserved < block_size) ⊎ (opens ≡ false)) = ground arith in
          let (same, reason, failure) = on_create_partition-failed opens c id block_size h why in
          inl (why, same, reason, failure)
    ]
