-- ===== src/Tests/Hosts.antt =====
-- A host with 1000 bytes, 300 of them promised (src/bdhost/Util.cpp).
use drive.OrderedMap.{find}
use drive.Prelude.{ℕ, ◌+◌, ◌*◌, ◌≤◌, ◌<◌, ◌≡◌, refl, ◌⊎◌, none, some, true, false, [], ◌∷◌, arith}
use drive.Prelude.Texts.{codes}
use drive.Reserve.{
  Host, get_reserved_space, reserve_space, unreserve_space, Failure, failed, granted,
  on_create_partition,
}
use drive.Reserve.Accounting.{
  reserve_space_lem, unreserve_space-reserve_space, on_create_partition_lem,
}

abbrev host : Host
host = record {
  capacity = 1000;
  total = some 300;
  reservations = (codes "r", 300) ∷ [];
  configs = [];
}

promised : get_reserved_space [] host ≡ 300
unfolding get_reserved_space
promised = refl

reserve_space_example :
    let (answer, host') = reserve_space (codes "s") 200 host in
    let sum = 200 + get_reserved_space [] host in
    ((1000 < sum) × (answer ≡ none) × (host' ≡ host))
    ⊎ ((sum ≤ 1000)
        × (answer ≡ some (codes "s"))
        × (get_reserved_space [] host' ≡ sum)
        × (get_reserved_space (codes "s") host' ≡ sum))
reserve_space_example = reserve_space_lem b's' [] 200 host (ground (arith, promised))

-- 300 bytes were promised to "r", and nothing is recorded of them any more.
unreserve_space-reserve_space_example :
    get_reserved_space [] (unreserve_space (codes "s") (reserve_space (codes "s") 200 host).1) ≡ 0
unreserve_space-reserve_space_example =
    unreserve_space-reserve_space b's' [] 200 host (ground (arith, promised))
      (ground (arith, promised))

on_create_partition_example :
    let reserved = get_reserved_space (codes "r") host in
    let (response, host') = on_create_partition true (codes "r") 64 host in
    (((◌≡◌ {A = ℕ} 64 0) ⊎ ((reserved < 64) ⊎ (true ≡ false)))
      × (host' ≡ host)
      × (why : Failure) × (response ≡ failed 500 why))
    ⊎ ((0 < 64)
        × (64 ≤ reserved)
        × (true ≡ true)
        × (response ≡ granted (codes "r"))
        × (n : ℕ) × (find (codes "r") host'.configs ≡ some (n, 64))
        × (0 < n)
        × (n * 64 ≤ reserved)
        × (reserved < n * 64 + 64))
on_create_partition_example = on_create_partition_lem true b'r' [] 64 host
