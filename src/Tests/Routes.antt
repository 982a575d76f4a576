-- ===== src/Tests/Routes.antt =====
-- A request to the folder of partitions (src/bdhost/PartitionHandler.cpp).
use drive.HostRoutes.{on_folder_request, reserve_partition}
use drive.Prelude.{◌≡◌, refl}
use drive.Prelude.Texts.{codes, str_compare}

reserve_request : on_folder_request (codes "Reserve") ≡ reserve_partition
unfolding on_folder_request str_compare
reserve_request = refl
