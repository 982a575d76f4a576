-- ===== src/Tests.antt =====
-- The theorems at concrete data, and runs of the program's parts.
mod Stored
mod Queues
mod Volumes
mod Caches
mod Blobs
mod Files
mod Options
mod Cookies
mod Paths
mod Codes
mod Hosts
mod Disks
mod Routes
mod Buffers
