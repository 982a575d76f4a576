-- ===== src/Lib.antt =====
-- The storage library of a drive on other people's hosts: blobs kept in folders, the client's cache
-- of values, and the host's accounts of the space it has promised.
--
-- How the parts interact. A folder (bdblob) is a map from names to entries; each entry carries the
-- metadata of a blob, that is, its size and the partitions that hold it. Folders and metadata are
-- stored as bytes through the buffered streams (bdfsclient-lib). The blob map keeps serialized
-- metadata in a local file. The blob API takes a path apart and walks the folders, and finds names
-- by pattern. The bytes of a file lie in a blob, and a provider keeps blobs as local files, with
-- their sizes in the blob map. A host (bdhost) reserves space for its clients, makes partitions in
-- it, and keeps a bit set of the blocks in use. A volume (bdfsclient-lib) lays bytes over the
-- partitions of several hosts, with erasure codes on some of them. Its cache keeps cells in local
-- files, and takes its requests through a queue (bdfs-lib). Base64 (bdfs-lib) carries binary data
-- inside texts.
--
-- Files:
--   Prelude       shared names, tests on numbers, lists and texts
--   OrderedMap    `std::map` with string keys, as an association list in the order of
--                 `std::string::compare`
--   Stream        src/bdfsclient-lib/BufferedInputStream.cpp, IInputStream.cpp,
--                 BufferedOutputStream.cpp and IOutputStream.cpp: `read`, `read_uint32` and so on
--                 stand for `Read`, `ReadUInt32`; a `Writer` is a call of a `Write` method, and
--                 `>>` joins two calls by `&&`
--   Metadata      src/bdblob/BlobMetadata.cpp
--   Folder        src/bdblob/Folder.cpp: the entries, their stored form, `Find`
--   BlobMap       src/bdblob/BlobMap.cpp; an `Outcome` says which calls of the C library succeed
--   BlobPath      `SplitPath`, `JoinPaths` and `BaseName` of src/bdblob/BlobApi.cpp
--   Pattern       `matchPattern` of src/bdblob/BlobApi.cpp
--   Base64        src/bdfs-lib/Base64Encoder.cpp
--   BitSet        src/bdhost/BitSet.cpp
--   Reserve       src/bdhost/Util.cpp and the requests of src/bdhost/PartitionHandler.cpp on it
--   HostPartition src/bdhost/Partition.cpp, the file form of the bit set, and the block requests of
--                 src/bdhost/PartitionHandler.cpp, each of which opens the partition anew (`reopen`);
--                 a `Disk` says which files can be opened and made
--   HostRoutes    the paths of requests in src/bdhost/PartitionHandler.cpp
--   Buffer        src/bdblob/Buffer.cpp
--   Arguments     src/bdblob/ArgumentParser.cpp and Argument.cpp: the options of a command line
--   Cookies       `Set` by parts and `Delete` of src/bdfs-lib/HttpCookies.cpp
--   FileBlob      src/bdblob/FileBlob.cpp and FileBlobProvider.cpp over a directory of files; `Calls`
--                 says which calls of the C library succeed
--   BlobFile      src/bdblob/File.cpp over a record of the calls it makes, `Provider`; BlobFile/Files
--                 makes FileBlob such a provider
--   Volume        src/bdfsclient-lib/Volume.cpp, VolumeRow.cpp, VolumeCell.cpp and Partition.cpp over a
--                 record of the calls they make, `Backend`; Volume/Hosts: the backend of
--                 src/bdfs-lib/BdPartition.cpp with the handlers of HostPartition at its other end
--   Cache         src/bdfsclient-lib/Cache.cpp over the calls of a volume: Cache/Files has the files,
--                 Cache/Steps `ReadImpl`, `WriteImpl`, `Flush`, `Pop` and `UpdateTimestamp` with the
--                 requests; a `Moment` holds the time of a request, whether others wait, and the
--                 disk. Cache/Backing puts the cache between a volume and its partitions
--   WorkQueue     src/bdfs-lib/LockFreeQueue.h: the steps of threads, one access to shared memory each,
--                 for values that stay in place when they are moved, such as pointers
--   Tests         the theorems at concrete data, and runs
--
-- A string is a list of bytes. Integers are naturals; where the code's type can overflow, the
-- remainder is written out. The loop of `Decode` runs on fuel, the length of its text, which
-- suffices as every round takes a character; that of `InitBlock` on the number of bytes it has to
-- write, as every round writes one; those of `Volume::Write` and `Volume::Read` on the number of bytes,
-- as every round takes one; those over a file of the cache on the bytes of the file, as every
-- round takes eight; that of `NewBlob` on the size, as every round takes a buffer. That of
-- `ArgumentParser::Parse` runs on the length of the command line, as every round takes an argument.
-- The other loops are recursions on their data.
--
-- Not modelled: input and output on sockets and devices, locks, the reuse of freed memory, the
-- shell command by which `OnDelete` removes a partition, the libraries of other projects (JSON,
-- HTTP, Kademlia, erasure code), and of the program's own parts the waits of the cache's thread,
-- the encryption of volumes, the blobs on hosts, cookies in the text of a header, and the
-- operations of folders and of the blob API on a provider.
pub mod Prelude
pub mod OrderedMap
pub mod Stream
pub mod Metadata
pub mod Folder
pub mod BlobMap
pub mod BlobPath
pub mod Pattern
pub mod Base64
pub mod BitSet
pub mod Reserve
pub mod HostPartition
pub mod HostRoutes
pub mod Buffer
pub mod Arguments
pub mod Cookies
pub mod FileBlob
pub mod BlobFile
pub mod Volume
pub mod Cache
pub mod WorkQueue
pub mod Tests
