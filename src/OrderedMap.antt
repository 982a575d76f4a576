-- ===== src/OrderedMap.antt =====
-- `std::map<std::string, V>`: an association list in the order of its keys, without repeats.
-- `emplace`, `assign` (`m[k] = v`), `erase` and `find` are the library's operations that the
-- program uses.
mod Defs
mod Laws
unfoldable pub use Defs.{Map, Above, IsOrdered, find, emplace, assign, erase}
pub use Laws.*
