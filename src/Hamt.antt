-- ===== src/Hamt.antt =====
-- The hash array mapped trie of ipld/hamt, in which actors keep their maps. HashBits, Bitfield and Slots
-- are its parts, Node and Remove the methods of a node, Trie and Flush those of the trie. View, Buckets,
-- Lookup and Total hold what Refines needs, Delete is about removal.
pub mod HashBits
pub mod Bitfield
pub mod Slots
pub mod Node
pub mod Remove
pub mod Buckets
pub mod View
pub mod Lookup
pub mod Total
pub mod Trie
pub mod Refines
pub mod Delete
pub mod Flush
mod Tests
