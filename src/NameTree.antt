-- ===== src/NameTree.antt =====
-- The name tree: hashes of names (NameTree/Hashes) and the hash table of its nodes (NameTree/Hashtable), and the tree
-- (NameTree/Tree).
pub mod Hashes
pub mod Hashtable
pub mod Tree
