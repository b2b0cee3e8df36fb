-- ===== src/Search.antt =====
-- src-tauri/src/search: the local search structures.
pub mod Trie
pub mod Fuzzy
pub mod Calc
pub mod Bloom
pub mod Ranked
pub mod Engine
