-- ===== src/Ordered.antt =====
-- The ordered collections of Rust's standard library that the program uses: `BTreeMap` and
-- `BTreeSet`, as association lists and lists in increasing order of their keys.
pub mod Key
pub mod Map
pub mod MapLaws
pub mod Set
pub mod SetLaws
