-- ===== src/External/Concrete.antt =====
-- A value for each interface, which the runs and the theorems' instances use.
pub mod Codec
pub mod SortedSet
pub mod LocalRedis
pub mod LocalSql
pub mod Tally
pub mod NearestFirst
