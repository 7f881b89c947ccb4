-- ===== src/MapReduce.antt =====
-- P3A: MapReduce: the hash map of hashmap.c and the framework of mapreduce.c.
pub mod Key
pub mod HashMap
pub mod Run
pub mod Tests
