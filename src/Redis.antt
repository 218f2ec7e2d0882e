-- ===== src/Redis.antt =====
-- The Redis server, one interface for each type of value that the program keeps there. Every family
-- of keys holds one type, and the families do not meet (Keys/Apart), so each interface has a
-- keyspace of its own. The fields that are no commands are the documented behaviour of the commands.
pub mod Zsets
pub mod Strings
pub mod Expiring
pub mod Client
pub mod Counters
pub mod Boards
pub mod Buckets
pub mod Groups
pub mod Hyperloglogs
pub mod Lists
pub mod Pubsub
pub mod Sets
pub mod Streams
