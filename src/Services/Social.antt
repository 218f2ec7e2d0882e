-- ===== src/Services/Social.antt =====
-- Calls of all services on the state of all stores, one after another.
pub mod Kept
pub mod Reactions
pub mod Likes
pub mod Comments
pub mod Follows
pub mod Refill
pub mod Printed
pub mod Faithful
pub mod Reach
