-- ===== src/Services.antt =====
-- The services on the state of all stores.
pub mod Notifier
pub mod Notify
pub mod Accounts
pub mod Graph
pub mod Follow
pub mod Hydrate
pub mod Likes
pub mod Workers
pub mod Posts
pub mod Trending
pub mod Users
pub mod Social
