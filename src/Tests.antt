-- ===== src/Tests.antt =====
-- Sample servers that meet the interfaces, test data, and instances of the theorems.
mod Zsets
mod Strings
mod Expiring
mod Rows
mod Tables
mod Follow
mod Social
mod Hydrate
mod Routes
mod Config
mod Sessions
mod Counters
mod Feed
mod Groups
mod Keys
mod Queue
mod RateLimiter
mod Activity
mod Api
mod Backend
mod Karma
mod Bucket
mod Cache
mod Likes
mod Lock
mod Middleware
mod Notify
mod Posts
mod Trending
mod Workers
