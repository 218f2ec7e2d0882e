-- ===== src/Services/Users.antt =====
-- The profiles of app/services/user_service.py: a cached row, and live counters.
use redis_project.Base.{
  ℕ, ◌/◌, Bool, true, false, not, ◌&&◌, ◌||◌, Option, none, some, map, ◌==◌, if◌then◌else◌,
}
use redis_project.Backend.{Backend, App}
use redis_project.Base.Int.{ℤ, pos}
use redis_project.Cache.{Json, World, Loader, cache_delete, get_or_set}
use redis_project.Feed.{zadd, execute}
use redis_project.Keys
use redis_project.Keys.Decimal.{decimal}
use redis_project.Redis.Counters.{or_zero}
pub mod Counts

-- `USER_CACHE_TTL`, in seconds
unfoldable pub user_cache_ttl : ℕ
user_cache_ttl = 300

-- A profile is the cached part with the three counters.
pub record UserProfile (V : Type 0) : Type 0 where
  pub base : V
  pub follower_count : ℤ
  pub following_count : ℤ
  pub post_count : ℕ

unfoldable pub is_missing : Option ℤ → Bool
is_missing none = true
is_missing (some n) = false

module _ (b : Backend) where
  -- `_backfill_counters`: the counters from the tables, and the timeline where there is none.
  unfoldable pub backfill_counters : ℕ → App b → App b
  backfill_counters user_id a =
      let posts = Keys.user_posts user_id in
      record a {
        counters =
            b.counters.set
              (b.counters.set a.counters (Keys.user_follower_count user_id)
                (pos (b.database.follower_count a.db user_id)))
              (Keys.user_following_count user_id) (pos (b.database.following_count a.db user_id));
        zsets =
            if not (b.database.post_count a.db user_id == 0) && not (b.zsets.exists a.zsets posts)
            then execute b.zsets a.zsets (
                map (λ (e : ℕ × ℕ). zadd posts (decimal e.0) e.1)
                  (b.database.posts_of a.db user_id))
            else a.zsets;
      }

  unfoldable pub profile_of : {V : Type 0} → ℕ → V → ℕ → App b → UserProfile V
  profile_of user_id base posts a = record {
    base = base;
    follower_count = or_zero (b.counters.value a.counters (Keys.user_follower_count user_id));
    following_count = or_zero (b.counters.value a.counters (Keys.user_following_count user_id));
    post_count = posts;
  }

  -- `get_cached_profile` once the cached part is there.
  unfoldable pub with_counters : {V : Type 0} → ℕ → V → App b → UserProfile V × App b
  unfolding backfill_counters profile_of is_missing
  with_counters user_id base a =
      let posts = b.zsets.zcard a.zsets (Keys.user_posts user_id) in
      let a' =
        if is_missing (b.counters.value a.counters (Keys.user_follower_count user_id))
          || is_missing (b.counters.value a.counters (Keys.user_following_count user_id))
        then backfill_counters user_id a
        else a in
      (profile_of user_id base posts a', a')

  module _ {V : Type 0} (j : Json V) where
    -- `get_cached_profile` from the reply of the cache on.
    unfoldable pub answer_profile :
        ℕ → Option (Option V) → App b → Option (Option (UserProfile V)) × App b
    unfolding with_counters
    answer_profile user_id none a = (none, a)
    answer_profile user_id (some none) a = (some none, a)
    answer_profile user_id (some (some base)) a =
        let (profile, a') = with_counters user_id base a in (some (some profile), a')

    -- The outer `none` is an exception of the loader. While the cache waits or loads, time passes on
    -- the cache's clock alone.
    unfoldable pub get_cached_profile :
        (World j b.strings → World j b.strings)
        → Loader j b.strings
        → ℕ
        → ℕ
        → App b
        → Option (Option (UserProfile V)) × App b
    unfolding answer_profile user_cache_ttl
    get_cached_profile sleep loader jitter user_id a =
        let (found, w) =
          get_or_set j b.strings sleep loader 5 40 (Keys.user_cache user_id) user_cache_ttl jitter
            (record { server = a.strings; now = a.now / 1000 }) in
        answer_profile user_id found (record a { strings = w.server })

    -- `invalidate_user_cache`
    unfoldable pub invalidate_user_cache : ℕ → App b → App b
    invalidate_user_cache user_id a = record a {
      strings =
          (cache_delete j b.strings (record { server = a.strings; now = a.now / 1000 })
            (Keys.user_cache user_id)).server;
    }
