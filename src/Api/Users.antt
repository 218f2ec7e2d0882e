-- ===== src/Api/Users.antt =====
-- app/api/users.py.
use redis_project.Base.{ℕ, Option, none, some, ◌++◌, Text, codes, ◌==◌, if◌then◌else◌}
use redis_project.Activity.{record_activity}
use redis_project.Api.{Site, Web, Reply, ok, http_exception, crashed, seconds, with_user}
use redis_project.Backend.{App}
use redis_project.Cache.{Json, World, Loader}
use redis_project.Keys.Decimal.{decimal}
use redis_project.Services.Follow
use redis_project.Services.Users.{UserProfile, get_cached_profile, invalidate_user_cache}

-- `f"{kind}:{id}"`
unfoldable pub target : Text → ℕ → Text
target kind id = kind ++ (codes ":" ++ decimal id)

module _ (p : Site) where
  -- `analytics_service.record_activity`, with the present time.
  unfoldable pub log_activity : ℕ → Text → Text → Web p → Web p
  unfolding seconds
  log_activity user_id kind on w = record w {
    lists = record_activity p.library p.lists w.lists (p.iso_of (seconds p w)) user_id kind on;
  }

  module _ {V : Type 0} (j : Json V) where
    -- The profile that a route answers with; a profile without a cached part is a user that is not
    -- there.
    unfoldable pub profile_reply :
        Option (Option (UserProfile V)) × App p.backend → Web p → Reply (UserProfile V) × Web p
    profile_reply (none, app) w = (crashed, record w { app = app })
    profile_reply (some none, app) w =
        (http_exception 404 (codes "user not found"), record w { app = app })
    profile_reply (some (some profile), app) w = (ok profile, record w { app = app })

    module _ (sleep : World j p.backend.strings → World j p.backend.strings)
        (loader : ℕ → Loader j p.backend.strings) (jitter : ℕ) where
      unfoldable pub get_user : ℕ → Web p → Reply (UserProfile V) × Web p
      unfolding profile_reply
      get_user target_id w =
          profile_reply
            (get_cached_profile p.backend j sleep (loader target_id) jitter target_id w.app) w

      unfoldable pub me : Option Text → Web p → Reply (UserProfile V) × Web p
      unfolding get_user with_user
      me authorization = with_user p authorization get_user

    -- Both users' profiles are dropped from the cache.
    unfoldable pub invalidate_both : ℕ → ℕ → Web p → Web p
    invalidate_both target_id user_id w = record w {
      app =
          invalidate_user_cache p.backend j user_id
            (invalidate_user_cache p.backend j target_id w.app);
    }

    unfoldable pub follow_other : ℕ → ℕ → Web p → Reply Text × Web p
    unfolding invalidate_both log_activity target
    follow_other target_id user_id w =
        let (done, app) = Follow.follow p.backend user_id target_id w.app in
        (
          ok (if done then codes "followed" else codes "already following"),
          log_activity user_id (codes "follow") (target (codes "user") target_id)
              (invalidate_both target_id user_id (record w { app = app })),
        )

    unfoldable pub follow_user : ℕ → Option Text → Web p → Reply Text × Web p
    unfolding follow_other with_user
    follow_user target_id authorization = with_user p authorization (λ user_id w.
        let done = follow_other target_id user_id w in
        if target_id == user_id
        then (http_exception 400 (codes "cannot follow yourself"), w)
        else done)

    unfoldable pub unfollow_user : ℕ → Option Text → Web p → Reply Text × Web p
    unfolding invalidate_both with_user
    unfollow_user target_id authorization = with_user p authorization (λ user_id w.
        let (done, app) = Follow.unfollow p.backend user_id target_id w.app in
        (
          ok (if done then codes "unfollowed" else codes "not following"),
          invalidate_both target_id user_id (record w { app = app }),
        ))
