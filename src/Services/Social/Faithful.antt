-- ===== src/Services/Social/Faithful.antt =====
-- Redis against the tables, and the calls of app/services and app/workers that change neither the
-- follows nor the reactions, or both.
use redis_project.Base.{
  ℕ, ◌/◌, ◌≡◌, refl, ap, inl, inr, ◌||◌, Option, none, some, List, Text, Bool-cases,
}
use mathlib.Core.Path.{subst}
use redis_project.Backend.{Backend, App, Job, fanout_post, backfill_follower, persist, unknown}
use redis_project.Cache.{Json, World, Loader, get_or_set}
use redis_project.Database.{Post}
use redis_project.Database.Tables.{SocialTables}
use redis_project.Keys
use redis_project.Keys.Apart.{
  follower_count-ne-unread, following_count-ne-unread, like_count-ne-unread,
}
use redis_project.Keys.Social.{comment_count-ne-unread}
use redis_project.Services.Follow.{get_followers}
use redis_project.Services.Follow.Mirror.{IsMirrored}
use redis_project.Services.Notify.{mark_all_read}
use redis_project.Services.Posts.{create_post}
use redis_project.Services.Posts.Written.{create_post_lem}
use redis_project.Services.Social.Kept.{
  FollowsKept, ReactionsKept, FollowsKept-else, ReactionsKept-else, IsMirrored-kept, same_follows,
  same_reactions,
}
use redis_project.Services.Social.Printed.{IsPrinted, IsPrinted-same}
use redis_project.Services.Social.Reactions.{IsReflected, IsReflected-kept}
use redis_project.Services.Social.Refill.{
  backfill_counters-IsMirrored, backfill_counters-ReactionsKept, get_followers-same,
}
use redis_project.Services.Users.{
  is_missing, backfill_counters, with_counters, answer_profile, get_cached_profile, user_cache_ttl,
}
use redis_project.Services.Workers.{handle_fanout}

module _ (b : Backend) where
  -- Redis says what the tables say: of the follows from both sides, of the likers, and of the counts
  -- of followers, followed users, likes and comments; and followers are listed by printed ids.
  pub record IsFaithful (a : App b) : Type 0 where
    pub mirrored : IsMirrored b a
    pub reflected : IsReflected b a
    pub printed : IsPrinted b a.sets

  pub IsFaithful-kept :
      (a a' : App b) → FollowsKept b a a' → ReactionsKept b a a' → IsFaithful a → IsFaithful a'
  IsFaithful-kept a a' f r h = record {
    mirrored = IsMirrored-kept b a a' f h.mirrored;
    reflected = IsReflected-kept b a a' r h.reflected;
    printed = IsPrinted-same b a.sets a'.sets f.followers h.printed;
  }

  -- Likes and comments may have changed, in Redis as in the tables.
  pub IsFaithful-reacted :
      (a a' : App b) → FollowsKept b a a' → IsReflected b a' → IsFaithful a → IsFaithful a'
  IsFaithful-reacted a a' f r h = record {
    mirrored = IsMirrored-kept b a a' f h.mirrored;
    reflected = r;
    printed = IsPrinted-same b a.sets a'.sets f.followers h.printed;
  }

  pub IsFaithful-else :
      (a a' : App b)
      → a'.db ≡ a.db
      → a'.sets ≡ a.sets
      → a'.counters ≡ a.counters
      → IsFaithful a
      → IsFaithful a'
  IsFaithful-else a a' db sets counters =
      IsFaithful-kept a a' (FollowsKept-else b a a' (rw db (same_follows b a.db)) sets counters)
        (ReactionsKept-else b a a' (rw db (same_reactions b a.db)) sets counters)

  pub mark_all_read-IsFaithful :
      (u : ℕ) (a : App b) → IsFaithful a → IsFaithful (mark_all_read b u a)
  unfolding mark_all_read
  mark_all_read-IsFaithful u a =
      let other = b.counters.del_other a.counters (Keys.notification_unread u) in
      IsFaithful-kept a _
        (record {
          rows = same_follows b a.db;
          following = λ x. refl;
          followers = λ x. refl;
          following_count =
              λ x. other (Keys.user_following_count x) (following_count-ne-unread x u);
          follower_count = λ x. other (Keys.user_follower_count x) (follower_count-ne-unread x u);
        })
        (record {
          rows = same_reactions b a.db;
          likers = λ x. refl;
          like_count = λ x. other (Keys.post_like_count x) (like_count-ne-unread x u);
          comment_count = λ x. other (Keys.post_comment_count x) (comment_count-ne-unread x u);
        })

  backfill_counters-IsFaithful :
      (u : ℕ) (a : App b) → IsFaithful a → IsFaithful (backfill_counters b u a)
  unfolding backfill_counters
  backfill_counters-IsFaithful u a h = record {
    mirrored = backfill_counters-IsMirrored b u a h.mirrored;
    reflected = IsReflected-kept b a _ (backfill_counters-ReactionsKept b u a) h.reflected;
    printed = h.printed;
  }

  module _ {V : Type 0} (j : Json V) where
    answer_profile-IsFaithful :
        (u : ℕ) (found : Option (Option V)) (a : App b)
        → IsFaithful a
        → IsFaithful (answer_profile b j u found a).1
    unfolding answer_profile with_counters
    answer_profile-IsFaithful u none a h = h
    answer_profile-IsFaithful u (some none) a h = h
    answer_profile-IsFaithful u (some (some base)) a h =
        elim (Bool-cases (
          is_missing (b.counters.value a.counters (Keys.user_follower_count u))
          || is_missing (b.counters.value a.counters (Keys.user_following_count u)))) [
            | inl cold ↦ rw (cold, with_counters) (backfill_counters-IsFaithful u a h)
            | inr warm ↦ rw (warm, with_counters) h
          ]

    pub get_cached_profile-IsFaithful :
        (sleep : World j b.strings → World j b.strings) (loader : Loader j b.strings) (jitter u : ℕ)
        (a : App b)
        → IsFaithful a
        → IsFaithful (get_cached_profile b j sleep loader jitter u a).1
    unfolding get_cached_profile user_cache_ttl
    get_cached_profile-IsFaithful sleep loader jitter u a h =
        let (found, w) =
          get_or_set j b.strings sleep loader 5 40 (Keys.user_cache u) user_cache_ttl jitter
            (record { server = a.strings; now = a.now / 1000 }) in
        let a1 = record a { strings = w.server } in
        answer_profile-IsFaithful u found a1 (IsFaithful-else a a1 refl refl refl h)

  module _ (tables : SocialTables b.database) where
    pub handle_fanout-IsFaithful :
        (random : List Text → ℕ → List Text) (job : Job) (a : App b)
        → IsFaithful a
        → IsFaithful (handle_fanout b random job a)
    unfolding handle_fanout
    handle_fanout-IsFaithful random (fanout_post post_id author_id score) a h =
        let a1 = (get_followers b random author_id 100000 a).1 in
        IsFaithful-else a1 _ refl refl refl
          (subst IsFaithful (get_followers-same b tables author_id a h.mirrored random 100000) h)
    handle_fanout-IsFaithful random (backfill_follower follower_id followee_id) a h =
        IsFaithful-else a _ refl refl refl h
    handle_fanout-IsFaithful random (persist event) a h = h
    handle_fanout-IsFaithful random (unknown kind) a h = h

    pub create_post-IsFaithful :
        (post_json : b.database.Db → Post → Text) (u : ℕ) (content : Text) (a : App b)
        → IsFaithful a
        → IsFaithful (create_post b post_json u content a).1
    create_post-IsFaithful post_json u content a =
        let (row, cached, famous, sent, counters, sets, published) =
          create_post_lem b post_json u content a in
        let (same_rows, reactions) = tables.insert_post_same a.db u content in
        let db : (create_post b post_json u content a).1.db
            ≡ (b.database.insert_post a.db u content).1 =
          ap (λ (t : Post × b.database.Db). t.1) row in
        IsFaithful-kept a _ (FollowsKept-else b a _ (rw db same_rows) sets counters)
          (ReactionsKept-else b a _ (rw db reactions) sets counters)
