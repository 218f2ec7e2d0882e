-- ===== src/Services/Social/Refill.antt =====
-- What puts data of the tables back into Redis: `_backfill_counters` of app/services/user_service.py
-- and `get_followers` of app/services/follow_service.py.
use redis_project.Base.{
  ℕ, ◌≡◌, refl, sym, ap, ◌∙◌, inl, inr, true, List, [], ◌∷◌, ◌==◌, length, Text, Bool-cases, arith,
}
use redis_project.Base.Int.{pos}
use redis_project.Backend.{Backend, App}
use redis_project.Database.Tables.{SocialTables}
use redis_project.Keys
use redis_project.Keys.Apart.{
  follower_count-ne, following_count-ne, follower_count-ne-following_count,
}
use redis_project.Keys.Decimal.{decimal}
use redis_project.Keys.Social.{
  comment_count-ne-follower_count, comment_count-ne-following_count, like_count-ne-follower_count,
  like_count-ne-following_count,
}
use redis_project.Redis.Counters.{or_zero}
use redis_project.Redis.Expiring.{contains}
use redis_project.Services.Follow.{get_followers, add_all}
use redis_project.Services.Follow.Mirror.{IsMirrored}
use redis_project.Services.Graph.{count_at-set}
use redis_project.Services.Social.Kept.{ReactionsKept, same_reactions}
use redis_project.Services.Users.{backfill_counters}

pub length-empty {ℓ} : {A : Type ℓ} → (xs : List A) → (length xs == 0) ≡ true → xs ≡ []
length-empty [] e = refl
length-empty (x ∷ xs) e = absurd (ground arith)

module _ (b : Backend) where
  -- The counters of a user, set to what the table has.
  pub backfill_counters-IsMirrored :
      (u : ℕ) (a : App b) → IsMirrored b a → IsMirrored b (backfill_counters b u a)
  unfolding backfill_counters
  backfill_counters-IsMirrored u a h =
      let c =
        b.counters.set a.counters (Keys.user_follower_count u)
          (pos (b.database.follower_count a.db u)) in
      record {
        following = h.following;
        followers = h.followers;
        following_count =
            count_at-set Keys.user_following_count following_count-ne b.counters c
              (b.database.following_count a.db) u
              (λ x.
                ap or_zero (
                  b.counters.set_other a.counters (Keys.user_follower_count u)
                    (pos (b.database.follower_count a.db u)) (Keys.user_following_count x)
                    (λ e. follower_count-ne-following_count u x (sym e)))
                ∙ h.following_count x);
        follower_count = λ x.
            ap or_zero (
              b.counters.set_other c (Keys.user_following_count u)
                (pos (b.database.following_count a.db u)) (Keys.user_follower_count x)
                (follower_count-ne-following_count x u))
            ∙ count_at-set Keys.user_follower_count follower_count-ne b.counters a.counters
                (b.database.follower_count a.db) u h.follower_count x;
      }

  pub backfill_counters-ReactionsKept :
      (u : ℕ) (a : App b) → ReactionsKept b a (backfill_counters b u a)
  unfolding backfill_counters
  backfill_counters-ReactionsKept u a =
      let followers = pos (b.database.follower_count a.db u) in
      let following = pos (b.database.following_count a.db u) in
      let c = b.counters.set a.counters (Keys.user_follower_count u) followers in
      record {
        rows = same_reactions b a.db;
        likers = λ x. refl;
        like_count = λ x.
            b.counters.set_other c (Keys.user_following_count u) following (Keys.post_like_count x)
              (like_count-ne-following_count x u)
            ∙ b.counters.set_other a.counters (Keys.user_follower_count u) followers
                (Keys.post_like_count x) (like_count-ne-follower_count x u);
        comment_count = λ x.
            b.counters.set_other c (Keys.user_following_count u) following
              (Keys.post_comment_count x) (comment_count-ne-following_count x u)
            ∙ b.counters.set_other a.counters (Keys.user_follower_count u) followers
                (Keys.post_comment_count x) (comment_count-ne-follower_count x u);
      }

  module _ (tables : SocialTables b.database) (u : ℕ) (a : App b) (h : IsMirrored b a) where
    pub followers_of-empty :
        (length (b.sets.smembers a.sets (Keys.user_followers u)) == 0) ≡ true
        → b.database.followers_of a.db u ≡ []
    unfolding contains
    followers_of-empty empty =
        let members = b.sets.smembers a.sets (Keys.user_followers u) in
        tables.followers_of_none a.db u
          (λ x. sym (h.followers x u) ∙ ap (contains (decimal x)) (length-empty members empty))

    -- A set of followers that is empty where it equals the table is that of a user whom nobody
    -- follows, so nothing is added to it.
    pub get_followers-same :
        (random : List Text → ℕ → List Text) (limit : ℕ) → a ≡ (get_followers b random u limit a).1
    unfolding get_followers add_all
    get_followers-same random limit =
        elim (Bool-cases (length (b.sets.smembers a.sets (Keys.user_followers u)) == 0)) [
          | inl empty ↦ rw (empty, followers_of-empty empty, get_followers, add_all) refl
          | inr full ↦ rw (full, get_followers) refl
        ]
