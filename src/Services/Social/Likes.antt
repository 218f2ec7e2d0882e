-- ===== src/Services/Social/Likes.antt =====
-- The calls of app/services/post_service.py on the likers and counters, and on the follows.
use redis_project.Base.{
  ℕ, ◌≡◌, refl, sym, ap, ◌∙◌, ◌⊎◌, inl, inr, Bool, true, false, some, ◌==◌, Text, codes, Bool-cases,
  Option-cases,
}
use mathlib.Core.Path.{subst}
use redis_project.Backend.{Backend, App}
use redis_project.Database.{Post}
use redis_project.Database.Tables.{SocialTables}
use redis_project.Keys
use redis_project.Keys.Decimal.{decimal}
use redis_project.Keys.Social.{
  like_count-ne-follower_count, like_count-ne-following_count, likers-ne-followers,
  likers-ne-following,
}
use redis_project.Services.Likes.{like_post, unlike_post, record_like, after_like, like_message}
use redis_project.Services.Likes.Counted.{liked, locked_like-liked}
use redis_project.Services.Notify.{emit_notification}
use redis_project.Services.Social.Kept.{
  FollowsKept, FollowsKept-trans, FollowsKept-else, emit_notification-FollowsKept,
  emit_notification-ReactionsKept, same_follows,
}
use redis_project.Services.Social.Reactions.{
  IsReflected, IsReflected-kept, liked-IsReflected, unliked-IsReflected,
}

module _ (b : Backend) where
  reply-state : {p q : Bool × App b} → some p ≡ some q → p.1 ≡ q.1
  reply-state {p = p} {q = q} e = let same : p ≡ q = cc e in ap (λ (t : Bool × App b). t.1) same

  -- What a like leaves, once its row is in the table.
  abbrev pub AfterLike : ℕ → ℕ → App b → App b → Post → b.database.Db → b.strings.Server → Type 0
  AfterLike u p a a' post d strings =
      (b.database.insert_like a.db u p ≡ some d)
      × (emit_notification b (codes "like") u post.author_id (codes "post") p (like_message u)
            (record_like b p post.created_at (liked b u p (record a { db = d }) strings)).1
          ≡ a')

  -- A call of `like_post` either leaves the state, or it is a like.
  pub like_post-cases :
      (u p : ℕ) (token : Text) (a a' : App b) (done : Bool)
      → like_post b u p token a ≡ some (done, a')
      → (a ≡ a')
        ⊎ ((post : Post) × (d : b.database.Db) × (strings : b.strings.Server) × AfterLike u p a a'
              post d strings)
  unfolding like_post after_like
  like_post-cases u p token a a' done e = elim (Option-cases (b.database.get_post a.db p)) [
    | inl missing ↦
        let same : like_post b u p token a ≡ some (false, a) = rw (missing, like_post) refl in
        inl (reply-state (sym same ∙ e))
    | inr (post, found) ↦ elim (Option-cases (b.database.insert_like a.db u p)) [
      | inl refused ↦
          let same : like_post b u p token a ≡ some (false, a) =
            rw (found, refused, like_post) refl in
          inl (reply-state (sym same ∙ e))
      | inr (d, inserted) ↦
          let (strings, now) = locked_like-liked b u p token (record a { db = d }) in
          let sent =
            emit_notification b (codes "like") u post.author_id (codes "post") p (like_message u)
              (record_like b p post.created_at (liked b u p (record a { db = d }) strings)).1 in
          let same : like_post b u p token a ≡ some (true, sent) =
            rw (found, inserted, now, like_post, after_like) refl in
          inr (post, d, strings, (inserted, reply-state (sym same ∙ e)))
    ]
  ]

  module _ (tables : SocialTables b.database) (u p : ℕ) (a : App b) where
    pub like_post-IsReflected :
        (token : Text) (a' : App b) (done : Bool)
        → like_post b u p token a ≡ some (done, a')
        → IsReflected b a
        → IsReflected b a'
    unfolding record_like
    like_post-IsReflected token a' done e h = elim (like_post-cases u p token a a' done e) [
      | inl same ↦ subst (IsReflected b) same h
      | inr (post, d, strings, (inserted, sent)) ↦
          let a1 =
            (record_like b p post.created_at (liked b u p (record a { db = d }) strings)).1 in
          let liked_h =
            liked-IsReflected b u p a d strings (tables.insert_like_lem a.db d u p inserted) h in
          subst (IsReflected b) sent (
            IsReflected-kept b a1 _
              (emit_notification-ReactionsKept b (codes "like") u post.author_id (codes "post") p
                (like_message u) a1)
              (record {
                likers = liked_h.likers;
                like_count = liked_h.like_count;
                comment_count = liked_h.comment_count;
              }))
    ]

    liked-FollowsKept :
        (d : b.database.Db) (strings : b.strings.Server)
        → b.database.insert_like a.db u p ≡ some d
        → FollowsKept b a (liked b u p (record a { db = d }) strings)
    liked-FollowsKept d strings inserted = record {
      rows = tables.insert_like_same a.db d u p inserted;
      following = λ x.
          b.sets.sadd_other a.sets (Keys.post_likers p) (decimal u) (Keys.user_following x)
            (λ e. likers-ne-following p x (sym e));
      followers = λ x.
          b.sets.sadd_other a.sets (Keys.post_likers p) (decimal u) (Keys.user_followers x)
            (λ e. likers-ne-followers p x (sym e));
      following_count = λ x.
          b.counters.incr_other a.counters (Keys.post_like_count p) (Keys.user_following_count x)
            (λ e. like_count-ne-following_count p x (sym e));
      follower_count = λ x.
          b.counters.incr_other a.counters (Keys.post_like_count p) (Keys.user_follower_count x)
            (λ e. like_count-ne-follower_count p x (sym e));
    }

    pub like_post-FollowsKept :
        (token : Text) (a' : App b) (done : Bool)
        → like_post b u p token a ≡ some (done, a')
        → FollowsKept b a a'
    unfolding record_like
    like_post-FollowsKept token a' done e = elim (like_post-cases u p token a a' done e) [
      | inl same ↦
          subst (FollowsKept b a) same (FollowsKept-else b a a (same_follows b a.db) refl refl)
      | inr (post, d, strings, (inserted, sent)) ↦
          let a0 = liked b u p (record a { db = d }) strings in
          let a1 = (record_like b p post.created_at a0).1 in
          subst (FollowsKept b a) sent (
            FollowsKept-trans b a a1 _
              (FollowsKept-trans b a a0 a1 (liked-FollowsKept d strings inserted)
                (FollowsKept-else b a0 a1 (same_follows b d) refl refl))
              (emit_notification-FollowsKept b (codes "like") u post.author_id (codes "post") p
                (like_message u) a1))
    ]

    pub unlike_post-IsReflected : IsReflected b a → IsReflected b (unlike_post b u p a).1
    unfolding unlike_post
    unlike_post-IsReflected h = elim (Bool-cases (b.database.likes a.db u p)) [
      | inl held ↦
          rw (tables.delete_like_rowcount a.db u p held, unlike_post)
            (unliked-IsReflected b u p a (b.database.delete_like a.db u p).1
              (tables.delete_like_lem a.db u p held) h)
      | inr absent ↦ rw (tables.delete_like_absent a.db u p absent, unlike_post) h
    ]

    pub unlike_post-FollowsKept : FollowsKept b a (unlike_post b u p a).1
    unfolding unlike_post
    unlike_post-FollowsKept =
        let (rowcount, d) = b.database.delete_like a.db u p in
        let rows = tables.delete_like_same a.db u p in
        elim (Bool-cases ((b.database.delete_like a.db u p).0 == 0)) [
          | inl nothing ↦ rw (nothing, unlike_post) (FollowsKept-else b a _ rows refl refl)
          | inr deleted ↦
              rw (deleted, unlike_post)
                (record {
                  rows = rows;
                  following = λ x.
                      b.sets.srem_other a.sets (Keys.post_likers p) (decimal u)
                        (Keys.user_following x) (λ e. likers-ne-following p x (sym e));
                  followers = λ x.
                      b.sets.srem_other a.sets (Keys.post_likers p) (decimal u)
                        (Keys.user_followers x) (λ e. likers-ne-followers p x (sym e));
                  following_count = λ x.
                      b.counters.decr_other a.counters (Keys.post_like_count p)
                        (Keys.user_following_count x)
                        (λ e. like_count-ne-following_count p x (sym e));
                  follower_count = λ x.
                      b.counters.decr_other a.counters (Keys.post_like_count p)
                        (Keys.user_follower_count x)
                        (λ e. like_count-ne-follower_count p x (sym e));
                })
        ]
