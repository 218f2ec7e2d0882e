-- ===== src/Services/Social/Kept.antt =====
-- Changes of the state that leave the follows, or the likes and comments, as they are.
use redis_project.Base.{ℕ, ◌≡◌, refl, sym, ap, ◌∙◌, Text}
use redis_project.Base.Int.{pos}
use redis_project.Backend.{Backend, App}
use redis_project.Database.Tables.{SameFollows, SameReactions}
use redis_project.Keys
use redis_project.Keys.Apart.{
  follower_count-ne-unread, following_count-ne-unread, like_count-ne-unread,
}
use redis_project.Keys.Social.{comment_count-ne-unread}
use redis_project.Redis.Counters.{or_zero}
use redis_project.Redis.Expiring.{contains}
use redis_project.Keys.Decimal.{decimal}
use redis_project.Services.Follow.Mirror.{IsMirrored}
use redis_project.Services.Notify.{emit_notification}
use redis_project.Services.Notify.Delivery.{emit_notification_lem, emit_notification_other}

module _ (b : Backend) where
  -- The two states have the same members under a key of sets, or the same value under a counter's.
  abbrev pub SameMembers : App b → App b → Text → Type 0
  SameMembers a a' key = b.sets.smembers a'.sets key ≡ b.sets.smembers a.sets key

  abbrev pub SameValue : App b → App b → Text → Type 0
  SameValue a a' key = b.counters.value a'.counters key ≡ b.counters.value a.counters key

  pub record FollowsKept (a a' : App b) : Type 0 where
    pub rows : SameFollows b.database a.db a'.db
    pub following : (x : ℕ) → SameMembers a a' (Keys.user_following x)
    pub followers : (x : ℕ) → SameMembers a a' (Keys.user_followers x)
    pub following_count : (x : ℕ) → SameValue a a' (Keys.user_following_count x)
    pub follower_count : (x : ℕ) → SameValue a a' (Keys.user_follower_count x)

  pub record ReactionsKept (a a' : App b) : Type 0 where
    pub rows : SameReactions b.database a.db a'.db
    pub likers : (x : ℕ) → SameMembers a a' (Keys.post_likers x)
    pub like_count : (x : ℕ) → SameValue a a' (Keys.post_like_count x)
    pub comment_count : (x : ℕ) → SameValue a a' (Keys.post_comment_count x)

  pub same_follows : (d : b.database.Db) → SameFollows b.database d d
  same_follows d = record {
    follows = λ x y. refl;
    follower_count = λ x. refl;
    following_count = λ x. refl;
  }

  pub same_reactions : (d : b.database.Db) → SameReactions b.database d d
  same_reactions d = record {
    likes = λ x y. refl;
    like_count = λ x. refl;
    comment_count = λ x. refl;
  }

  module _ (a a' : App b) where
    -- The other stores are free to change.
    pub FollowsKept-else :
        SameFollows b.database a.db a'.db
        → a'.sets ≡ a.sets
        → a'.counters ≡ a.counters
        → FollowsKept a a'
    FollowsKept-else rows sets counters = record {
      rows = rows;
      following = λ x. rw sets refl;
      followers = λ x. rw sets refl;
      following_count = λ x. rw counters refl;
      follower_count = λ x. rw counters refl;
    }

    pub ReactionsKept-else :
        SameReactions b.database a.db a'.db
        → a'.sets ≡ a.sets
        → a'.counters ≡ a.counters
        → ReactionsKept a a'
    ReactionsKept-else rows sets counters = record {
      rows = rows;
      likers = λ x. rw sets refl;
      like_count = λ x. rw counters refl;
      comment_count = λ x. rw counters refl;
    }

    pub IsMirrored-kept : FollowsKept a a' → IsMirrored b a → IsMirrored b a'
    IsMirrored-kept k h = record {
      following = λ x y.
          ap (contains (decimal y)) (k.following x) ∙ h.following x y ∙ sym (k.rows.follows x y);
      followers = λ x y.
          ap (contains (decimal x)) (k.followers y) ∙ h.followers x y ∙ sym (k.rows.follows x y);
      following_count = λ x.
          ap or_zero (k.following_count x)
          ∙ h.following_count x
          ∙ ap pos (sym (k.rows.following_count x));
      follower_count = λ x.
          ap or_zero (k.follower_count x)
          ∙ h.follower_count x
          ∙ ap pos (sym (k.rows.follower_count x));
    }

    module _ (a'' : App b) where
      pub FollowsKept-trans : FollowsKept a a' → FollowsKept a' a'' → FollowsKept a a''
      FollowsKept-trans h k = record {
        rows = record {
          follows = λ x y. k.rows.follows x y ∙ h.rows.follows x y;
          follower_count = λ x. k.rows.follower_count x ∙ h.rows.follower_count x;
          following_count = λ x. k.rows.following_count x ∙ h.rows.following_count x;
        };
        following = λ x. k.following x ∙ h.following x;
        followers = λ x. k.followers x ∙ h.followers x;
        following_count = λ x. k.following_count x ∙ h.following_count x;
        follower_count = λ x. k.follower_count x ∙ h.follower_count x;
      }

      pub ReactionsKept-trans : ReactionsKept a a' → ReactionsKept a' a'' → ReactionsKept a a''
      ReactionsKept-trans h k = record {
        rows = record {
          likes = λ x y. k.rows.likes x y ∙ h.rows.likes x y;
          like_count = λ x. k.rows.like_count x ∙ h.rows.like_count x;
          comment_count = λ x. k.rows.comment_count x ∙ h.rows.comment_count x;
        };
        likers = λ x. k.likers x ∙ h.likers x;
        like_count = λ x. k.like_count x ∙ h.like_count x;
        comment_count = λ x. k.comment_count x ∙ h.comment_count x;
      }

  -- A notification touches neither.
  module _ (kind : Text) (actor_id recipient_id : ℕ) (object_type : Text) (object_id : ℕ)
      (message : Text) (a : App b) where
    abbrev emitted : App b
    emitted = emit_notification b kind actor_id recipient_id object_type object_id message a

    pub emit_notification-FollowsKept : FollowsKept a emitted
    emit_notification-FollowsKept =
        let (self, sent, db, sets, zsets, strings) =
          emit_notification_lem b kind actor_id recipient_id object_type object_id message a in
        let other =
          emit_notification_other b kind actor_id recipient_id object_type object_id message a in
        record {
          rows = rw db (same_follows a.db);
          following = λ x. rw sets refl;
          followers = λ x. rw sets refl;
          following_count =
              λ x. other (Keys.user_following_count x) (following_count-ne-unread x recipient_id);
          follower_count =
              λ x. other (Keys.user_follower_count x) (follower_count-ne-unread x recipient_id);
        }

    pub emit_notification-ReactionsKept : ReactionsKept a emitted
    emit_notification-ReactionsKept =
        let (self, sent, db, sets, zsets, strings) =
          emit_notification_lem b kind actor_id recipient_id object_type object_id message a in
        let other =
          emit_notification_other b kind actor_id recipient_id object_type object_id message a in
        record {
          rows = rw db (same_reactions a.db);
          likers = λ x. rw sets refl;
          like_count = λ x. other (Keys.post_like_count x) (like_count-ne-unread x recipient_id);
          comment_count =
              λ x. other (Keys.post_comment_count x) (comment_count-ne-unread x recipient_id);
        }
