-- ===== src/Services/Social/Reach.antt =====
-- Redis and the tables over any sequence of calls of the services, of
-- app/services and app/workers. Each call runs as a whole.
use redis_project.Base.{ℕ, ◌≡◌, refl, Bool, some, List, Text}
use redis_project.Backend.{Backend, App, Job, NotificationEvent}
use redis_project.Cache.{Json, World, Loader}
use redis_project.Database.{Post}
use redis_project.Database.Tables.{SocialTables}
use redis_project.Services.Follow.{follow, unfollow}
use redis_project.Services.Follow.Mirror.{follow-IsMirrored, unfollow-IsMirrored}
use redis_project.Services.Likes.{like_post, unlike_post, comment_on_post, bootstrap_post_counter}
use redis_project.Services.Notifier.{row_of}
use redis_project.Services.Notify.{emit_notification, mark_all_read}
use redis_project.Services.Posts.{create_post}
use redis_project.Services.Social.Comments.{
  comment_on_post-IsReflected, comment_on_post-FollowsKept, bootstrap_post_counter-IsReflected,
  bootstrap_post_counter-FollowsKept,
}
use redis_project.Services.Social.Faithful.{
  IsFaithful, IsFaithful-reacted, IsFaithful-kept, IsFaithful-else, mark_all_read-IsFaithful,
  get_cached_profile-IsFaithful, handle_fanout-IsFaithful, create_post-IsFaithful,
}
use redis_project.Services.Social.Follows.{follow-ReactionsKept, unfollow-ReactionsKept}
use redis_project.Services.Social.Kept.{
  FollowsKept-else, ReactionsKept-else, emit_notification-FollowsKept,
  emit_notification-ReactionsKept,
}
use redis_project.Services.Social.Likes.{
  like_post-IsReflected, like_post-FollowsKept, unlike_post-IsReflected, unlike_post-FollowsKept,
}
use redis_project.Services.Social.Printed.{follow-IsPrinted, unfollow-IsPrinted}
use redis_project.Services.Social.Reactions.{IsReflected-kept}
use redis_project.Services.Users.{get_cached_profile}
use redis_project.Services.Workers.{handle_fanout}

module _ (b : Backend) {V : Type 0} (j : Json V) (post_json : b.database.Db → Post → Text) where
  -- A call of a service, or of a worker's handler. `elsewhere` is what other parts do: they change
  -- timelines, strings, streams and messages, and time passes.
  pub data Step : App b → App b → Type 0 where
    follows : (u v : ℕ) (a : App b) → Step a (follow b u v a).1
    unfollows : (u v : ℕ) (a : App b) → Step a (unfollow b u v a).1
    likes :
        (u p : ℕ) (token : Text) (a a' : App b) (done : Bool)
        → like_post b u p token a ≡ some (done, a')
        → Step a a'
    unlikes : (u p : ℕ) (a : App b) → Step a (unlike_post b u p a).1
    comments : (u p : ℕ) (content : Text) (a : App b) → Step a (comment_on_post b u p content a).1
    resets : (p : ℕ) (a : App b) → Step a (bootstrap_post_counter b p a)
    posts : (u : ℕ) (content : Text) (a : App b) → Step a (create_post b post_json u content a).1
    profiles :
        (sleep : World j b.strings → World j b.strings) (loader : Loader j b.strings) (jitter u : ℕ)
        (a : App b)
        → Step a (get_cached_profile b j sleep loader jitter u a).1
    notifies :
        (kind : Text) (actor_id recipient_id : ℕ) (object_type : Text) (object_id : ℕ)
        (message : Text) (a : App b)
        → Step a (emit_notification b kind actor_id recipient_id object_type object_id message a)
    reads_all : (u : ℕ) (a : App b) → Step a (mark_all_read b u a)
    persists :
        (event : NotificationEvent) (a : App b)
        → Step a (record a { db = b.database.insert_notification a.db (row_of event) })
    fans_out :
        (random : List Text → ℕ → List Text) (job : Job) (a : App b)
        → Step a (handle_fanout b random job a)
    elsewhere :
        (a : App b) (zsets : b.zsets.Server) (strings : b.strings.Server)
        (streams : b.streams.Server) (published : List (Text × NotificationEvent)) (now : ℕ)
        → Step a (record a {
          zsets = zsets;
          strings = strings;
          streams = streams;
          published = published;
          now = now;
        })

  pub data Reach (a : App b) : App b → Type 0 where
    here : Reach a a
    next : {u v : App b} → Reach a u → Step u v → Reach a v

  module _ (tables : SocialTables b.database) where
    Step-IsFaithful : {a a' : App b} → Step a a' → IsFaithful b a → IsFaithful b a'
    Step-IsFaithful (follows u v a) h = record {
      mirrored = follow-IsMirrored b tables.follow u v a h.mirrored;
      reflected = IsReflected-kept b a _ (follow-ReactionsKept b tables u v a) h.reflected;
      printed = follow-IsPrinted b u v a h.printed;
    }
    Step-IsFaithful (unfollows u v a) h = record {
      mirrored = unfollow-IsMirrored b tables.follow u v a h.mirrored;
      reflected = IsReflected-kept b a _ (unfollow-ReactionsKept b tables u v a) h.reflected;
      printed = unfollow-IsPrinted b u v a h.printed;
    }
    Step-IsFaithful (likes u p token a a' done e) h =
        IsFaithful-reacted b a a' (like_post-FollowsKept b tables u p a token a' done e)
          (like_post-IsReflected b tables u p a token a' done e h.reflected) h
    Step-IsFaithful (unlikes u p a) h =
        IsFaithful-reacted b a _ (unlike_post-FollowsKept b tables u p a)
          (unlike_post-IsReflected b tables u p a h.reflected) h
    Step-IsFaithful (comments u p content a) h =
        IsFaithful-reacted b a _ (comment_on_post-FollowsKept b tables u p a content)
          (comment_on_post-IsReflected b tables u p a content h.reflected) h
    Step-IsFaithful (resets p a) h =
        IsFaithful-reacted b a _ (bootstrap_post_counter-FollowsKept b p a)
          (bootstrap_post_counter-IsReflected b p a h.reflected) h
    Step-IsFaithful (posts u content a) h = create_post-IsFaithful b tables post_json u content a h
    Step-IsFaithful (profiles sleep loader jitter u a) h =
        get_cached_profile-IsFaithful b j sleep loader jitter u a h
    Step-IsFaithful (notifies kind actor_id recipient_id object_type object_id message a) h =
        IsFaithful-kept b a _
          (emit_notification-FollowsKept b kind actor_id recipient_id object_type object_id message
            a)
          (emit_notification-ReactionsKept b kind actor_id recipient_id object_type object_id
            message a)
          h
    Step-IsFaithful (reads_all u a) h = mark_all_read-IsFaithful b u a h
    Step-IsFaithful (persists event a) h =
        let (same_rows, reactions) = tables.insert_notification_same a.db (row_of event) in
        IsFaithful-kept b a _ (FollowsKept-else b a _ same_rows refl refl)
          (ReactionsKept-else b a _ reactions refl refl) h
    Step-IsFaithful (fans_out random job a) h = handle_fanout-IsFaithful b tables random job a h
    Step-IsFaithful (elsewhere a zsets strings streams published now) h =
        IsFaithful-else b a _ refl refl refl h

    -- Redis keeps saying what the tables say. From a state in which the sets of followers, followed
    -- users and likers, and the counters of followers, followed users, likes and comments equal the
    -- tables, and the members of the sets of followers are printed ids, every state that is reached
    -- by follows, unfollows, likes, unlikes, comments, posts, profiles, notifications, counter
    -- resets, the workers' jobs, and any change of timelines, strings, streams and messages, one
    -- whole call after another, in any order and also where a call is refused, is such a state.
    pub Reach-IsFaithful : {a a' : App b} → Reach a a' → IsFaithful b a → IsFaithful b a'
    Reach-IsFaithful here h = h
    Reach-IsFaithful (next r e) h = Step-IsFaithful e (Reach-IsFaithful r h)
