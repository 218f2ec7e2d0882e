-- ===== src/Tests/Backend.antt =====
-- Sample streams, tables and codecs, and all sample servers together.
use redis_project.Base.{
  ◌≡◌, refl, ap, inl, false, Option, none, some, List, [], ◌∷◌, ◌++◌, reverse, Text, take, drop,
  length, ◌==◌, if◌then◌else◌,
}
use mathlib.Core.Option
use redis_project.Backend.{
  Backend, App, Job, NotificationEvent, Codec, fanout_post, backfill_follower, persist, unknown,
}
use redis_project.Database.{Notification, Database}
use redis_project.Redis.Streams.{StreamServer}
use redis_project.Tests.Counters.{no_counters, counter_sample, no_members, member_sample}
use redis_project.Tests.Expiring.{put, put_self, put_other}
use redis_project.Tests.Strings
use redis_project.Tests.Zsets

abbrev pub Entries : Type 0
Entries = List (Text × Text)

-- A stream's ids are the lengths it has had; nothing is trimmed.
abbrev pub stream_sample : StreamServer
stream_sample = record {
  Server = Text → Entries;
  entries = λ s k. s k;
  xadd = λ s k v maxlen. (length (s k) ∷ [], put s k (s k ++ (length (s k) ∷ [], v) ∷ []));
  xrevrange = λ s k n. take n (reverse (s k));
  entries_xadd = λ s k v maxlen. (0, put_self s k (s k ++ (length (s k) ∷ [], v) ∷ []), inl refl);
  xadd_other = λ s k v maxlen j h. put_other s k (s k ++ (length (s k) ∷ [], v) ∷ []) j h;
  xrevrange_lem = λ s k n. refl;
}

pub take-append : (s t : Text) → take (length s) (s ++ t) ≡ s
take-append [] t = refl
take-append (c ∷ s) t = ap (λ r. c ∷ r) (take-append s t)

pub drop-append : (s t : Text) → drop (length s) (s ++ t) ≡ t
drop-append [] t = refl
drop-append (c ∷ s) t = drop-append s t

-- An event as its numbers and the lengths of its first texts, and then its texts.
abbrev pub write_event : NotificationEvent → Text
write_event e =
    length e.kind
    ∷ length e.object_type
    ∷ e.actor_id
    ∷ e.recipient_id
    ∷ e.object_id
    ∷ e.ts
    ∷ (e.kind ++ (e.object_type ++ e.message))

abbrev pub read_event : Text → Option NotificationEvent
read_event (k ∷ o ∷ actor_id ∷ recipient_id ∷ object_id ∷ ts ∷ rest) = some (record {
  kind = take k rest;
  actor_id = actor_id;
  recipient_id = recipient_id;
  object_type = take o (drop k rest);
  object_id = object_id;
  message = drop o (drop k rest);
  ts = ts;
})
read_event s = none

pub read_event-write_event : (e : NotificationEvent) → read_event (write_event e) ≡ some e
read_event-write_event e =
    rw
      (
        take-append e.kind (e.object_type ++ e.message),
        drop-append e.kind (e.object_type ++ e.message),
        take-append e.object_type e.message,
        drop-append e.object_type e.message,
      )
      refl

abbrev event_sample : Codec NotificationEvent
event_sample = record {
  dumps = write_event;
  loads = read_event;
  loads_dumps = read_event-write_event;
}

abbrev pub write_job : Job → Text
write_job (fanout_post post_id author_id score) = 0 ∷ post_id ∷ author_id ∷ score ∷ []
write_job (backfill_follower follower_id followee_id) = 1 ∷ follower_id ∷ followee_id ∷ []
write_job (persist event) = 2 ∷ write_event event
write_job (unknown kind) = 3 ∷ kind

abbrev pub read_fanout : Text → Option Job
read_fanout (post_id ∷ author_id ∷ score ∷ []) = some (fanout_post post_id author_id score)
read_fanout s = none

abbrev pub read_backfill : Text → Option Job
read_backfill (follower_id ∷ followee_id ∷ []) = some (backfill_follower follower_id followee_id)
read_backfill s = none

abbrev pub read_job : Text → Option Job
read_job [] = none
read_job (tag ∷ rest) =
    if tag == 0
    then read_fanout rest
    else (if tag == 1
        then read_backfill rest
        else (if tag == 2 then Option.map persist (read_event rest) else some (unknown rest)))

pub read_job-write_job : (job : Job) → read_job (write_job job) ≡ some job
read_job-write_job (fanout_post post_id author_id score) = refl
read_job-write_job (backfill_follower follower_id followee_id) = refl
read_job-write_job (persist event) = ap (Option.map persist) (read_event-write_event event)
read_job-write_job (unknown kind) = refl

abbrev job_sample : Codec Job
job_sample = record { dumps = write_job; loads = read_job; loads_dumps = read_job-write_job }

-- Tables that only keep notifications, beside a post of user 9.
abbrev database_sample : Database
database_sample = record {
  Db = List Notification;
  get_post = λ d p. some (record { id = p; author_id = 9; content = []; created_at = 5 });
  insert_post =
      λ d u content. (record { id = 1; author_id = u; content = content; created_at = 6 }, d);
  post_count = λ d u. 0;
  posts_of = λ d u. [];
  insert_follow = λ d u v. some d;
  delete_follow = λ d u v. (0, d);
  follows = λ d u v. false;
  followers_of = λ d u. [];
  follower_count = λ d u. 0;
  following_count = λ d u. 0;
  insert_like = λ d u p. some d;
  delete_like = λ d u p. (0, d);
  likes = λ d u p. false;
  like_count = λ d p. 0;
  insert_comment = λ d u p content.
      (record { id = 1; post_id = p; author_id = u; content = content; created_at = 7 }, d);
  comment_count = λ d p. 0;
  select_comments = λ d p n. [];
  recent_posts = λ d n. [];
  insert_notification = λ d n. n ∷ d;
  notifications = λ d. d;
}

abbrev pub backend : Backend
backend = record {
  zsets = Zsets.sample;
  counters = counter_sample;
  sets = member_sample;
  strings = Strings.sample;
  streams = stream_sample;
  database = database_sample;
  events = event_sample;
  jobs = job_sample;
  trending_score = λ created_at likes now. created_at;
}

abbrev pub empty_app : App backend
empty_app = record {
  zsets = Zsets.no_zsets;
  counters = no_counters;
  sets = no_members;
  strings = Strings.no_strings;
  streams = λ k. [];
  db = [];
  published = [];
  now = 1000000;
}
