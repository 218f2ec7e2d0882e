-- ===== src/Tests/Follow.antt =====
-- Calls of the services on sample tables.
use redis_project.Base.{refl, [], Text, codes, text_eq}
use redis_project.Base.Int.{pos}
use redis_project.Backend.{Backend, App}
use redis_project.Cache.{get_or_set}
use redis_project.Keys
use redis_project.Keys.Decimal.{decimal}
use redis_project.Services.Notify.{emit_notification, publish_job, publish_event, store_event}
use redis_project.Redis.Expiring.{contains}
use redis_project.Services.Follow.{follow}
use redis_project.Services.Follow.Mirror.{IsMirrored}
use redis_project.Services.Users.{UserProfile, get_cached_profile}
use redis_project.Services.Users.Counts.{IsCurrent, Counted, Restored, get_cached_profile-Counted}
use redis_project.Tests.Cache.{plain, sleep, loader}
use redis_project.Tests.Rows.{has, to, from}
use redis_project.Tests.Tables.{tables}
use redis_project.Tests.Backend.{backend, empty_app}

abbrev pub with_tables : Backend
with_tables = record backend { database = tables }

abbrev pub nobody : App with_tables
nobody = record {
  zsets = empty_app.zsets;
  counters = empty_app.counters;
  sets = empty_app.sets;
  strings = empty_app.strings;
  streams = empty_app.streams;
  db = record { follows = []; likes = []; posts = []; comments = [] };
  published = [];
  now = 1000000;
}

pub nobody-IsMirrored : IsMirrored with_tables nobody
unfolding has from to contains
nobody-IsMirrored = record {
  following = λ x y. refl;
  followers = λ x y. refl;
  following_count = λ x. refl;
  follower_count = λ x. refl;
}

-- User 1 follows user 2.
abbrev pub followed : App with_tables
followed = (follow with_tables 1 2 nobody).1

-- The same, where Redis has lost the counters.
abbrev lost : App with_tables
lost = record followed { counters = empty_app.counters }

lost-IsCurrent : IsCurrent with_tables 2 lost
lost-IsCurrent = record { followers = λ n e. absurd (cc e); following = λ n e. absurd (cc e) }

-- The profile of user 2 once user 1 follows them.
abbrev profile : UserProfile Text
profile = record {
  base = codes "v";
  follower_count = pos 1;
  following_count = pos 0;
  post_count = 0;
}

get_cached_profile-Counted_example :
    Counted with_tables 2 lost profile
    × Restored with_tables 2 lost (get_cached_profile with_tables plain sleep loader 7 2 lost).1
unfolding get_cached_profile has to from text_eq get_or_set follow emit_notification publish_job
    publish_event store_event Keys.user_follower_count Keys.notification_unread decimal
    Keys.user_following_count
get_cached_profile-Counted_example =
    get_cached_profile-Counted with_tables plain 2 sleep loader 7 lost profile lost-IsCurrent refl
