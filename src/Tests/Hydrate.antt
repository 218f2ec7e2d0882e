-- ===== src/Tests/Hydrate.antt =====
-- Posts of the sample tables, one of them cached without its author.
use redis_project.Base.{
  ℕ, ◌≡◌, refl, inr, Option, none, some, List, [], ◌∷◌, ◌++◌, Text, codes, length, take, drop,
}
use redis_project.Backend.{App}
use redis_project.Database.{Post}
use redis_project.Services.Accounts.{UserPublic}
use redis_project.Services.Hydrate.{PostJson, PostOut, hydrate_posts, cache_post, post_out}
use redis_project.Services.Hydrate.Entries.{IsRight, cache_post-IsRight}
use redis_project.Services.Hydrate.Shown.{shown, hydrate_posts_lem}
use redis_project.Services.Social.Reactions.{IsReflected}
use redis_project.Tests.Backend.{take-append, drop-append}
use redis_project.Tests.Follow.{with_tables, nobody}
use redis_project.Tests.Social.{nobody-IsFaithful}
use redis_project.Tests.Tables.{Kept, post_table}

abbrev write_author : Option UserPublic → Text
write_author none = []
write_author (some user) =
    user.id
    ∷ user.created_at
    ∷ length user.username
    ∷ length user.display_name
    ∷ (user.username ++ (user.display_name ++ user.bio))

abbrev read_author : Text → Option UserPublic
read_author (id ∷ created_at ∷ n ∷ m ∷ rest) = some (record {
  id = id;
  username = take n rest;
  display_name = take m (drop n rest);
  bio = drop m (drop n rest);
  created_at = created_at;
})
read_author s = none

pub read_author-write_author :
    (author : Option UserPublic) → read_author (write_author author) ≡ author
read_author-write_author none = refl
read_author-write_author (some user) =
    rw
      (
        take-append user.username (user.display_name ++ user.bio),
        drop-append user.username (user.display_name ++ user.bio),
        take-append user.display_name user.bio,
        drop-append user.display_name user.bio,
      )
      refl

abbrev write_post : PostOut → Text
write_post p =
    p.id
    ∷ p.author_id
    ∷ p.created_at
    ∷ p.like_count
    ∷ p.comment_count
    ∷ length p.content
    ∷ (p.content ++ write_author p.author)

abbrev read_post : Text → Option PostOut
read_post (id ∷ author_id ∷ created_at ∷ like_count ∷ comment_count ∷ n ∷ rest) = some (record {
  id = id;
  author_id = author_id;
  author = read_author (drop n rest);
  content = take n rest;
  created_at = created_at;
  like_count = like_count;
  comment_count = comment_count;
})
read_post s = none

abbrev pub json : PostJson
json = record {
  dumps = write_post;
  loads = read_post;
  loads_dumps = λ p.
      rw
        (
          take-append p.content (write_author p.author),
          drop-append p.content (write_author p.author),
          read_author-write_author p.author,
        )
        refl;
}

abbrev author_of : Kept → ℕ → Option UserPublic
author_of d id = some (record {
  id = id;
  username = codes "ada";
  display_name = codes "Ada";
  bio = [];
  created_at = 1;
})

abbrev pub row : Post
row = record { id = 4; author_id = 9; content = []; created_at = 5 }

abbrev cached : PostOut
cached = record (post_out with_tables json author_of nobody.db row) { author = none }

abbrev start : App with_tables
start = cache_post with_tables json author_of cached nobody

nobody-IsRight : IsRight with_tables json author_of nobody
nobody-IsRight pid u blob later e = absurd (cc e)

start-IsRight : IsRight with_tables json author_of start
unfolding post_out
start-IsRight =
    cache_post-IsRight with_tables json author_of cached nobody (row, refl, inr refl) nobody-IsRight

start-IsReflected : IsReflected with_tables start
unfolding cache_post
start-IsReflected =
    let h = nobody-IsFaithful.reflected in
    record { likers = h.likers; like_count = h.like_count; comment_count = h.comment_count }

-- The two posts come from the cache and from the table.
hydrate_posts_lem_example :
    let ids : List ℕ = 4 ∷ 7 ∷ [] in
    (a' : App with_tables) × (hydrate_posts with_tables json author_of ids start
      ≡ some (shown with_tables json author_of start.db ids, a'))
    × IsRight with_tables json author_of a'
    × (a'.db ≡ start.db)
    × (a'.sets ≡ start.sets)
    × (a'.counters ≡ start.counters)
hydrate_posts_lem_example =
    hydrate_posts_lem with_tables json author_of post_table (4 ∷ 7 ∷ []) start start-IsRight
      start-IsReflected
