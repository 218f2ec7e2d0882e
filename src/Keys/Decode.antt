-- ===== src/Keys/Decode.antt =====
-- Reading a key back to its name: the prefixes are tried in order.
use mathlib.Core.List.{append-nil}
use redis_project.Base.{
  ℕ, ◌≡◌, refl, sym, ap, ◌∙◌, false, Option, none, some, List, [], ◌∷◌, ◌++◌, Text, codes, text_eq,
  text_eq_refl, ◌==◌, if◌then◌else◌, arith,
}
use redis_project.Keys
use redis_project.Keys.Decimal.{decimal, number_from, number_from-decimal, decimal_head}
use redis_project.Keys.Names.{Name, render, canonical, strip, ColonFree, IsPlain}

abbrev Reader : Type 0
Reader = Text → Option Name

abbrev exactly : Name → Text → Option Name
exactly n [] = some n
exactly n (c ∷ s) = none

abbrev numbered : (ℕ → Name) → ℕ × Text → Option Name
numbered f (n, []) = some (f n)
numbered f (n, c ∷ s) = none

by_id : (ℕ → Name) → Reader
by_id f s = numbered f (number_from 0 s)

-- A number that one of two suffixes follows.
by_suffix : Text → (ℕ → Name) → Text → (ℕ → Name) → Reader
by_suffix p f q g s =
    let (n, rest) = number_from 0 s in
    if text_eq rest p then some (f n) else if text_eq rest q then some (g n) else none

split_colon : Text → Text × Text
split_colon [] = ([], [])
split_colon (c ∷ s) = let (b, i) = split_colon s in if c == 58 then ([], s) else (c ∷ b, i)

by_bucket : Reader
by_bucket s = let (b, i) = split_colon s in some (Name.rate_limit b i)

abbrev table : List (Text × Reader)
table =
    (codes "cache:user:by_username:", λ s. some (Name.user_by_username s))
    ∷ (codes "cache:user:", by_id Name.user_cache)
    ∷ (codes "cache:post:", by_id Name.post_cache)
    ∷ (
      codes "counter:post:",
      by_suffix (codes ":likes") Name.post_like_count (codes ":comments") Name.post_comment_count,
    )
    ∷ (
      codes "counter:user:",
      by_suffix (codes ":followers") Name.user_follower_count (codes ":following")
          Name.user_following_count,
    )
    ∷ (codes "social:followers:", by_id Name.user_followers)
    ∷ (codes "social:following:", by_id Name.user_following)
    ∷ (codes "social:post_likers:", by_id Name.post_likers)
    ∷ (codes "feed:home:", by_id Name.home_feed)
    ∷ (codes "feed:user:", by_id Name.user_posts)
    ∷ (codes "feed:global:recent", exactly Name.global_recent_feed)
    ∷ (codes "trending:posts", exactly Name.trending_posts)
    ∷ (codes "trending:bucket:", λ s. some (Name.trending_bucket s))
    ∷ (codes "leaderboard:karma", exactly Name.leaderboard_karma)
    ∷ (codes "notif:stream:", by_id Name.notification_stream)
    ∷ (codes "notif:pub:", by_id Name.notification_pubsub)
    ∷ (codes "notif:unread:", by_id Name.notification_unread)
    ∷ (codes "session:user:", by_id Name.user_sessions)
    ∷ (codes "session:", λ s. some (Name.session s))
    ∷ (codes "rl:", by_bucket)
    ∷ (codes "lock:", λ s. some (Name.lock s))
    ∷ (codes "jobs:fanout", exactly Name.stream_fanout)
    ∷ (codes "jobs:notifications", exactly Name.stream_notifications)
    ∷ (codes "analytics:dau:", λ s. some (Name.dau (Keys.Day.text s)))
    ∷ (codes "analytics:post_views:", by_id Name.post_unique_viewers)
    ∷ (codes "activity:recent", exactly Name.recent_activity)
    ∷ (codes "activity:user:", by_id Name.user_activity)
    ∷ []

first : List (Text × Reader) → Text → Option Name
first [] s = none
first ((p, read) ∷ rows) s =
    let rest = first rows s in elim (strip p s) [ none ↦ rest | some left ↦ read left ]

pub decode : Reader
unfolding first strip by_bucket Keys.user_cache Keys.post_cache Keys.user_followers
    Keys.user_following Keys.post_likers Keys.home_feed Keys.user_posts Keys.notification_stream
    Keys.notification_pubsub Keys.notification_unread Keys.user_sessions Keys.post_unique_viewers
    Keys.user_activity Keys.global_recent_feed Keys.trending_posts Keys.leaderboard_karma
    Keys.stream_fanout Keys.stream_notifications Keys.recent_activity Keys.user_by_username
    Keys.post_like_count Keys.post_comment_count Keys.user_follower_count Keys.user_following_count
    Keys.trending_bucket Keys.session Keys.rate_limit Keys.lock Keys.dau
decode = first table

by_id-decimal : (f : ℕ → Name) (n : ℕ) → by_id f (decimal n) ≡ some (f n)
unfolding by_id number_from
by_id-decimal f n =
    ap (λ s. numbered f (number_from 0 s)) (sym (append-nil (decimal n)))
    ∙ ap (numbered f) (number_from-decimal n [])

by_suffix_first :
    (p q : Text) (f g : ℕ → Name) (n : ℕ)
    → number_from n p ≡ (n, p)
    → by_suffix p f q g (decimal n ++ p) ≡ some (f n)
unfolding by_suffix
by_suffix_first p q f g n e = rw (number_from-decimal n p, e, text_eq_refl p)

by_suffix_second :
    (p q : Text) (f g : ℕ → Name) (n : ℕ)
    → number_from n q ≡ (n, q)
    → text_eq q p ≡ false
    → by_suffix p f q g (decimal n ++ q) ≡ some (g n)
unfolding by_suffix
by_suffix_second p q f g n e d = rw (number_from-decimal n q, e, d, text_eq_refl q)

split_colon_lem : (b i : Text) → ColonFree b → split_colon (b ++ (codes ":" ++ i)) ≡ (b, i)
unfolding split_colon
split_colon_lem [] i h = refl
split_colon_lem (c ∷ b) i h = rw (h.0, split_colon_lem b i h.1)

strip-decimal : (n : ℕ) → strip (codes "by_username:") (decimal n) ≡ none
unfolding strip
strip-decimal n = let (d, ds, e, lo, hi) = decimal_head n in rw e (ground arith)

-- Every plain key is read back to its name.
pub decode-render : (n : Name) → IsPlain n → decode (render n) ≡ some (canonical n)
unfolding render canonical decode number_from text_eq
decode-render (Name.user_cache n) h = rw (strip-decimal n, first) (by_id-decimal Name.user_cache n)
decode-render (Name.post_cache n) h = by_id-decimal Name.post_cache n
decode-render (Name.user_followers n) h = by_id-decimal Name.user_followers n
decode-render (Name.user_following n) h = by_id-decimal Name.user_following n
decode-render (Name.post_likers n) h = by_id-decimal Name.post_likers n
decode-render (Name.home_feed n) h = by_id-decimal Name.home_feed n
decode-render (Name.user_posts n) h = by_id-decimal Name.user_posts n
decode-render (Name.notification_stream n) h = by_id-decimal Name.notification_stream n
decode-render (Name.notification_pubsub n) h = by_id-decimal Name.notification_pubsub n
decode-render (Name.notification_unread n) h = by_id-decimal Name.notification_unread n
decode-render (Name.user_sessions n) h = by_id-decimal Name.user_sessions n
decode-render (Name.post_unique_viewers n) h = by_id-decimal Name.post_unique_viewers n
decode-render (Name.user_activity n) h = by_id-decimal Name.user_activity n
decode-render Name.global_recent_feed h = refl
decode-render Name.trending_posts h = refl
decode-render Name.leaderboard_karma h = refl
decode-render Name.stream_fanout h = refl
decode-render Name.stream_notifications h = refl
decode-render Name.recent_activity h = refl
decode-render (Name.user_by_username u) h = refl
decode-render (Name.trending_bucket u) h = refl
decode-render (Name.lock u) h = refl
decode-render (Name.dau u) h = refl
decode-render (Name.post_like_count n) h =
    by_suffix_first (codes ":likes") (codes ":comments") Name.post_like_count
      Name.post_comment_count n refl
decode-render (Name.post_comment_count n) h =
    by_suffix_second (codes ":likes") (codes ":comments") Name.post_like_count
      Name.post_comment_count n refl refl
decode-render (Name.user_follower_count n) h =
    by_suffix_first (codes ":followers") (codes ":following") Name.user_follower_count
      Name.user_following_count n refl
decode-render (Name.user_following_count n) h =
    by_suffix_second (codes ":followers") (codes ":following") Name.user_follower_count
      Name.user_following_count n refl refl
decode-render (Name.session t) h = rw (h, first)
decode-render (Name.rate_limit b i) h = rw (split_colon_lem b i h)
