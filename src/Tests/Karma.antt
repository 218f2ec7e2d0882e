-- ===== src/Tests/Karma.antt =====
-- A leaderboard, and a notification worker that credits karma on it.
use redis_project.Base.{
  ℕ, suc, ◌+◌, ◌≡◌, ◌≢◌, refl, sym, ap, ◌∙◌, inl, inr, Bool, true, false, some, List, [], ◌∷◌, take,
  Text, codes, text_eq, text_eq_refl, text_eq_ne, text_eq_sound, if◌then◌else◌, arith, Bool-cases,
}
use redis_project.Activity.Karma.{add_karma, top_leaderboard, user_rank}
use redis_project.Activity.Karma.Rank.{get_elem?, top_leaderboard-add_karma, karma_of, row_at}
use redis_project.Backend.{Job, NotificationEvent, persist, unknown}
use redis_project.Database.Tables.{NotificationTable}
use redis_project.Database.{Notification}
use redis_project.Keys.Decimal.{decimal}
use redis_project.Queue.{Json, State, going, rounds, decode}
use redis_project.Redis.Boards.{BoardServer, score_in, rank_in}
use redis_project.Services.Notifier.{Books, handle_notification, karma_per_kind}
use redis_project.Services.Notifier.Credited.{karma, karma_sum, with_rows, rounds-IsCredited}
use redis_project.Tests.Backend.{backend, write_job, read_job, read_job-write_job}
use redis_project.Tests.Expiring.{put, put_self}
use redis_project.Tests.Groups.{sample}

abbrev Scores : Type 0
Scores = List (Text × ℕ)

abbrev bump : ℕ → Text → Scores → Scores
bump d m [] = (m, d) ∷ []
bump d m ((x, score) ∷ rows) =
    let rest = bump d m rows in if text_eq x m then (x, score + d) ∷ rows else (x, score) ∷ rest

score-bump : (d : ℕ) (m : Text) (rows : Scores) → score_in m (bump d m rows) ≡ score_in m rows + d
score-bump d m [] = rw (text_eq_refl m) (omega arith)
score-bump d m ((x, score) ∷ rows) = elim (Bool-cases (text_eq x m)) [
  | inl same ↦ rw (same, same) refl
  | inr other ↦ rw (other, other) (score-bump d m rows)
]

score-bump_other :
    (d : ℕ) (m y : Text) (rows : Scores) → y ≢ m → score_in y (bump d m rows) ≡ score_in y rows
score-bump_other d m y [] h = rw (text_eq_ne m y (λ e. h (cc e))) refl
score-bump_other d m y ((x, score) ∷ rows) h = elim (Bool-cases (text_eq x m)) [
  | inl same ↦ rw (same, text_eq_ne x y (λ e. h (sym e ∙ text_eq_sound x m same))) refl
  | inr other ↦
      rw other (ap (λ t. if text_eq x y then score else t) (score-bump_other d m y rows h))
]

abbrev board_sample : BoardServer
board_sample = record {
  Server = Text → Scores;
  board = λ s k. s k;
  zrevrange = λ s k stop. take (suc stop) (s k);
  zrevrank = λ s k m. rank_in m (s k);
  zincrby = λ s k delta m. (score_in m (s k) + delta, put s k (bump delta m (s k)));
  zrevrange_lem = λ s k stop. refl;
  zrevrank_lem = λ s k m. refl;
  zincrby_reply = λ s k delta m. refl;
  score_zincrby =
      λ s k delta m. ap (score_in m) (put_self s k (bump delta m (s k))) ∙ score-bump delta m (s k);
  score_zincrby_other = λ s k delta m x h.
      ap (score_in x) (put_self s k (bump delta m (s k))) ∙ score-bump_other delta m x (s k) h;
}

-- Users 3 and 4 stand on the board.
abbrev scores : Text → Scores
scores k = (decimal 3, 9) ∷ (decimal 4, 5) ∷ []

top_leaderboard-add_karma_example :
    let (sum, s') = add_karma board_sample scores 4 3 in
    (sum ≡ karma_of board_sample scores 4 + 3)
    × ((rank : ℕ) × (user_rank board_sample s' 4 ≡ some rank)
        × (get_elem? (top_leaderboard board_sample s' 1) rank ≡ row_at board_sample 1 rank 4 sum))
    × ((u rank : ℕ)
        → u ≢ 4
        → user_rank board_sample s' u ≡ some rank
        → get_elem? (top_leaderboard board_sample s' 1) rank
          ≡ row_at board_sample 1 rank u (karma_of board_sample scores u))
top_leaderboard-add_karma_example =
    top_leaderboard-add_karma board_sample scores 4 3 1 (omega arith) (omega arith)

abbrev job_json : Json Job
job_json = record {
  dumps = write_job;
  loads = read_job;
  loads_dumps = read_job-write_job;
  nothing = unknown [];
}

table : NotificationTable backend.database
table = record { insert_notification_lem = λ d n. refl }

-- User 4 comments on a post of user 3.
abbrev comment : NotificationEvent
comment = record {
  kind = codes "comment";
  actor_id = 4;
  recipient_id = 3;
  object_type = codes "post";
  object_id = 1;
  message = codes "hi";
  ts = 0;
}

-- Every transaction goes through.
abbrev commits : List Notification → Notification → Bool
commits d n = true

abbrev waiting : State sample (Books backend board_sample)
waiting = record {
  server = record {
    group = true;
    delivered = [];
    waiting = (1 ∷ [], write_job (persist comment)) ∷ [];
    pending = [];
  };
  world = record { db = []; board = scores };
}

rounds-IsCredited_example :
    let entries = sample.undelivered waiting.server in
    let (progress, st') =
      rounds job_json sample
        (handle_notification backend board_sample commits)
        (λ w. false)
        (7 ∷ [])
        (codes "w")
        64
        waiting in
    (progress ≡ going)
    × (sample.undelivered st'.server ≡ [])
    × (backend.database.notifications st'.world.db ≡ with_rows job_json entries [])
    × ((u : ℕ)
        → karma backend board_sample st'.world.board u
          ≡ karma backend board_sample scores u + karma_sum job_json u entries)
unfolding decode
rounds-IsCredited_example =
    rounds-IsCredited backend board_sample table commits (λ d n. refl) job_json sample (codes "w")
      (7 ∷ []) waiting refl (omega arith) (refl, tt)

-- A comment is worth 2.
credited : karma_sum job_json 3 (sample.undelivered waiting.server) ≡ 2
unfolding decode karma_per_kind text_eq
credited = refl
