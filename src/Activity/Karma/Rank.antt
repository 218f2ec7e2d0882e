-- ===== src/Activity/Karma/Rank.antt =====
-- The rank and the leaderboard agree.
use redis_project.Base.{
  ℕ, zero, suc, ◌+◌, ◌-◌, ◌≤◌, ◌<◌, ◌≡◌, ◌≢◌, refl, sym, ap, ◌∙◌, inl, inr, Option, none, some,
  List, [], ◌∷◌, map, Text, text_eq, text_eq_sound, if◌then◌else◌, take, arith, ltb, ltb→lt,
  Bool-cases, Option-cases,
}
use mathlib.Core.Option
use redis_project.Activity.Karma.{read_row, add_karma, top_leaderboard, user_rank}
use redis_project.Keys
use redis_project.Keys.Decimal.{decimal}
use redis_project.Redis.Boards.{BoardServer, rank_in, score_in}
use redis_project.Services.Graph.{decimal-injective}
use redis_project.Sessions.Created.{int_of-decimal}

-- The item at a position.
abbrev pub get_elem? {ℓ} : {A : Type ℓ} → List A → ℕ → Option A
get_elem? [] i = none
get_elem? (x ∷ xs) zero = some x
get_elem? (x ∷ xs) (suc i) = get_elem? xs i

-- Within the first `n` rows, the row at the member's rank is the member's, with its score.
ranked :
    (m : Text) (rows : List (Text × ℕ)) (r n : ℕ)
    → rank_in m rows ≡ some r
    → r < n
    → get_elem? (map read_row (take n rows)) r ≡ some (read_row (m, score_in m rows))
ranked m [] r n e h = absurd (cc e)
ranked m ((x, score) ∷ rows) r zero e h = absurd (omega arith)
ranked m ((x, score) ∷ rows) r (suc n) e h = elim (Bool-cases (text_eq x m)) [
  | inl same ↦
      let first : some 0 ≡ some r =
        ap (λ t. if t then some 0 else Option.map suc (rank_in m rows)) (sym same) ∙ e in
      let zero_r : 0 ≡ r = cc first in rw (sym zero_r, same, text_eq_sound x m same) refl
  | inr differs ↦
      let later : Option.map suc (rank_in m rows) ≡ some r =
        ap (λ t. if t then some 0 else Option.map suc (rank_in m rows)) (sym differs) ∙ e in
      elim (Option-cases (rank_in m rows)) [
        | inl nowhere ↦ absurd (let q = ap (Option.map suc) (sym nowhere) ∙ later in cc q)
        | inr (q, there) ↦
            let both : some (suc q) ≡ some r = ap (Option.map suc) (sym there) ∙ later in
            let suc_q : suc q ≡ r = cc both in
            rw (sym suc_q, differs) (ranked m rows q n there (omega arith))
      ]
]

beyond :
    (rows : List (Text × ℕ)) (r n : ℕ) → n ≤ r → get_elem? (map read_row (take n rows)) r ≡ none
beyond rows r zero h = refl
beyond [] r (suc n) h = refl
beyond (x ∷ rows) zero (suc n) h = absurd (omega arith)
beyond (x ∷ rows) (suc r) (suc n) h = beyond rows r n (omega arith)

has_rank :
    (m : Text) (rows : List (Text × ℕ)) → 0 < score_in m rows → (r : ℕ) × (rank_in m rows ≡ some r)
has_rank m [] h = absurd (omega arith)
has_rank m ((x, score) ∷ rows) h = elim (Bool-cases (text_eq x m)) [
  | inl same ↦ (0, rw same refl)
  | inr differs ↦
      let h' : 0 < score_in m rows = rw differs at h in
      let (r, there) = has_rank m rows h' in (suc r, rw (differs, there) refl)
]

module _ (k : BoardServer) where
  -- What the board holds for a user.
  abbrev pub karma_of : k.Server → ℕ → ℕ
  karma_of s u = score_in (decimal u) (k.board s Keys.leaderboard_karma)

  -- A row of the leaderboard: the user's at the user's rank, where that is below the limit, and
  -- none at a rank that is not.
  abbrev pub row_at : ℕ → ℕ → ℕ → ℕ → Option (ℕ × ℕ)
  row_at limit rank u score = if ltb rank limit then some (u, score) else none

  top_leaderboard-rank :
      (s : k.Server) (u limit rank : ℕ)
      → 0 < limit
      → user_rank k s u ≡ some rank
      → get_elem? (top_leaderboard k s limit) rank ≡ row_at limit rank u (karma_of s u)
  unfolding user_rank top_leaderboard
  top_leaderboard-rank s u limit rank some_rows e =
      let rows = k.board s Keys.leaderboard_karma in
      let all : suc (limit - 1) ≡ limit = omega arith in
      rw (k.zrevrange_lem s Keys.leaderboard_karma (limit - 1), all)
        (elim (Bool-cases (ltb rank limit)) [
          | inl shown ↦ rw shown (
              ranked (decimal u) rows rank limit
                (sym (k.zrevrank_lem s Keys.leaderboard_karma (decimal u)) ∙ e)
                (ltb→lt rank limit shown)
              ∙ ap (λ v. some (v, karma_of s u)) (int_of-decimal u))
          | inr cut ↦ rw cut (beyond rows rank limit (ground arith))
        ])

  module _ (s : k.Server) (user_id delta limit : ℕ) where
    -- After `add_karma` of a positive number to a user, the user has a rank. Where that is below a
    -- positive limit, the leaderboard of that limit shows the user at that place with the number
    -- that `add_karma` returned, which is the old karma and what was added; otherwise it has no such
    -- place. The same holds of every other user with a rank, with unchanged karma.
    pub top_leaderboard-add_karma :
        0 < delta
        → 0 < limit
        → let (total, s') = add_karma k s user_id delta in
          (total ≡ karma_of s user_id + delta)
          × ((rank : ℕ) × (user_rank k s' user_id ≡ some rank)
              × (get_elem? (top_leaderboard k s' limit) rank ≡ row_at limit rank user_id total))
          × ((u rank : ℕ)
              → u ≢ user_id
              → user_rank k s' u ≡ some rank
              → get_elem? (top_leaderboard k s' limit) rank ≡ row_at limit rank u (karma_of s u))
    unfolding add_karma user_rank
    top_leaderboard-add_karma more some_rows =
        let key = Keys.leaderboard_karma in
        let s' = (add_karma k s user_id delta).1 in
        let reply = k.zincrby_reply s key delta (decimal user_id) in
        let now = k.score_zincrby s key delta (decimal user_id) in
        let (rank, there) = has_rank (decimal user_id) (k.board s' key) (omega arith) in
        let at_rank = k.zrevrank_lem s' key (decimal user_id) ∙ there in
        (
          reply,
          (
            rank,
            at_rank,
            top_leaderboard-rank s' user_id limit rank some_rows at_rank
                ∙ ap (row_at limit rank user_id) (now ∙ sym reply),
          ),
          λ u place other e.
              top_leaderboard-rank s' u limit place some_rows e
              ∙ ap (row_at limit place u) (
                  k.score_zincrby_other s key delta (decimal user_id) (decimal u)
                    (λ same. other (decimal-injective u user_id same))),
        )
