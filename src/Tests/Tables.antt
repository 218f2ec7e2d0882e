-- ===== src/Tests/Tables.antt =====
-- Tables of follows, likes and comments that meet their laws.
use redis_project.Base.{
  ℕ, suc, ◌+◌, ◌<◌, inl, inr, ltb, length, Bool-cases, ◌≡◌, refl, ◌∙◌, sym, ap, Bool, true, false,
  none, some, List, [], ◌∷◌, ◌==◌, if◌then◌else◌, arith, Text, Option,
}
use redis_project.Database.{Database, Post}
use redis_project.Database.Tables.{
  FollowTable, SocialTables, PostTable, SameFollows, SameReactions, IsAdded, IsLiked,
}
use redis_project.Tests.Rows.{
  Rows, has, to, from, removed, followers, has-removed, to-removed, from-removed, followers-none,
}

pub record Kept : Type 0 where
  pub follows : Rows
  pub likes : Rows
  -- the authors and texts of the new posts, the newest first
  pub posts : List (ℕ × Text)
  -- the post of each comment
  pub comments : List ℕ

unfoldable pub comments_on : List ℕ → ℕ → ℕ
comments_on [] p = 0
comments_on (q ∷ comments) p = let n = comments_on comments p in if p == q then suc n else n

abbrev pub post_row : ℕ → ℕ → Text → Post
post_row id author_id content = record {
  id = id;
  author_id = author_id;
  content = content;
  created_at = 5;
}

abbrev pub next_id : List (ℕ × Text) → ℕ
next_id posts = 10 + length posts

abbrev pub row_at : List (ℕ × Text) → ℕ → Option Post
row_at [] p = none
row_at ((u, content) ∷ posts) p =
    let rest = row_at posts p in if p == next_id posts then some (post_row p u content) else rest

-- Posts 0 to 9 are there, and those that were added.
abbrev pub tables : Database
tables = record {
  Db = Kept;
  get_post = λ d p. if ltb p 10 then some (post_row p 9 []) else row_at d.posts p;
  insert_post = λ d u content.
      (post_row (next_id d.posts) u content, record d { posts = (u, content) ∷ d.posts });
  post_count = λ d u. 0;
  posts_of = λ d u. [];
  insert_follow =
      λ d u v. if has d.follows u v then none else some (record d { follows = (u, v) ∷ d.follows });
  delete_follow = λ d u v.
      if has d.follows u v then (1, record d { follows = removed d.follows u v }) else (0, d);
  follows = λ d. has d.follows;
  followers_of = λ d. followers d.follows;
  follower_count = λ d. to d.follows;
  following_count = λ d. from d.follows;
  insert_like =
      λ d u p. if has d.likes u p then none else some (record d { likes = (u, p) ∷ d.likes });
  delete_like =
      λ d u p. if has d.likes u p then (1, record d { likes = removed d.likes u p }) else (0, d);
  likes = λ d. has d.likes;
  like_count = λ d. to d.likes;
  insert_comment = λ d p u content. (
    record { id = 1; post_id = p; author_id = u; content = content; created_at = 7 },
    record d { comments = p ∷ d.comments },
  );
  comment_count = λ d. comments_on d.comments;
  select_comments = λ d p n. [];
  recent_posts = λ d n. [];
  insert_notification = λ d n. d;
  notifications = λ d. [];
}

-- What an insertion that succeeds has found and left.
inserted :
    {A : Type 0} (c : Bool) (x e : A)
    → (if c then none else some x) ≡ some e
    → (c ≡ false) × (x ≡ e)
inserted true x e h = absurd (cc h)
inserted false x e h = (refl, cc h)

insert-IsAdded :
    (d e : Kept) (u v : ℕ) → tables.insert_follow d u v ≡ some e → IsAdded tables d u v e
unfolding has to from
insert-IsAdded d e u v h =
    let (absent, same) = inserted (has d.follows u v) _ e h in
    rw (sym same) (record {
      follows = λ x y. refl;
      follower_count = λ x. rw absent (ground arith);
      following_count = λ x. rw absent (ground arith);
    })

insert-IsLiked : (d e : Kept) (u p : ℕ) → tables.insert_like d u p ≡ some e → IsLiked tables d u p e
unfolding has to
insert-IsLiked d e u p h =
    let (absent, same) = inserted (has d.likes u p) _ e h in
    rw (sym same) (record {
      likes = λ x y. refl;
      like_count = λ x. rw absent (ground arith);
      comment_count = λ x. refl;
    })

same_follows : (d e : Kept) → d.follows ≡ e.follows → SameFollows tables d e
same_follows d e h = record {
  follows = λ x y. rw h refl;
  follower_count = λ x. rw h refl;
  following_count = λ x. rw h refl;
}

same_reactions :
    (d e : Kept) → d.likes ≡ e.likes → d.comments ≡ e.comments → SameReactions tables d e
same_reactions d e likes comments = record {
  likes = λ x y. rw likes refl;
  like_count = λ x. rw likes refl;
  comment_count = λ x. rw comments refl;
}

deleted :
    (A : Type 0) (f : Kept → A) (c : Bool) (d e : Kept)
    → f d ≡ f e
    → f d ≡ f (let (n, x) : ℕ × Kept = if c then (1, e) else (0, d) in x)
deleted A f true d e h = h
deleted A f false d e h = refl

pub table : FollowTable tables
table = record {
  insert_lem = insert-IsAdded;
  delete_absent = λ d u v h. rw h refl;
  delete_rowcount = λ d u v h. rw h refl;
  delete_lem = λ d u v h. rw h (record {
    follows = λ x y. has-removed d.follows u v x y;
    follower_count = λ x. let e = to-removed d.follows u v x in ground arith;
    following_count = λ x. let e = from-removed d.follows u v x in ground arith;
  });
}

pub social : SocialTables tables
unfolding comments_on
social = record {
  follow = table;
  followers_of_none = λ d v. followers-none d.follows v;
  insert_follow_same = λ d e u v h.
      let (absent, same) = inserted (has d.follows u v) _ e h in
      same_reactions d e (ap (λ k. k.likes) same) (ap (λ k. k.comments) same);
  delete_follow_same = λ d u v.
      same_reactions d _ (deleted _ (λ k. k.likes) (has d.follows u v) d _ refl)
        (deleted _ (λ k. k.comments) (has d.follows u v) d _ refl);
  insert_like_lem = insert-IsLiked;
  insert_like_same = λ d e u p h.
      let (absent, same) = inserted (has d.likes u p) _ e h in
      same_follows d e (ap (λ k. k.follows) same);
  delete_like_absent = λ d u p h. rw h refl;
  delete_like_rowcount = λ d u p h. rw h refl;
  delete_like_lem = λ d u p h. rw h (record {
    likes = λ x y. has-removed d.likes u p x y;
    like_count = λ x. let e = to-removed d.likes u p x in ground arith;
    comment_count = λ x. refl;
  });
  delete_like_same =
      λ d u p. same_follows d _ (deleted _ (λ k. k.follows) (has d.likes u p) d _ refl);
  insert_comment_lem = λ d p u content. record {
    likes = λ x y. refl;
    like_count = λ x. refl;
    comment_count = λ x. refl;
  };
  insert_comment_same = λ d p u content. same_follows d _ refl;
  insert_post_same = λ d u content. (same_follows d _ refl, same_reactions d _ refl refl);
  insert_notification_same = λ d n. (same_follows d d refl, same_reactions d d refl refl);
}

-- A row's id is its own, and below the next one.
row_at-below :
    (posts : List (ℕ × Text)) (p : ℕ) (post : Post)
    → row_at posts p ≡ some post
    → (post.id ≡ p) × (p < next_id posts)
row_at-below [] p post e = absurd (cc e)
row_at-below ((u, content) ∷ posts) p post e = elim (Bool-cases (p == next_id posts)) [
  | inl same ↦
      let q : some (post_row p u content) ≡ some post =
        ap (λ c. if c then some (post_row p u content) else row_at posts p) (sym same) ∙ e in
      let r : post_row p u content ≡ post = cc q in (ap (λ (x : Post). x.id) (sym r), ground arith)
  | inr other ↦
      let (id, below) =
        row_at-below posts p post
          (ap (λ c. if c then some (post_row p u content) else row_at posts p) (sym other) ∙ e) in
      (id, omega arith)
]

get_post-id : (d : Kept) (pid : ℕ) (post : Post) → tables.get_post d pid ≡ some post → post.id ≡ pid
get_post-id d pid post e = elim (Bool-cases (ltb pid 10)) [
  | inl old ↦
      let q : some (post_row pid 9 []) ≡ some post =
        ap (λ c. if c then some (post_row pid 9 []) else row_at d.posts pid) (sym old) ∙ e in
      let r : post_row pid 9 [] ≡ post = cc q in ap (λ (x : Post). x.id) (sym r)
  | inr new ↦
      (row_at-below d.posts pid post
        (ap (λ c. if c then some (post_row pid 9 []) else row_at d.posts pid) (sym new) ∙ e)).0
]

insert_post-found :
    (d : Kept) (u : ℕ) (content : Text)
    → let (post, e) = tables.insert_post d u content in tables.get_post e post.id ≡ some post
insert_post-found d u content =
    let new : ltb (next_id d.posts) 10 ≡ false = ground arith in
    let same : (next_id d.posts == next_id d.posts) ≡ true = ground arith in rw (new, same) refl

insert_post-other :
    (d : Kept) (u : ℕ) (content : Text) (pid : ℕ) (post : Post)
    → tables.get_post d pid ≡ some post
    → tables.get_post (tables.insert_post d u content).1 pid ≡ some post
insert_post-other d u content pid post e = elim (Bool-cases (ltb pid 10)) [
  | inl old ↦
      rw old (ap (λ c. if c then some (post_row pid 9 []) else row_at d.posts pid) (sym old) ∙ e)
  | inr new ↦
      let found =
        ap (λ c. if c then some (post_row pid 9 []) else row_at d.posts pid) (sym new) ∙ e in
      let (id, below) = row_at-below d.posts pid post found in
      let differs : (pid == next_id d.posts) ≡ false = ground arith in rw (new, differs) found
]

pub post_table : PostTable tables
post_table = record {
  get_post_id = get_post-id;
  insert_post_found = insert_post-found;
  insert_post_other = insert_post-other;
}
