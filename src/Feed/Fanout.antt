-- ===== src/Feed/Fanout.antt =====
-- Writing a new post: into the author's timelines, and into the feeds of all followers.
use native.Mathlib.Decide.{ℕ_discrete}
use redis_project.Base.{
  ℕ, ◌≡◌, ◌≢◌, refl, sym, ap, ◌∙◌, List, [], ◌∷◌, ◌++◌, Text, arith, ◌==◌, length, count,
}
use redis_project.Keys
use redis_project.Keys.Apart.{
  home_feed-ne-user_posts, home_feed-ne-home_feed, global-ne-home_feed, global-ne-user_posts,
}
use redis_project.Redis.Zsets.{ZsetServer}
use redis_project.Feed.{
  Command, push_commands, create_commands, fanout_commands, execute, fanout_post_to_followers,
}
use redis_project.Feed.Trim.{Pushed, move-Pushed, push-Pushed, push_other}

module _ (z : ZsetServer) where
  open z use {Server, rows}

  execute-append :
      (s : Server) (p q : List Command) → execute z s (p ++ q) ≡ execute z (execute z s p) q
  unfolding execute
  execute-append s [] q = refl
  execute-append s (c ∷ p) q = execute-append (execute z s (c ∷ [])) p q

  module _ (post_id score : ℕ) where
    -- The pipeline of `create_post` pushes the post into the author's own timeline, the author's
    -- home feed and the global feed, cuts each to its newest rows, and touches no other key.
    pub create_commands_lem :
        (s : Server) (author_id : ℕ)
        → let s' = execute z s (create_commands author_id post_id score) in
          Pushed post_id score
            (rows s (Keys.user_posts author_id))
            (rows s' (Keys.user_posts author_id))
          × Pushed post_id score
              (rows s (Keys.home_feed author_id))
              (rows s' (Keys.home_feed author_id))
          × Pushed post_id score (rows s Keys.global_recent_feed) (rows s' Keys.global_recent_feed)
          × ((j : Text)
              → j ≢ Keys.user_posts author_id
              → j ≢ Keys.home_feed author_id
              → j ≢ Keys.global_recent_feed
              → rows s' j ≡ rows s j)
    unfolding create_commands
    create_commands_lem s author_id =
        rw
          (
            execute-append s (push_commands up post_id score)
                (push_commands hf post_id score ++ push_commands gl post_id score),
            execute-append s1 (push_commands hf post_id score) (push_commands gl post_id score),
          )
          (
            move-Pushed post_id score refl
                (sym (
                  push_other z s2 gl post_id score up (λ e. global-ne-user_posts author_id (sym e))
                  ∙ push_other z s1 hf post_id score up
                      (λ e. home_feed-ne-user_posts author_id author_id (sym e))))
                (push-Pushed z s up post_id score),
            move-Pushed post_id score
                (push_other z s up post_id score hf (home_feed-ne-user_posts author_id author_id))
                (sym (
                  push_other z s2 gl post_id score hf (λ e. global-ne-home_feed author_id (sym e))))
                (push-Pushed z s1 hf post_id score),
            move-Pushed post_id score
                (push_other z s1 hf post_id score gl (global-ne-home_feed author_id)
                  ∙ push_other z s up post_id score gl (global-ne-user_posts author_id))
                refl (push-Pushed z s2 gl post_id score),
            λ j n1 n2 n3.
                push_other z s2 gl post_id score j n3
                ∙ push_other z s1 hf post_id score j n2
                ∙ push_other z s up post_id score j n1,
          )
      where
        up : Text
        up = Keys.user_posts author_id

        hf : Text
        hf = Keys.home_feed author_id

        gl : Text
        gl = Keys.global_recent_feed

        s1 : Server
        s1 = execute z s (push_commands up post_id score)

        s2 : Server
        s2 = execute z s1 (push_commands hf post_id score)

    abbrev pub AllOther : Text → List ℕ → Type 0
    AllOther j [] = Unit
    AllOther j (fid ∷ fids) = (j ≢ Keys.home_feed fid) × AllOther j fids

    pub AllOther-absent :
        (u : ℕ) (fids : List ℕ) → count (λ f. f == u) fids ≡ 0 → AllOther (Keys.home_feed u) fids
    AllOther-absent u [] h = tt
    AllOther-absent u (fid ∷ fids) h =
        (home_feed-ne-home_feed u fid (ground arith), AllOther-absent u fids (ground arith))

    fanout_other :
        (s : Server) (j : Text) (fids : List ℕ)
        → AllOther j fids
        → rows (execute z s (fanout_commands post_id score fids).1) j ≡ rows s j
    unfolding fanout_commands
    fanout_other s j [] h = unfold execute in refl
    fanout_other s j (fid ∷ fids) h =
        ap (λ y. rows y j)
          (execute-append s (push_commands (Keys.home_feed fid) post_id score)
            (fanout_commands post_id score fids).1)
        ∙ fanout_other (execute z s (push_commands (Keys.home_feed fid) post_id score)) j fids h.1
        ∙ push_other z s (Keys.home_feed fid) post_id score j h.0

    fanout_once :
        (s : Server) (u : ℕ) (fids : List ℕ)
        → count (λ f. f == u) fids ≡ 1
        → Pushed post_id score
            (rows s (Keys.home_feed u))
            (rows (execute z s (fanout_commands post_id score fids).1) (Keys.home_feed u))
    unfolding fanout_commands
    fanout_once s u [] h = absurd (omega arith)
    fanout_once s u (fid ∷ fids) h =
        let s1 = execute z s (push_commands (Keys.home_feed fid) post_id score) in
        let e =
          execute-append s (push_commands (Keys.home_feed fid) post_id score)
            (fanout_commands post_id score fids).1 in
        elim (ℕ_discrete fid u) [
          | yes same ↦
              let rest =
                fanout_other s1 (Keys.home_feed u) fids (AllOther-absent u fids (ground arith)) in
              move-Pushed post_id score (ap (λ f. rows s (Keys.home_feed f)) same)
                (ap (λ f. rows s1 (Keys.home_feed f)) same
                  ∙ sym rest
                  ∙ ap (λ y. rows y (Keys.home_feed u)) (sym e))
                (push-Pushed z s (Keys.home_feed fid) post_id score)
          | no differs ↦
              move-Pushed post_id score
                (push_other z s (Keys.home_feed fid) post_id score (Keys.home_feed u)
                  (home_feed-ne-home_feed u fid (λ e. differs (sym e))))
                (ap (λ y. rows y (Keys.home_feed u)) (sym e)) (fanout_once s1 u fids (ground arith))
        ]

    written-length : (fids : List ℕ) → (fanout_commands post_id score fids).0 ≡ length fids
    unfolding fanout_commands
    written-length [] = refl
    written-length (fid ∷ fids) = omega (arith, written-length fids)

    fanout-execute :
        (s : Server) (fids : List ℕ)
        → (fanout_post_to_followers z s post_id score fids).1
          ≡ execute z s (fanout_commands post_id score fids).1
    unfolding fanout_post_to_followers fanout_commands
    fanout-execute s [] = unfold execute in refl
    fanout-execute s (fid ∷ fids) = ground arith

    -- Fan-out to a list of followers counts them, pushes the post into the home feed of each
    -- follower that is listed once, and leaves every key alone that is no home feed of a listed
    -- follower.
    pub fanout_post_to_followers_lem :
        (s : Server) (fids : List ℕ)
        → let (written, s') = fanout_post_to_followers z s post_id score fids in
          (written ≡ length fids)
          × ((u : ℕ)
              → count (λ f. f == u) fids ≡ 1
              → Pushed post_id score (rows s (Keys.home_feed u)) (rows s' (Keys.home_feed u)))
          × ((j : Text) → AllOther j fids → rows s' j ≡ rows s j)
    fanout_post_to_followers_lem s fids = (
      unfold fanout_post_to_followers in written-length fids,
      λ u once.
          move-Pushed post_id score refl
            (ap (λ y. rows y (Keys.home_feed u)) (sym (fanout-execute s fids)))
            (fanout_once s u fids once),
      λ j others. ap (λ y. rows y j) (fanout-execute s fids) ∙ fanout_other s j fids others,
    )
