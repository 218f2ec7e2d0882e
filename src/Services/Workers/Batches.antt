-- ===== src/Services/Workers/Batches.antt =====
-- The batches of the fan-out worker.
use redis_project.Base.{
  ℕ, zero, suc, ◌+◌, ◌≤◌, ◌<◌, ◌≡◌, refl, sym, ap, List, [], ◌∷◌, ◌++◌, ◌==◌, length, length-drop,
  take, drop, arith, false,
}
use redis_project.Feed.{
  Command, fanout_batch_size, push_commands, fanout_commands, execute, run_command,
  fanout_post_to_followers,
}
use redis_project.Keys
use redis_project.Redis.Zsets.{ZsetServer}
use redis_project.Services.Workers.{fanout_batches}

take-drop {ℓ} : {A : Type ℓ} (n : ℕ) (l : List A) → take n l ++ drop n l ≡ l
take-drop zero l = refl
take-drop (suc n) [] = refl
take-drop (suc n) (x ∷ l) = ap (λ r. x ∷ r) (take-drop n l)

batch_shortens : (l : List ℕ) → 0 < length l → length (drop fanout_batch_size l) < length l
unfolding fanout_batch_size
batch_shortens l h = let e = length-drop fanout_batch_size l in omega arith

module _ (z : ZsetServer) (post_id score : ℕ) where
  execute-append :
      (s : z.Server) (c d : List Command) → execute z s (c ++ d) ≡ execute z (execute z s c) d
  unfolding execute
  execute-append s [] d = refl
  execute-append s (x ∷ c) d = execute-append (run_command z s x) c d

  count_append :
      (l r : List ℕ)
      → (fanout_commands post_id score (l ++ r)).0
        ≡ (fanout_commands post_id score l).0 + (fanout_commands post_id score r).0
  unfolding fanout_commands
  count_append [] r = omega arith
  count_append (x ∷ l) r = let e = count_append l r in omega arith

  pipe_append :
      (l r : List ℕ)
      → (fanout_commands post_id score (l ++ r)).1
        ≡ (fanout_commands post_id score l).1 ++ (fanout_commands post_id score r).1
  unfolding fanout_commands push_commands
  pipe_append [] r = refl
  pipe_append (x ∷ l) r =
      ap (λ c. push_commands (Keys.home_feed x) post_id score ++ c) (pipe_append l r)

  -- An empty fan-out runs no pipeline, which is as if it ran the empty one.
  fanout_runs :
      (s : z.Server) (l : List ℕ)
      → let (n, c) = fanout_commands post_id score l in
        fanout_post_to_followers z s post_id score l ≡ (n, execute z s c)
  unfolding fanout_post_to_followers fanout_commands execute
  fanout_runs s [] = refl
  fanout_runs s (x ∷ l) =
      let some_written : ((fanout_commands post_id score (x ∷ l)).0 == 0) ≡ false = ground arith in
      rw (some_written, fanout_post_to_followers)

  -- A fan-out to a list is one to its first followers and then one to the others.
  fanout_splits :
      (n : ℕ) (l : List ℕ) (s : z.Server)
      → let (written, s') = fanout_post_to_followers z s post_id score (take n l) in
        let (total, s'') = fanout_post_to_followers z s' post_id score (drop n l) in
        (written + total, s'') ≡ fanout_post_to_followers z s post_id score l
  fanout_splits n l s =
      let e = take-drop n l in
      let c = count_append (take n l) (drop n l) in
      let d = pipe_append (take n l) (drop n l) in
      rw
        (
          fanout_runs s (take n l),
          fanout_runs (execute z s (fanout_commands post_id score (take n l)).1) (drop n l),
          fanout_runs s l,
          sym (
              execute-append s (fanout_commands post_id score (take n l)).1
                (fanout_commands post_id score (drop n l)).1),
          sym c,
          sym d,
          e,
        )
        refl

  -- In batches or at once: with fuel for as many batches as there are followers, the worker counts
  -- all followers and leaves the server as one fan-out to all of them does.
  pub fanout_batches_lem :
      (fuel : ℕ) (followers : List ℕ) (s : z.Server)
      → length followers ≤ fuel
      → fanout_batches z fuel post_id score followers s
        ≡ fanout_post_to_followers z s post_id score followers
  unfolding fanout_batches
  fanout_batches_lem zero [] s h = refl
  fanout_batches_lem zero (x ∷ l) s h = absurd (omega arith)
  fanout_batches_lem (suc fuel) [] s h = refl
  fanout_batches_lem (suc fuel) (x ∷ l) s h =
      let some_left : (length (x ∷ l) == 0) ≡ false = ground arith in
      let first = fanout_post_to_followers z s post_id score (take fanout_batch_size (x ∷ l)) in
      let rest =
        fanout_batches_lem fuel (drop fanout_batch_size (x ∷ l)) first.1
          (let shorter = batch_shortens (x ∷ l) (omega arith) in omega arith) in
      rw (some_left, fanout_batches, rest) (fanout_splits fanout_batch_size (x ∷ l) s)
