-- ===== src/Tests/Lock.antt =====
-- Locks on the sample server.
use redis_project.Base.{
  ℕ, ◌+◌, ◌-◌, ◌*◌, ◌^◌, ◌≤◌, ◌≡◌, ◌≢◌, refl, inl, Bool, true, false, Option, none, some, [], ◌∷◌,
  Text, codes, text_eq, arith,
}
use redis_project.Lock.{
  RedisLock, Backoff, World, new_lock, longer, first_backoff, release_lua, attempt, release,
  acquire_loop, acquire, redis_lock,
}
use redis_project.Lock.Exclusion.{
  System, here, next, tries, passes, exclusive, after_attempt, after_release,
}
use redis_project.Lock.Acquire.{Sleeps, Outcome, pow_two_pos, acquire-Returned}
use redis_project.Lock.Scope.{redis_lock-BodyRun, BodyRun}
use redis_project.Tests.Strings.{no_strings, sample}

abbrev key : Text
key = codes "lock:x"

abbrev lock_a : RedisLock
unfolding new_lock
lock_a = new_lock key 1000 100 50 (codes "a")

abbrev lock_b : RedisLock
unfolding new_lock
lock_b = new_lock key 1000 0 50 (codes "b")

abbrev start : World sample
start = record { server = no_strings; server_now = 0; loop_now = 0 }

abbrev empty : System sample key
empty = record { world = start; leases = [] }

-- A sleep that takes as many milliseconds as it has units, or longer than asked.
abbrev sleep : Backoff → World sample → World sample
sleep b w = record {
  server = w.server;
  server_now = w.server_now + b.units;
  loop_now = w.loop_now + b.units;
}

sleep-Sleeps : Sleeps sample sleep
sleep-Sleeps = record { elapsed = λ b w. long b w (2 ^ b.halvings) (pow_two_pos b.halvings) }
  where
    long :
        (b : Backoff) (w : World sample) (p : ℕ)
        → 1 ≤ p
        → b.units ≤ (w.loop_now + b.units - w.loop_now) * p
    long b w p h = grind arith

program : Unit {0}
unfolding attempt release release_lua acquire acquire_loop longer first_backoff redis_lock new_lock
    text_eq after_attempt after_release
program = tt

-- The second lock waits for none and gives up; the first one's release lets it in.
abbrev held : World sample
unfolding program
held = (attempt sample lock_a start).1

second_refused : (attempt sample lock_b held).0 ≡ false
unfolding held program
second_refused = refl

waits_out : acquire sample sleep 200 (new_lock key 1000 2000 50 (codes "c")) held ≢ none
unfolding held program
waits_out = λ e. cc e

-- The first lock acquires, the second fails, and time passes.
abbrev later : System sample key
unfolding held program
later = record {
  world = record { server = held.server; server_now = 400; loop_now = 400 };
  leases = (codes "a", 1000) ∷ [];
}

exclusive_example :
    ◌≡◌ {A = Text} (codes "a") (codes "a")
    × (sample.get later.world.server 400 key ≡ some (codes "a"))
unfolding later held program
exclusive_example =
    exclusive sample key {y = empty} {y' = later} (codes "a") (codes "a") 1000 1000 refl
      (next
        (next (next here (tries empty lock_a refl))
          (tries (after_attempt sample key lock_a empty) lock_b refl))
        (passes (after_attempt sample key lock_b (after_attempt sample key lock_a empty)) 400 400
          (omega arith)))
      (inl refl) (inl refl) (omega arith) (omega arith)

acquire-Returned_example :
    (ok : Bool) × (lock' : RedisLock) × (w' : World sample) × (acquire sample sleep 101 lock_a start
      ≡ some (ok, lock', w'))
    × Outcome sample sleep lock_a (start.loop_now + 100) ok lock' w'
unfolding lock_a
acquire-Returned_example =
    acquire-Returned sample sleep lock_a start 101 sleep-Sleeps (omega arith) (omega arith)

abbrev note : Option RedisLock → World sample → Bool × World sample
note none w = (false, w)
note (some lock) w = (true, w)

redis_lock-BodyRun_example :
    (ok : Bool) × (lock : RedisLock) × (w1 : World sample) × Outcome sample sleep
      (new_lock key 1000 0 50 (codes "d"))
      0
      ok
      lock
      w1
    × BodyRun sample sleep key
        (codes "d")
        note
        (redis_lock sample sleep 1 key 1000 0 (codes "d") note start)
        ok
        lock
        w1
redis_lock-BodyRun_example =
    redis_lock-BodyRun sample sleep 1 key 1000 0 (codes "d") note start sleep-Sleeps (omega arith)
