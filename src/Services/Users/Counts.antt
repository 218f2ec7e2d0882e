-- ===== src/Services/Users/Counts.antt =====
-- The counts that a profile shows are those of the table `follows`.
use redis_project.Base.{
  ℕ, ◌/◌, ◌≡◌, refl, false, ap, ◌∙◌, inl, inr, ◌||◌, Option, none, some, Bool-cases, arith,
}
use mathlib.Core.Path.{subst}
use redis_project.Backend.{Backend, App}
use redis_project.Base.Int.{ℤ, pos}
use redis_project.Cache.{Json, World, Loader, get_or_set}
use redis_project.Keys
use redis_project.Keys.Apart.{follower_count-ne-following_count}
use redis_project.Redis.Counters.{or_zero}
use redis_project.Services.Users.{
  UserProfile, is_missing, backfill_counters, profile_of, with_counters, answer_profile,
  get_cached_profile, user_cache_ttl,
}

module _ (b : Backend) where
  -- The profile's counts are the table's.
  abbrev pub Counted : {V : Type 0} → ℕ → App b → UserProfile V → Type 0
  Counted user_id a profile =
      (profile.follower_count ≡ pos (b.database.follower_count a.db user_id))
      × (profile.following_count ≡ pos (b.database.following_count a.db user_id))

  -- A counter that exists is equal to the table. One that was lost is not there.
  pub record IsCurrent (user_id : ℕ) (a : App b) : Type 0 where
    pub followers :
        (n : ℤ)
        → b.counters.value a.counters (Keys.user_follower_count user_id) ≡ some n
        → n ≡ pos (b.database.follower_count a.db user_id)
    pub following :
        (n : ℤ)
        → b.counters.value a.counters (Keys.user_following_count user_id) ≡ some n
        → n ≡ pos (b.database.following_count a.db user_id)

  -- Both counters are there, and equal to the table.
  abbrev pub Restored : ℕ → App b → App b → Type 0
  Restored user_id a a' =
      (b.counters.value a'.counters (Keys.user_follower_count user_id)
        ≡ some (pos (b.database.follower_count a.db user_id)))
      × (b.counters.value a'.counters (Keys.user_following_count user_id)
          ≡ some (pos (b.database.following_count a.db user_id)))

  backfill_counters-Restored :
      (user_id : ℕ) (a : App b) → Restored user_id a (backfill_counters b user_id a)
  unfolding backfill_counters
  backfill_counters-Restored user_id a =
      let c =
        b.counters.set a.counters (Keys.user_follower_count user_id)
          (pos (b.database.follower_count a.db user_id)) in
      (
        b.counters.set_other c (Keys.user_following_count user_id)
              (pos (b.database.following_count a.db user_id)) (Keys.user_follower_count user_id)
              (follower_count-ne-following_count user_id user_id)
            ∙ b.counters.value_set a.counters (Keys.user_follower_count user_id) _,
        b.counters.value_set c (Keys.user_following_count user_id)
            (pos (b.database.following_count a.db user_id)),
      )

  present : (v : Option ℤ) → is_missing v ≡ false → (n : ℤ) × (v ≡ some n)
  unfolding is_missing
  present none e = cc
  present (some n) e = (n, refl)

  warm-Restored :
      (user_id : ℕ) (a : App b)
      → IsCurrent user_id a
      → (is_missing (b.counters.value a.counters (Keys.user_follower_count user_id))
          || is_missing (b.counters.value a.counters (Keys.user_following_count user_id)))
        ≡ false
      → Restored user_id a a
  warm-Restored user_id a h warm =
      let (n, e) =
        present (b.counters.value a.counters (Keys.user_follower_count user_id)) (ground arith) in
      let (m, e') =
        present (b.counters.value a.counters (Keys.user_following_count user_id)) (ground arith) in
      (e ∙ ap some (h.followers n e), e' ∙ ap some (h.following m e'))

  with_counters-Restored :
      {V : Type 0} (user_id : ℕ) (base : V) (a : App b)
      → IsCurrent user_id a
      → Restored user_id a (with_counters b user_id base a).1
  unfolding with_counters
  with_counters-Restored user_id base a h =
      elim (Bool-cases (
        is_missing (b.counters.value a.counters (Keys.user_follower_count user_id))
        || is_missing (b.counters.value a.counters (Keys.user_following_count user_id)))) [
          | inl cold ↦ rw (cold, with_counters) (backfill_counters-Restored user_id a)
          | inr warm ↦ rw (warm, with_counters) (warm-Restored user_id a h warm)
        ]

  with_counters-Counted :
      {V : Type 0} (user_id : ℕ) (base : V) (a : App b)
      → IsCurrent user_id a
      → Counted user_id a (with_counters b user_id base a).0
  unfolding with_counters profile_of
  with_counters-Counted user_id base a h =
      let (followers, following) = with_counters-Restored user_id base a h in
      (ap or_zero followers, ap or_zero following)

  module _ {V : Type 0} (j : Json V) (user_id : ℕ) where
    answer_profile-Counted :
        (found : Option (Option V)) (a : App b) (profile : UserProfile V)
        → IsCurrent user_id a
        → (answer_profile b j user_id found a).0 ≡ some (some profile)
        → Counted user_id a profile × Restored user_id a (answer_profile b j user_id found a).1
    unfolding answer_profile
    answer_profile-Counted none a profile h e = absurd (cc e)
    answer_profile-Counted (some none) a profile h e = absurd (cc e)
    answer_profile-Counted (some (some base)) a profile h e =
        let same : (with_counters b user_id base a).0 ≡ profile = cc e in
        (
          subst (Counted user_id a) same (with_counters-Counted user_id base a h),
          with_counters-Restored user_id base a h,
        )

    -- Where each of a user's two counters that exists is equal to the table `follows`, a profile of
    -- the user, whether its row comes from the cache or from the loader, shows the numbers of
    -- followers and followed users that the table has, and afterwards both counters exist with
    -- these values, also where one or both were missing before.
    pub get_cached_profile-Counted :
        (sleep : World j b.strings → World j b.strings) (loader : Loader j b.strings) (jitter : ℕ)
        (a : App b) (profile : UserProfile V)
        → IsCurrent user_id a
        → (get_cached_profile b j sleep loader jitter user_id a).0 ≡ some (some profile)
        → Counted user_id a profile
          × Restored user_id a (get_cached_profile b j sleep loader jitter user_id a).1
    unfolding get_cached_profile user_cache_ttl
    get_cached_profile-Counted sleep loader jitter a profile h e =
        let (found, w) =
          get_or_set j b.strings sleep loader 5 40 (Keys.user_cache user_id) user_cache_ttl jitter
            (record { server = a.strings; now = a.now / 1000 }) in
        answer_profile-Counted found (record a { strings = w.server }) profile
          (record { followers = h.followers; following = h.following }) e
