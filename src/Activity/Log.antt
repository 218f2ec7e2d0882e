-- ===== src/Activity/Log.antt =====
-- What the activity log keeps.
use redis_project.Base.{ℕ, ◌≡◌, ◌≢◌, sym, ap, ◌∙◌, ◌∷◌, Text, take}
use redis_project.Activity.{Library, recent_activity_max, log_activity, record_activity}
use redis_project.Keys
use redis_project.Keys.Apart.{recent_activity-ne-user_activity}
use redis_project.Redis.Lists.{ListServer}

module _ (o : Library) (g : ListServer) (s : g.Server) (now : Text) (user_id : ℕ)
    (kind target : Text) where
  open g use {items}

  -- An activity is put first into the log of all users, which keeps its newest 10000 entries, and
  -- first into the user's own, which keeps its newest 500. Every other list is left alone.
  pub record_activity_lem :
      let s' = record_activity o g s now user_id kind target in
      let payload =
        o.dumps (record { ts = now; user_id = user_id; kind = kind; target = target }) in
      (items s' Keys.recent_activity ≡ take 10000 (payload ∷ items s Keys.recent_activity))
      × (items s' (Keys.user_activity user_id)
          ≡ take 500 (payload ∷ items s (Keys.user_activity user_id)))
      × ((j : Text)
          → j ≢ Keys.recent_activity
          → j ≢ Keys.user_activity user_id
          → items s' j ≡ items s j)
  unfolding record_activity log_activity recent_activity_max
  record_activity_lem =
      let payload =
        o.dumps (record { ts = now; user_id = user_id; kind = kind; target = target }) in
      let all = Keys.recent_activity in
      let own = Keys.user_activity user_id in
      let s1 = g.lpush s all payload in
      let s2 = g.ltrim s1 all 10000 in
      let s3 = g.lpush s2 own payload in
      let apart = recent_activity-ne-user_activity user_id in
      (
        g.ltrim_other s3 own 500 all apart
            ∙ g.lpush_other s2 own payload all apart
            ∙ g.items_ltrim s1 all 10000
            ∙ ap (take 10000) (g.items_lpush s all payload),
        g.items_ltrim s3 own 500
            ∙ ap (take 500) (
                g.items_lpush s2 own payload
                ∙ ap (λ l. payload ∷ l)
                    (g.ltrim_other s1 all 10000 own (λ e. apart (sym e))
                      ∙ g.lpush_other s all payload own (λ e. apart (sym e)))),
        λ j not_all not_own.
            g.ltrim_other s3 own 500 j not_own
            ∙ g.lpush_other s2 own payload j not_own
            ∙ g.ltrim_other s1 all 10000 j not_all
            ∙ g.lpush_other s all payload j not_all,
      )
