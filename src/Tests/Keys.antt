-- ===== src/Tests/Keys.antt =====
-- Keys of the program.
use redis_project.Base.{◌≡◌, refl, codes}
use redis_project.Keys
use redis_project.Keys.Decimal.{decimal}
use redis_project.Keys.Names.{Name, render, canonical, IsPlain, strip}
use redis_project.Keys.Apart.{render-injective}

program : Unit {0}
unfolding Keys.post_like_count Keys.isoformat Keys.dau decimal
program = tt

likes_key : Keys.post_like_count 1204 ≡ codes "counter:post:1204:likes"
unfolding program
likes_key = refl

day_key : Keys.dau (Keys.Day.date 2024 3 9) ≡ codes "analytics:dau:2024-03-09"
unfolding program
day_key = refl

token-IsPlain : IsPlain (Name.session (codes "use-r_x"))
unfolding strip
token-IsPlain = refl

render-injective_example :
    canonical (Name.dau (Keys.Day.date 2024 3 9))
    ≡ canonical (Name.dau (Keys.Day.text (codes "2024-03-09")))
unfolding render program
render-injective_example =
    render-injective (Name.dau (Keys.Day.date 2024 3 9))
      (Name.dau (Keys.Day.text (codes "2024-03-09"))) tt tt refl
