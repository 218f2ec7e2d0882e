-- ===== src/Tests/Cache.antt =====
-- The cache on the sample server, with texts as their own JSON.
use redis_project.Base.{◌+◌, ◌*◌, ◌≡◌, refl, Option, none, some, Text, codes, text_eq}
use redis_project.Cache.{Json, World, lock_key_of, cache_get, get_or_set}
use redis_project.Cache.Flight.{Loaded, Polled, get_or_set_lem}
use redis_project.Tests.Strings.{no_strings, sample}

abbrev pub plain : Json Text
plain = record { dumps = λ v. v; loads = λ s. some (some s); loads_dumps = λ v. refl }

abbrev pub Worlds : Type 0
Worlds = World plain sample

abbrev start : Worlds
start = record { server = no_strings; now = 0 }

abbrev pub sleep : Worlds → Worlds
sleep w = record { server = w.server; now = w.now + 50 }

-- It takes 20 ms.
abbrev pub loader : Worlds → Option (Option Text) × Worlds
loader w = (some (some (codes "v")), record { server = w.server; now = w.now + 20 })

abbrev key : Text
key = codes "k"

loads : (get_or_set plain sample sleep loader 5 40 key 300 7 start).0 ≡ some (some (codes "v"))
unfolding get_or_set text_eq
loads = refl

get_or_set_lem_example :
    let out = get_or_set plain sample sleep loader 5 40 key 300 7 start in
    let locked = record start {
      server = (sample.set_nx start.server start.now (lock_key_of key) (codes "1") (1000 * 5)).1;
    } in
    ((value : Text)
      → cache_get plain sample start key ≡ some (some value)
      → out ≡ (some (some value), start))
    × (cache_get plain sample start key ≡ none → out ≡ (none, start))
    × (cache_get plain sample start key ≡ some none
        → sample.get start.server start.now (lock_key_of key) ≡ none
        → Loaded plain sample key (300 + 7) (loader locked) out
          × (sample.get out.1.server out.1.now (lock_key_of key) ≡ none))
    × ((owner : Text)
        → cache_get plain sample start key ≡ some none
        → sample.get start.server start.now (lock_key_of key) ≡ some owner
        → Polled plain sample key sleep loader 40 300 7 start out)
get_or_set_lem_example = get_or_set_lem plain sample key sleep loader 5 40 300 7 start
