-- ===== src/Services/Workers/Reached.antt =====
-- Whom a fan-out job of app/workers/fanout_worker.py reaches.
use redis_project.Base.{
  text_eq, text_eq_refl, ℕ, suc, ◌≤◌, ◌≡◌, ◌≢◌, refl, sym, ap, ◌∙◌, inl, inr, Bool, true, false,
  not, List, [], ◌∷◌, map, Text, ◌==◌, if◌then◌else◌, length, count, Bool-cases, arith,
}
use mathlib.Core.List.{append-nil}
use redis_project.Backend.{Backend, App, fanout_post}
use redis_project.Database.Tables.{SocialTables}
use redis_project.Feed.{int_of}
use redis_project.Feed.Fanout.{AllOther, AllOther-absent, fanout_post_to_followers_lem}
use redis_project.Feed.Trim.{Pushed}
use redis_project.Keys
use redis_project.Keys.Decimal.{decimal, number_from, number_from-decimal}
use redis_project.Redis.Zsets.{ZsetServer}
use redis_project.Redis.Expiring.{contains}
use redis_project.Services.Follow.{get_followers}
use redis_project.Services.Follow.Mirror.{IsMirrored}
use redis_project.Services.Graph.{text_eq-decimal}
use redis_project.Services.Social.Faithful.{IsFaithful}
use redis_project.Services.Social.Printed.{IsId}
use redis_project.Services.Social.Refill.{length-empty, followers_of-empty, get_followers-same}
use redis_project.Services.Workers.{handle_fanout}
use redis_project.Services.Workers.Batches.{fanout_batches_lem}

int_of-decimal : (n : ℕ) → int_of (decimal n) ≡ n
unfolding int_of number_from
int_of-decimal n =
    ap (λ s. (number_from 0 s).0) (sym (append-nil (decimal n)))
    ∙ ap (λ (r : ℕ × Text). r.0) (number_from-decimal n [])

count-map : (p : ℕ → Bool) (l : List Text) → count p (map int_of l) ≡ count (λ t. p (int_of t)) l
count-map p [] = refl
count-map p (x ∷ l) = ground (arith, count-map p l)

-- Printed ids are read back.
count-printed :
    (x : ℕ) (ids : List ℕ) → count (λ t. int_of t == x) (map decimal ids) ≡ count (λ f. f == x) ids
count-printed x [] = refl
count-printed x (f ∷ ids) = rw (int_of-decimal f, count-printed x ids) refl

contains-printed :
    (x : ℕ) (ids : List ℕ)
    → contains (decimal x) (map decimal ids) ≡ not (count (λ f. f == x) ids == 0)
unfolding contains
contains-printed x [] = refl
contains-printed x (f ∷ ids) = rw (text_eq-decimal x f) (ground (arith, contains-printed x ids))

length-printed : (ids : List ℕ) → length (map decimal ids) ≡ length ids
length-printed [] = refl
length-printed (f ∷ ids) = ap suc (length-printed ids)

-- SRANDMEMBER with a count that is large enough gives each member once.
abbrev pub IsSample : (List Text → ℕ → List Text) → Type 0
IsSample random =
    (members : List Text) (limit : ℕ)
    → length members ≤ limit
    → (p : Text → Bool) → count p (random members limit) ≡ count p members

AllOther-all :
    (z : ZsetServer) (post_id score : ℕ) (key : Text) (ids : List ℕ)
    → ((x : ℕ) → key ≢ Keys.home_feed x)
    → AllOther z post_id score key ids
AllOther-all z post_id score key [] h = tt
AllOther-all z post_id score key (f ∷ ids) h = (h f, AllOther-all z post_id score key ids h)

module _ (b : Backend) (tables : SocialTables b.database) (random : List Text → ℕ → List Text)
    (a : App b) (author_id : ℕ) (ids : List ℕ) where
  -- The set of the author's followers holds these printed ids, each once, and not too many.
  record IsListed : Type 0 where
    members : b.sets.smembers a.sets (Keys.user_followers author_id) ≡ map decimal ids
    once : (x : ℕ) → count (λ f. f == x) ids ≤ 1
    few : length ids ≤ 100000

  -- The worker's list of followers has each user once who follows the author in the table.
  count-get_followers :
      IsSample random
      → IsMirrored b a
      → IsListed
      → (x : ℕ)
      → count (λ f. f == x) (get_followers b random author_id 100000 a).0
        ≡ (if b.database.follows a.db x author_id then 1 else 0)
  unfolding get_followers
  count-get_followers sample h listed x =
      let members = b.sets.smembers a.sets (Keys.user_followers author_id) in
      let len : length members ≡ length ids = ap length listed.members ∙ length-printed ids in
      let few : length members ≤ 100000 = rw len listed.few in
      let held : b.database.follows a.db x author_id ≡ not (count (λ f. f == x) ids == 0) =
        sym (h.followers x author_id)
        ∙ ap (contains (decimal x)) listed.members
        ∙ contains-printed x ids in
      let once = listed.once x in
      let same : (if b.database.follows a.db x author_id then 1 else 0) ≡ count (λ f. f == x) ids =
        rw held (ground arith) in
      elim (Bool-cases (length members == 0)) [
        | inl empty ↦
            let no_ids : ids ≡ [] = length-empty ids (rw (sym len) empty) in
            rw (empty, followers_of-empty b tables author_id a h empty, get_followers)
              (sym (same ∙ ap (count (λ f. f == x)) no_ids))
        | inr full ↦
            rw (full, get_followers)
              (count-map (λ f. f == x) (random members 100000)
                ∙ sample members 100000 few (λ t. int_of t == x)
                ∙ ap (count (λ t. int_of t == x)) listed.members
                ∙ count-printed x ids
                ∙ sym same)
      ]

  -- Whom the job reaches, where the ids of the followers are given.
  handle_fanout-listed :
      (post_id score : ℕ)
      → IsSample random
      → IsMirrored b a
      → IsListed
      → let a' = handle_fanout b random (fanout_post post_id author_id score) a in
        ((x : ℕ)
          → b.database.follows a.db x author_id ≡ true
          → Pushed post_id score
              (b.zsets.rows a.zsets (Keys.home_feed x))
              (b.zsets.rows a'.zsets (Keys.home_feed x)))
        × ((x : ℕ)
            → b.database.follows a.db x author_id ≡ false
            → b.zsets.rows a'.zsets (Keys.home_feed x) ≡ b.zsets.rows a.zsets (Keys.home_feed x))
        × ((key : Text)
            → ((x : ℕ) → key ≢ Keys.home_feed x)
            → b.zsets.rows a'.zsets key ≡ b.zsets.rows a.zsets key)
  unfolding handle_fanout
  handle_fanout-listed post_id score sample h listed =
      let followers = (get_followers b random author_id 100000 a).0 in
      let stored = (get_followers b random author_id 100000 a).1.zsets in
      let kept : stored ≡ a.zsets =
        ap (λ (y : App b). y.zsets)
          (sym (get_followers-same b tables author_id a h random 100000)) in
      let once = count-get_followers sample h listed in
      let (written, pushed, others) =
        fanout_post_to_followers_lem b.zsets post_id score a.zsets followers in
      rw
        (
          fanout_batches_lem b.zsets post_id score (length followers) followers stored
              (omega arith),
          kept,
        )
        (
          λ x follows. pushed x (once x ∙ rw follows refl),
          λ x follows.
              others (Keys.home_feed x)
                (AllOther-absent b.zsets post_id score x followers (once x ∙ rw follows refl)),
          λ key apart. others key (AllOther-all b.zsets post_id score key followers apart),
        )

-- Texts that are printed ids are their ids, printed.
printed-map :
    (l : List Text) → ((m : Text) → contains m l ≡ true → IsId m) → l ≡ map decimal (map int_of l)
unfolding contains
printed-map [] h = refl
printed-map (m ∷ l) h =
    let (id, e) = h m (rw (text_eq_refl m) refl) in
    let same : m ≡ decimal (int_of m) = e ∙ ap decimal (sym (ap int_of e ∙ int_of-decimal id)) in
    ap (λ x. x ∷ l) same
    ∙ ap (λ r. decimal (int_of m) ∷ r) (printed-map l (λ k there. h k (ground (arith, there))))

count-text_eq :
    (x : ℕ) (ids : List ℕ)
    → count (λ t. text_eq (decimal x) t) (map decimal ids) ≡ count (λ f. f == x) ids
count-text_eq x [] = refl
count-text_eq x (f ∷ ids) = rw (text_eq-decimal x f) (ground (arith, count-text_eq x ids))

module _ (b : Backend) (tables : SocialTables b.database) (random : List Text → ℕ → List Text)
    (a : App b) (author_id : ℕ) where
  abbrev pub followers_set : List Text
  followers_set = b.sets.smembers a.sets (Keys.user_followers author_id)

  -- In a state where Redis says what the tables say, with an author whose set of followers holds
  -- each member once and at most 100000 of them, and SRANDMEMBER giving all members of such a set:
  -- a fan-out job pushes the post into the home feed of every user who follows the author in the
  -- table, and leaves the home feeds of all other users and all other timelines as they were.
  pub handle_fanout_lem :
      (post_id score : ℕ)
      → IsSample random
      → ((m : Text) → count (λ t. text_eq m t) followers_set ≤ 1)
      → length followers_set ≤ 100000
      → IsFaithful b a
      → let a' = handle_fanout b random (fanout_post post_id author_id score) a in
        ((x : ℕ)
          → b.database.follows a.db x author_id ≡ true
          → Pushed post_id score
              (b.zsets.rows a.zsets (Keys.home_feed x))
              (b.zsets.rows a'.zsets (Keys.home_feed x)))
        × ((x : ℕ)
            → b.database.follows a.db x author_id ≡ false
            → b.zsets.rows a'.zsets (Keys.home_feed x) ≡ b.zsets.rows a.zsets (Keys.home_feed x))
        × ((key : Text)
            → ((x : ℕ) → key ≢ Keys.home_feed x)
            → b.zsets.rows a'.zsets key ≡ b.zsets.rows a.zsets key)
  handle_fanout_lem post_id score sample once few h =
      let ids = map int_of followers_set in
      let members = printed-map followers_set (h.printed author_id) in
      handle_fanout-listed b tables random a author_id ids post_id score sample h.mirrored (record {
        members = members;
        once = λ x.
            let e = ap (count (λ t. text_eq (decimal x) t)) members ∙ count-text_eq x ids in
            let le = once (decimal x) in omega (arith, e, le);
        few = let e = ap length members ∙ length-printed ids in omega (arith, e, few);
      })
