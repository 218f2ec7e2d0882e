-- ===== src/Tests/Api.antt =====
-- A sample site, and requests to it.
use redis_project.Base.{
  ℕ, suc, ◌+◌, ◌/◌, ◌≤◌, ◌<◌, ◌≡◌, refl, sym, ap, ◌∙◌, ◌↔◌, inl, inr, true, false, Option, none,
  some, List, [], ◌∷◌, ◌++◌, Text, codes, text_eq, text_eq_refl, length, if◌then◌else◌, Bool-cases,
}
use redis_project.Api.{
  Site, Web, ok, http_exception, at, user_of_token, bearer_token, strip, current_user_id,
}
use redis_project.Api.Auth.{register, login, logout, logout_token}
use redis_project.Api.Auth.Ended.{padded, logout_lem, logout-padded}
use redis_project.Api.Auth.Granted.{login-register}
use redis_project.Api.Notifications.{history, event, disconnected, resolve_user, notifications_ws}
use redis_project.Api.Notifications.Forwarded.{arrival, leaving, notifications_ws_lem}
use redis_project.Api.Notifications.Resolved.{resolve_user_lem}
use redis_project.Backend.{NotificationEvent}
use redis_project.Services.Notify.{list_notifications}
use redis_project.Keys
use redis_project.Redis.Hyperloglogs.{HyperloglogServer}
use redis_project.Keys.Decimal.{decimal}
use redis_project.Redis.Expiring.{contains, field}
use redis_project.Services.Accounts.{User, UserCreate, UserTable, to_public, create_user}
use redis_project.Sessions.{
  access_token_ttl_seconds, create_session, get_session, session_fields, int_of,
}
use redis_project.Tests.Activity
use redis_project.Tests.Backend.{backend, empty_app}
use redis_project.Tests.Expiring.{
  hash_sample, set_sample, no_hashes, no_sets, put, put_self, put_other,
}

abbrev add : Text → List Text → List Text
add x l = if contains x l then l else x ∷ l

contains-add : (x : Text) (l : List Text) → contains x (add x l) ≡ true
unfolding contains
contains-add x l = elim (Bool-cases (contains x l)) [
  | inl there ↦ rw there there
  | inr absent ↦ rw (absent, text_eq_refl x) refl
]

pub add_twice : (x : Text) (l : List Text) → add x (add x l) ≡ add x l
add_twice x l = rw (contains-add x l) refl

-- Exact counts are estimates, too.
abbrev viewer_sample : HyperloglogServer
viewer_sample = record {
  Server = Text → List Text;
  pfcount = λ s k. length (s k);
  pfadd = λ s k x. put s k (add x (s k));
  expire = λ s k ttl. s;
  pfadd_again = λ s k x. ap length (
      put_self (put s k (add x (s k))) k (add x (put s k (add x (s k)) k))
      ∙ ap (add x) (put_self s k (add x (s k)))
      ∙ add_twice x (s k)
      ∙ sym (put_self s k (add x (s k))));
  pfadd_other = λ s k x j h. ap length (put_other s k (add x (s k)) j h);
  pfcount_expire = λ s k ttl j h. refl;
}

abbrev select : List User → Text → Option User
select [] username = none
select (user ∷ users) username =
    if text_eq user.username username then some user else select users username

abbrev row : List User → Text → Text → Text → Text → Text → User
row users username email hash display_name bio = record {
  id = suc (length users);
  username = username;
  email = email;
  password_hash = hash;
  display_name = display_name;
  bio = bio;
  created_at = 0;
}

abbrev inserted : List User → User → Option User → Option (User × List User)
inserted users user none = some (user, user ∷ users)
inserted users user (some other) = none

abbrev insert : List User → User → Option (User × List User)
insert users user = inserted users user (select users user.username)

inserted_lem :
    (users after : List User) (new user : User) (found : Option User)
    → inserted users new found ≡ some (user, after)
    → (new ≡ user) × ((new ∷ users) ≡ after)
inserted_lem users after new user none h =
    let e : ◌≡◌ {A = User × List User} (new, new ∷ users) (user, after) = cc h in
    (ap (λ (r : User × List User). r.0) e, ap (λ (r : User × List User). r.1) e)
inserted_lem users after new user (some other) h = absurd (cc h)

pub insert_lem :
    (users after : List User) (new user : User)
    → insert users new ≡ some (user, after)
    → (new ≡ user) × ((new ∷ users) ≡ after)
insert_lem users after new user = inserted_lem users after new user (select users new.username)

pub select-row : (users : List User) (user : User) → select (user ∷ users) user.username ≡ some user
select-row users user = rw (text_eq_refl user.username) refl

abbrev user_sample : UserTable
user_sample = record {
  Db = List User;
  insert_user = λ d username email hash display_name bio.
      insert d (row d username email hash display_name bio);
  select_username = select;
  insert_hash = λ d e username email hash display_name bio user h.
      ap (λ (u : User). u.password_hash)
        (sym (insert_lem d e (row d username email hash display_name bio) user h).0);
  select_insert = λ d e username email hash display_name bio user h.
      let new = row d username email hash display_name bio in
      let (same, kept) = insert_lem d e new user h in
      ap (λ l. select l username) (sym kept) ∙ select-row d new ∙ ap some same;
}

abbrev pub site : Site
site = record {
  backend = backend;
  hashes = hash_sample;
  sets = set_sample;
  lists = Activity.sample;
  viewers = viewer_sample;
  library = Activity.library;
  users = user_sample;
  passwords = record {
    hash = λ salt password. password;
    verify = text_eq;
    verify_hash = λ salt password. text_eq_refl password;
  };
  jwt = record { decode = λ now token. none };
  day_of = λ t. Keys.text [];
  iso_of = λ t. [];
}

abbrev pub nobody : Web site
nobody = record {
  app = empty_app;
  sessions = record { hashes = no_hashes; sets = no_sets };
  lists = Activity.no_logs;
  viewers = λ k. [];
  users = [];
}

abbrev alice : UserCreate
alice = record {
  username = codes "alice";
  email = codes "a@b";
  password = codes "secret";
  display_name = [];
  bio = [];
}

abbrev alice_row : User
alice_row = record {
  id = 1;
  username = codes "alice";
  email = codes "a@b";
  password_hash = codes "secret";
  display_name = codes "alice";
  bio = [];
  created_at = 0;
}

program : Unit {0}
unfolding create_user get_session strip bearer_token user_of_token logout_token session_fields
    int_of decimal field text_eq Keys.lower Keys.session access_token_ttl_seconds
program = tt

login-register_example :
    let (public, w₁) = register site [] alice nobody in
    let (reply, w₂) = login site (codes "alice") (codes "secret") [] [] (codes "t1") w₁ in
    (public ≡ ok (to_public alice_row))
    × (reply
        ≡ ok (record {
          access_token = codes "t1";
          expires_in = access_token_ttl_seconds;
          user = to_public alice_row;
        }))
    × ((now : ℕ)
        → 1000000 ≤ now
        → now / 1000000 < 1000000 / 1000000 + access_token_ttl_seconds
        → (current_user_id site (some (codes "Bearer " ++ codes "t1")) (at now w₂)).0 ≡ ok 1)
unfolding program
login-register_example =
    login-register site [] alice nobody alice_row (alice_row ∷ []) refl [] [] (codes "t1") refl refl

-- User 7 has the session of token `t1`.
abbrev one : Web site
unfolding create_session
one = record nobody {
  sessions = (create_session hash_sample set_sample nobody.sessions 1 7 [] [] (codes "t1") []).1;
}

logout_lem_example :
    let header : Option Text = some (codes "Bearer t1") in
    let (reply, w') = logout site header one in
    (reply ≡ ok (codes "logged out"))
    × ((now : ℕ)
        → 1000000 ≤ now
        → site.jwt.decode (now / 1000000) (codes "t1") ≡ none
        → (current_user_id site header (at now w')).0 ≡ http_exception 401 (codes "invalid token"))
unfolding one program
logout_lem_example = logout_lem site one 7 (codes "t1") (some (codes "Bearer t1")) refl refl refl

logout-padded_example :
    let (reply, w') = logout site (padded (codes "t1")) one in
    (reply ≡ ok (codes "logged out"))
    × (w'.sessions ≡ one.sessions)
    × ((now : ℕ)
        → (current_user_id site (padded (codes "t1")) (at now w')).0
          ≡ (current_user_id site (padded (codes "t1")) (at now one)).0)
unfolding one program
logout-padded_example = logout-padded site one 7 (codes "t1") refl refl refl

resolve_user_lem_example :
    (user_of_token site one (codes "t1") ≡ ok 7)
    ↔ (resolve_user site one (codes "t1") ≡ ok (some 7))
resolve_user_lem_example = resolve_user_lem site one (codes "t1") 7

abbrev greeting : NotificationEvent
greeting = record {
  kind = codes "follow";
  actor_id = 1;
  recipient_id = 7;
  object_type = codes "user";
  object_id = 7;
  message = codes "hi";
  ts = 0;
}

notifications_ws_lem_example :
    notifications_ws site (some (codes "t1")) one (
      arrival site (true, none)
      ∷ arrival site (false, some (some greeting))
      ∷ leaving (some none)
      ∷ leaving none
      ∷ [])
    ≡ (history [] ∷ event greeting ∷ [], disconnected)
unfolding one program list_notifications
notifications_ws_lem_example =
    notifications_ws_lem site one 116 (49 ∷ []) 7 [] refl refl
      ((true, none) ∷ (false, some (some greeting)) ∷ []) (some none) (leaving none ∷ [])
