-- ===== src/Context/Count.antt =====
-- How `login` and `logout` of include/common/context.h count the sessions of each account.
use gazon.Base.{
  ℕ, ◌+◌, ◌-◌, ◌%◌, ◌<◌, ◌≡◌, refl, ap, ◌∙◌, true, false, Option, none, some, Text, text_Eq, ◌==◌,
  eq_iff, eq_self, Bool-cases, inl, inr, arith, if◌then◌else◌,
}
use gazon.Base.Maps.{Map, insert, find-insert}
use gazon.Errors.{ok}
use gazon.Config.{Config, is_user_pwd_valid}
use gazon.Context.{Context, sessions_of, login, logout, uint_mod, empty_path}

-- what `login` returns where it returns
pub login_result :
    (g : Config) (c : Context) (logged : Map Text ℕ) (user password : Text)
    (r : Context × Map Text ℕ)
    → login g c logged user password ≡ ok r
    → (is_user_pwd_valid g user password ≡ true)
      × (r ≡ (
        record c {
          user = user;
          is_logged = true;
          is_logging_in = false;
          relative_path = empty_path;
        },
        insert user ((sessions_of user logged + 1) % uint_mod) logged,
      ))
unfolding login
login_result g c logged user password r h = elim (Bool-cases (is_user_pwd_valid g user password)) [
  | inl e ↦ (e, cc)
  | inr e ↦ absurd (cc)
]

sessions_of-insert :
    (j k : Text) (n : ℕ) (logged : Map Text ℕ)
    → sessions_of j (insert k n logged) ≡ (if k == j then n else sessions_of j logged)
unfolding sessions_of
sessions_of-insert j k n logged = ap or_zero (find-insert k j n logged) ∙ ground arith
  where
    or_zero : Option ℕ → ℕ
    or_zero none = 0
    or_zero (some m) = m

one_back : (n : ℕ) → n < uint_mod → ((n + 1) % uint_mod + uint_mod - 1) % uint_mod ≡ n
one_back n h = omega arith

-- `logout` of a session that is logged in takes one off the count of its name, and off no other.
pub logout_count :
    (c : Context) (logged : Map Text ℕ) (name : Text)
    → c.is_logged ≡ true
    → sessions_of name (logout c logged).1 ≡ (
        if c.user == name
        then (sessions_of c.user logged + uint_mod - 1) % uint_mod
        else sessions_of name logged)
unfolding logout
logout_count c logged name inside = rw (inside, sessions_of-insert) refl

-- A session that logs in and then logs out is in nobody's count: `logged` has for every name the
-- number it had before. (The number of sessions of the account is an `unsigned int`.)
pub logout-login :
    (g : Config) (c : Context) (logged : Map Text ℕ) (user password : Text)
    (r : Context × Map Text ℕ)
    → login g c logged user password ≡ ok r
    → sessions_of user logged < uint_mod
    → (name : Text) → sessions_of name (logout r.0 r.1).1 ≡ sessions_of name logged
unfolding logout
logout-login g c logged user password r h small name =
    let (valid, e) = login_result g c logged user password r h in
    rw (e) (elim (Bool-cases (user == name)) [
      | inl same ↦
          rw
            (
              sessions_of-insert,
              same,
              sessions_of-insert,
              eq_self user,
              one_back (sessions_of user logged) small,
            )
            (ap (λ n. sessions_of n logged) ((eq_iff user name).0 same))
      | inr other ↦ rw (sessions_of-insert, other, sessions_of-insert, other) refl
    ])
