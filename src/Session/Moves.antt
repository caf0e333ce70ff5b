-- ===== src/Session/Moves.antt =====
-- How a predicate on the session passes through `cd`.
use gazon.Base.{◌≡◌, refl, Bool, true, false, List, Text, codes}
use gazon.Errors.{
  Result, ok, throw, command_exception, filesystem_exception, networking_exception,
  config_exception, regex_exception, bad_cast, out_of_range, exits,
}
use gazon.FilePath.{FilePath, Printf}
use gazon.Filesystem.{unsafe_get_entry_node}
use gazon.Filesystem.Tree.{Entry, info}
use gazon.Command.{CommandArg, get_path}
use gazon.Session.Run.{Session, Host, continue, write, new_line, ◌>>◌, ◌>>=◌, gets}
use gazon.Session.Commands.{in_base, enter_found, not_there, report_kind, run_cd}
use gazon.Session.Jobs.{write_keeps, then_keeps, IgnoresOutput}

module _ (P : Session → Type 0) (quiet : IgnoresOutput P) where
  report_keeps :
      (h : Host) (p : FilePath) (b : Bool) (s : Session) → P s → P (report_kind h p b s).1
  report_keeps h p true s = λ q. q
  report_keeps h p false s =
      then_keeps P quiet (write h (codes "cd: not a directory"))
        (write h p.string >> write h new_line) (write_keeps P quiet h (codes "cd: not a directory"))
        (then_keeps P quiet (write h p.string) (write h new_line) (write_keeps P quiet h p.string)
          (write_keeps P quiet h new_line))
        s

  not_there_keeps : (h : Host) (p : FilePath) (s : Session) → P s → P (not_there h p s).1
  not_there_keeps h p =
      then_keeps P quiet (write h (codes "cd: ")) (write h p.string >> write h message)
        (write_keeps P quiet h (codes "cd: "))
        (then_keeps P quiet (write h p.string) (write h message) (write_keeps P quiet h p.string)
          (write_keeps P quiet h message))
    where
      message : Text
      message = codes ": No such file or directory\n"

-- the session in another directory
abbrev pub moved : FilePath → Session → Session
moved p s = record s { context = record s.context { relative_path = p } }

module _ ⦃f : Printf⦄ (P : Session → Type 0) (quiet : IgnoresOutput P) where
  enter_keeps :
      (h : Host) (p : FilePath) (r : Result Entry) (s : Session)
      → P s
      → P (moved p s)
      → P (enter_found h p r s).1
  enter_keeps h p (ok e) s here there = go (report_kind h p (info e).is_folder s) (
      report_keeps Both (λ t o q. (quiet t o q.0, quiet (moved p t) o q.1)) h p (info e).is_folder s
        (here, there))
    where
      Both : Session → Type 0
      Both t = P t × P (moved p t)

      go :
          (r : Result (Unit {0}) × Session)
          → Both r.1
          → P (continue r.0 (λ _ t. (ok tt, moved p t)) r.1).1
      go (ok a, t) q = q.1
      go (throw e, t) q = q.0
  enter_keeps h p (throw (filesystem_exception m)) s here there = not_there_keeps P quiet h p s here
  enter_keeps h p (throw (networking_exception m)) s here there = here
  enter_keeps h p (throw (command_exception m)) s here there = here
  enter_keeps h p (throw (config_exception m)) s here there = here
  enter_keeps h p (throw (regex_exception m)) s here there = here
  enter_keeps h p (throw bad_cast) s here there = here
  enter_keeps h p (throw out_of_range) s here there = here
  enter_keeps h p (throw exits) s here there = here

  pub run_cd_keeps :
      (h : Host) (args : List CommandArg) (s : Session)
      → P s
      → ((p : FilePath) → get_path args ≡ ok p → P (moved p s))
      → P (run_cd h args s).1
  unfolding run_cd
  run_cd_keeps h args s here there = go (get_path args) refl
    where
      go :
          (r : Result FilePath)
          → get_path args ≡ r
          → P
              (continue r
                (λ p. do
                  t ← gets (λ t. t)
                  enter_found h p (unsafe_get_entry_node t.world.files (in_base t p)))
                s).1
      go (throw e) is = here
      go (ok p) is =
          enter_keeps h p (unsafe_get_entry_node s.world.files (in_base s p)) s here (there p is)
