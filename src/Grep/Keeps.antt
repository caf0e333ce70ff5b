-- ===== src/Grep/Keeps.antt =====
-- What src/common/commands/grep.cpp leaves of the session, against the contract of the commands
-- that search files.
use gazon.Base.{refl, List, [], ◌∷◌, Bool, true, false, Option, none, some, Text}
use gazon.Errors.{Result, ok, throw}
use gazon.FilePath.{Printf}
use gazon.Command.{
  Command, CommandArg, get_str, cd, date, exit, get, grep, login, logout, ls, mkdir, pass, ping,
  put, rm, w, whoami,
}
use gazon.Session.Run.{Session, Host, Exec, write, new_line, ◌>>◌}
use gazon.Session.Commands.{FileCommands, KeepsSession}
use gazon.Session.Jobs.{IgnoresOutput, write_keeps, then_keeps}
use gazon.Regex.Nfa.{Memory}
use gazon.Regex.Dfa.{Dfa}
use gazon.Transfer.{Disk}
use gazon.Grep.{
  Outcome, stuck, overruns, throws, finds, Ran, undefined, overran, ran, send_files, files_sent,
  my_grep, choose, grep_pattern, run_grep,
}

-- What holds of the session after the run, if its behaviour is defined.
abbrev KeepsIfRan : Session → Ran → Type 0
KeepsIfRan s undefined = Unit
KeepsIfRan s (overran r) = Unit
KeepsIfRan s (ran x) = KeepsSession s x.1

same-KeepsSession : (s : Session) → KeepsSession s s
same-KeepsSession s = record { context = refl; logged = refl; config = refl }

module _ (s : Session) where
  abbrev Kept : Session → Type 0
  Kept = KeepsSession s

  quiet : IgnoresOutput Kept
  quiet t o k = record { context = k.context; logged = k.logged; config = k.config }

  files-KeepsSession :
      (h : Host) (files : List Text) (t : Session) → Kept t → Kept (send_files h files t).1
  unfolding send_files
  files-KeepsSession h [] t k = k
  files-KeepsSession h (file ∷ files) t k =
      then_keeps Kept quiet (write h file) (write h new_line >> send_files h files)
        (write_keeps Kept quiet h file)
        (then_keeps Kept quiet (write h new_line) (send_files h files)
          (write_keeps Kept quiet h new_line) (files-KeepsSession h files))
        t k

  sent-Keeps : (h : Host) (o : Outcome) → KeepsIfRan s (files_sent h o s)
  sent-Keeps h stuck = tt
  sent-Keeps h (overruns r) = tt
  sent-Keeps h (throws x) = same-KeepsSession s
  sent-Keeps h (finds r) = files-KeepsSession h r.matched_files s (same-KeepsSession s)

  module _ ⦃f : Printf⦄ (h : Host) (disk : Disk) (sort : List Text → List Text) (m : Memory) where
    my_grep-Keeps : (o : Option (Result Dfa)) → KeepsIfRan s (my_grep h disk sort o s)
    my_grep-Keeps none = tt
    my_grep-Keeps (some (throw x)) = same-KeepsSession s
    my_grep-Keeps (some (ok regex)) = sent-Keeps h _

    choose-Keeps :
        (pattern : Text) (r : Result Bool) → KeepsIfRan s (choose h disk sort m pattern r s)
    choose-Keeps pattern (throw x) = same-KeepsSession s
    choose-Keeps pattern (ok true) = my_grep-Keeps _
    choose-Keeps pattern (ok false) =
        then_keeps Kept quiet (write h _) (write h new_line) (write_keeps Kept quiet h _)
          (write_keeps Kept quiet h new_line) s (same-KeepsSession s)

    pattern-Keeps : (r : Result Text) → KeepsIfRan s (grep_pattern h disk sort m r s)
    pattern-Keeps (throw x) = same-KeepsSession s
    pattern-Keeps (ok pattern) = choose-Keeps pattern _

    -- Where the behaviour of `grep` is defined, it leaves the context, the counts of sessions and the
    -- settings as they were, whatever its arguments.
    pub run_grep-Keeps : (args : List CommandArg) → KeepsIfRan s (run_grep h disk sort m args s)
    unfolding run_grep
    run_grep-Keeps args = pattern-Keeps (get_str args)

-- what a run comes to, with another where its behaviour is undefined
abbrev pub defined_or : Result (Unit {0}) × Session → Ran → Result (Unit {0}) × Session
defined_or other undefined = other
defined_or other (overran r) = other
defined_or other (ran x) = x

defined_or-KeepsSession :
    (s : Session) (other : Result (Unit {0}) × Session) (r : Ran)
    → KeepsSession s other.1
    → KeepsIfRan s r
    → KeepsSession s (defined_or other r).1
defined_or-KeepsSession s other undefined k h = k
defined_or-KeepsSession s other (overran r) k h = k
defined_or-KeepsSession s other (ran x) k h = h

module _ ⦃f : Printf⦄ (h : Host) (disk : Disk) (sort : List Text → List Text) (m : Memory)
    (fc : FileCommands) where
  -- `grep` is what this model says; the others, and what is undefined, are those of `fc`
  abbrev pub run_search : Command → List CommandArg → Exec (Unit {0})
  run_search grep args = λ s. defined_or (fc.run grep args s) (run_grep h disk sort m args s)
  run_search cmd args = fc.run cmd args

  pub run_search-KeepsSession :
      (c : Command) (args : List CommandArg) (s : Session) → KeepsSession s (run_search c args s).1
  run_search-KeepsSession grep args s =
      defined_or-KeepsSession s (fc.run grep args s) (run_grep h disk sort m args s)
        (fc.keeps grep args s) (run_grep-Keeps s h disk sort m args)
  run_search-KeepsSession cd args s = fc.keeps cd args s
  run_search-KeepsSession date args s = fc.keeps date args s
  run_search-KeepsSession exit args s = fc.keeps exit args s
  run_search-KeepsSession get args s = fc.keeps get args s
  run_search-KeepsSession login args s = fc.keeps login args s
  run_search-KeepsSession logout args s = fc.keeps logout args s
  run_search-KeepsSession ls args s = fc.keeps ls args s
  run_search-KeepsSession mkdir args s = fc.keeps mkdir args s
  run_search-KeepsSession pass args s = fc.keeps pass args s
  run_search-KeepsSession ping args s = fc.keeps ping args s
  run_search-KeepsSession put args s = fc.keeps put args s
  run_search-KeepsSession rm args s = fc.keeps rm args s
  run_search-KeepsSession w args s = fc.keeps w args s
  run_search-KeepsSession whoami args s = fc.keeps whoami args s

  -- The command fills its part of the interface of the session.
  abbrev pub searches : FileCommands
  searches = record { run = run_search; keeps = run_search-KeepsSession }
