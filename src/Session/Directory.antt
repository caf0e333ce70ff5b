-- ===== src/Session/Directory.antt =====
-- The working directory of a session.
use gazon.Base.{
  suc, nat_eq, length, arith, ℕ, ◌≡◌, refl, subst, sym, ap, ◌∙◌, Bool, true, false, not, List, [],
  ◌∷◌, Text, codes, All, if◌then◌else◌,
}
use gazon.Errors
use gazon.Errors.{
  Result, ok, throw, Exception, command_exception, filesystem_exception, networking_exception,
  config_exception, regex_exception, bad_cast, out_of_range, exits,
}
use gazon.FilePath.{FilePath, Printf}
use gazon.FilePath.Clean.{IsName}
use gazon.Base.Maps.{Map}
use gazon.Context.{Context, empty_path}
use gazon.Context
use gazon.Filesystem
use gazon.Filesystem.{Filesystem, unsafe_get_entry_node}
use gazon.Command.Args.{IsSafe, convert_path_names}
use gazon.Command.{
  MiddlewareTypes, middleware_none, middleware_logged, middleware_logged_out, middleware_logging,
  check_logging, arg_path, int_arg, str_arg, Command, CommandArg, path_arg, get_path, middleware,
  middleware_of, specification, command_from_input, convert_path, convert_arg, convert_all,
  convert_and_typecheck_arguments, cd, date, exit, get, grep, login, logout, ls, mkdir, pass, ping,
  put, rm, w, whoami,
}
use gazon.Session.Run.{Session, Host, continue, write, new_line, ◌>>◌, ◌>>=◌, gets, lift, set_files}
use gazon.Session.Commands.{
  FileCommands, execute, in_base, run_mkdir, run_rm, run_w, run_whoami, run_date, run_exit,
  run_logout, drop_last, active_users, in_order,
}
use gazon.Session.Handler.{handle_packet}
use gazon.Session.Jobs.{entered, admitted, status_of, handle_packet_keeps, write_keeps, then_keeps}
use gazon.Session.Open.{run_login_keeps, run_pass_keeps, run_ping_keeps}
use gazon.Session.Moves.{run_cd_keeps}
use gazon.Session.Access.{ok_args}

-- the working directory is made of names
abbrev Inside : Session → Type 0
Inside s = All IsName s.context.relative_path.parts

kept : (s t : Session) → t.context ≡ s.context → Inside s → Inside t
kept s t eq p = subst (λ c. All IsName c.relative_path.parts) (sym eq) p

middleware_Inside :
    (m : MiddlewareTypes) (c : Context)
    → All IsName c.relative_path.parts
    → All IsName (middleware m c).0.relative_path.parts
unfolding middleware
middleware_Inside middleware_none c p = p
middleware_Inside middleware_logged c p = p
middleware_Inside middleware_logged_out c p = p
middleware_Inside middleware_logging c p = go c.is_logging_in
  where
    go : (b : Bool) → All IsName (check_logging b c).0.relative_path.parts
    go true = p
    go false = p

module _ ⦃f : Printf⦄ (h : Host) (fc : FileCommands) where
  files_Inside :
      (r : Result Filesystem) (s : Session) → Inside s → Inside (continue r set_files s).1
  files_Inside (ok fs) s p = p
  files_Inside (throw e) s p = p

  mkdir-Inside : (args : List CommandArg) (s : Session) → Inside s → Inside (run_mkdir h args s).1
  unfolding run_mkdir
  mkdir-Inside args s p = go (get_path args)
    where
      go :
          (r : Result FilePath)
          → Inside
              (continue r
                (λ q. do
                  t ← gets (λ t. t)
                  fs ← lift (Filesystem.mkdir h.os t.world.files (in_base t q))
                  set_files fs)
                s).1
      go (throw e) = p
      go (ok q) = files_Inside (Filesystem.mkdir h.os s.world.files (in_base s q)) s p

  rm-Inside : (args : List CommandArg) (s : Session) → Inside s → Inside (run_rm args s).1
  unfolding run_rm
  rm-Inside args s p = go (get_path args)
    where
      go :
          (r : Result FilePath)
          → Inside
              (continue r
                (λ q. do
                  t ← gets (λ t. t)
                  fs ← lift (Filesystem.rm t.world.files (in_base t q))
                  set_files fs)
                s).1
      go (throw e) = p
      go (ok q) = files_Inside (Filesystem.rm s.world.files (in_base s q)) s p

  lines_Inside :
      (text : Text) (s : Session) → Inside s → Inside ((write h text >> write h new_line) s).1
  lines_Inside text =
      then_keeps Inside (λ t o p. p) (write h text) (write h new_line)
        (write_keeps Inside (λ t o p. p) h text) (write_keeps Inside (λ t o p. p) h new_line)

  logout-Inside : (s : Session) → Inside s → Inside (run_logout s).1
  unfolding run_logout Context.logout
  logout-Inside s p = go s.context.is_logged _
    where
      go :
          (b : Bool) (logged : Map Text ℕ)
          → All IsName
              (if◌then◌else◌ {A = Context × Map Text ℕ}
                (not b)
                (s.context, s.world.logged)
                (
                  record s.context {
                    user = [];
                    is_logged = false;
                    is_logging_in = false;
                    relative_path = empty_path;
                  },
                  logged,
                )).0.relative_path.parts
      go true logged = tt
      go false logged = p

  execute-Inside :
      (cmd : Command) (args : List CommandArg) (s : Session)
      → Inside s
      → (cmd ≡ cd → (p : FilePath) → get_path args ≡ ok p → All IsName p.parts)
      → Inside (execute h fc cmd args s).1
  unfolding execute run_exit run_w run_whoami run_date
  execute-Inside cd args s p new = run_cd_keeps Inside (λ t o q. q) h args s p (new refl)
  execute-Inside date args s p new = write_keeps Inside (λ t o q. q) h (h.shell (codes "date")) s p
  execute-Inside exit args s p new = p
  execute-Inside login args s p new = run_login_keeps Inside args s p (λ user. p) (λ user known. p)
  execute-Inside logout args s p new = logout-Inside s p
  execute-Inside mkdir args s p new = mkdir-Inside args s p
  execute-Inside pass args s p new = run_pass_keeps Inside args s p (λ password is valid. tt)
  execute-Inside ping args s p new = run_ping_keeps Inside (λ t o q. q) h args s p
  execute-Inside rm args s p new = rm-Inside args s p
  execute-Inside w args s p new =
      lines_Inside (drop_last (active_users (in_order s.world.logged))) s p
  execute-Inside whoami args s p new = lines_Inside s.context.user s p
  execute-Inside get args s p new = kept s (fc.run get args s).1 (fc.keeps get args s).context p
  execute-Inside grep args s p new = kept s (fc.run grep args s).1 (fc.keeps grep args s).context p
  execute-Inside ls args s p new = kept s (fc.run ls args s).1 (fc.keeps ls args s).context p
  execute-Inside put args s p new = kept s (fc.run put args s).1 (fc.keeps put args s).context p

  sole_path :
      (v : CommandArg) (args : List CommandArg) (p : FilePath)
      → ok (v ∷ []) ≡ ok args
      → get_path args ≡ ok p
      → v ≡ path_arg p
  unfolding get_path
  sole_path v args p one is = by_kind v (ap get_path (ok_args one) ∙ is)
    where
      by_kind : (v : CommandArg) → get_path (v ∷ []) ≡ ok p → v ≡ path_arg p
      by_kind (int_arg n) said = absurd (cc)
      by_kind (str_arg t) said = absurd (cc)
      by_kind (path_arg q) said = cc

  -- what `cd` is given is a path that was accepted
  cd_argument :
      (c : Context) (strings : List Text) (args : List CommandArg) (p : FilePath)
      → convert_and_typecheck_arguments c (arg_path ∷ []) strings ≡ ok args
      → get_path args ≡ ok p
      → (a : Text) × (convert_path c a ≡ ok (path_arg p))
  unfolding convert_and_typecheck_arguments convert_all convert_arg get_path
  cd_argument c [] args p converted is = absurd (cc)
  cd_argument c (a ∷ b ∷ strings) args p converted is =
      let longer : nat_eq 1 (suc (suc (length strings))) ≡ false = ground arith in absurd (cc)
  cd_argument c (a ∷ []) args p converted is = go (convert_path c a) refl converted
    where
      go :
          (r : Result CommandArg)
          → convert_path c a ≡ r
          → Errors.◌>>=◌ r (λ v. Errors.◌>>=◌ (ok []) (λ rest. ok (v ∷ rest))) ≡ ok args
          → (b : Text) × (convert_path c b ≡ ok (path_arg p))
      go (throw e) eq one = absurd (cc)
      go (ok v) eq one = (a, eq ∙ ap ok (sole_path v args p one is))

  -- Whatever the packet, the working directory after it is made of names, so that it lies in the
  -- base directory, if the one before it is and the home of the session's user is a name.
  pub working_directory_stays_inside :
      (packet : Text) (s : Session)
      → IsSafe s.context
      → All IsName (handle_packet h fc packet s).1.context.relative_path.parts
  unfolding middleware
  working_directory_stays_inside packet s safe =
      handle_packet_keeps Inside (λ t o p. p) h fc packet s safe.inside refused run
    where
      refused : (cmd : Command) → Inside (admitted cmd (entered s))
      refused cmd = middleware_Inside (middleware_of cmd) (entered s).context safe.inside

      run :
          (cmd : Command) (strings : List Text) (args : List CommandArg)
          → command_from_input packet ≡ ok (cmd, strings)
          → convert_and_typecheck_arguments
              (admitted cmd (entered s)).context
              (specification cmd)
              strings
            ≡ ok args
          → status_of cmd (entered s) ≡ true
          → Inside (execute h fc cmd args (admitted cmd (entered s))).1
      run cmd strings args found converted ran =
          execute-Inside cmd args (admitted cmd (entered s)) (refused cmd) new
        where
          new : cmd ≡ cd → (p : FilePath) → get_path args ≡ ok p → All IsName p.parts
          new is p given =
              let (a, accepted) =
                cd_argument c strings args p
                  (subst
                    (λ k.
                      convert_and_typecheck_arguments (admitted k (entered s)).context
                        (specification k) strings
                      ≡ ok args)
                    is converted)
                  given in
              (convert_path_names c a p (record { inside = safe.inside; home = safe.home })
                accepted).0
            where
              c : Context
              c = (admitted cd (entered s)).context
