-- ===== src/Command.antt =====
-- src/common/command.cpp and include/common/command.h: the arguments of a command, its checks
-- before execution, and the way from an input line to a command.
pub mod Args
pub mod Tilde
pub mod Tokens
pub mod Tests
use gazon.Base.{
  ℕ, zero, suc, ◌+◌, ◌-◌, Bool, true, false, not, ◌&&◌, ◌||◌, List, [], ◌∷◌, ◌++◌, Option, none,
  some, Text, codes, length, char_at, substr, nat_eq, ltb, leb, text_Eq, text_eq, if◌then◌else◌,
}
use gazon.Base.Maps.{Map, find, insert}
use gazon.Errors.{Result, ok, throw, command_exception, out_of_range, bad_cast, ◌>>=◌}
use gazon.Numbers.{ℤ, stoi}
use gazon.Scan.{contains_byte, skip_empty_chars, skip_non_empty_chars, skip_arg}
use gazon.FilePath.{
  FilePath, Printf, parse_path, append_path, set_relative, attempt_parent_traversal, string_length,
}
use gazon.Context.{Context}

pub data ArgTypes : Type 0 where
  arg_path arg_int arg_str arg_hostname arg_pattern : ArgTypes

-- `Variant<int, std::string, Path>`
pub data CommandArg : Type 0 where
  int_arg : ℤ → CommandArg
  str_arg : Text → CommandArg
  path_arg : FilePath → CommandArg

-- `args[i].get<T>()`: a variant that holds another type throws. (An index past the end is undefined
-- there; the arguments that reach a command are as many as its specification has.)
unfoldable pub get_str : List CommandArg → Result Text
get_str [] = throw out_of_range
get_str (str_arg s ∷ rest) = ok s
get_str (a ∷ rest) = throw bad_cast

unfoldable pub get_path : List CommandArg → Result FilePath
get_path [] = throw out_of_range
get_path (path_arg p ∷ rest) = ok p
get_path (a ∷ rest) = throw bad_cast

pub data MiddlewareTypes : Type 0 where
  middleware_none middleware_logging middleware_logged middleware_logged_out : MiddlewareTypes

abbrev pub is_alnum : ℕ → Bool
is_alnum c = leb b'0' c && leb c b'9' || leb b'A' c && leb c b'Z' || leb b'a' c && leb c b'z'

-- Where the matcher of `hostnameRegex` stands: a label has yet to start, or the last byte was a
-- letter or digit of a label, or a dash in one.
pub data LabelPart : Type 0 where
  at_start after_alnum after_dash : LabelPart

-- `hostnameRegex`, as the automaton that it denotes: labels joined by dots, each of letters, digits
-- and dashes, a dash neither first nor last.
pub is_hostname : LabelPart → Text → Bool
is_hostname at_start [] = false
is_hostname after_alnum [] = true
is_hostname after_dash [] = false
is_hostname at_start (c ∷ s) =
    let alnum = is_hostname after_alnum s in if is_alnum c then alnum else false
is_hostname after_alnum (c ∷ s) =
    let alnum = is_hostname after_alnum s in
    let dash = is_hostname after_dash s in
    let dot = is_hostname at_start s in
    if is_alnum c
    then alnum
    else if nat_eq c b'-'
    then dash
    else if nat_eq c b'.'
    then dot
    else false
is_hostname after_dash (c ∷ s) =
    let alnum = is_hostname after_alnum s in
    let dash = is_hostname after_dash s in
    if is_alnum c then alnum else if nat_eq c b'-' then dash else false

-- the tests that a path in the base directory has to pass
unfoldable pub check_path : FilePath → Result CommandArg
check_path relative_path =
    if attempt_parent_traversal relative_path
    then throw (command_exception (codes "access denied."))
    else if ltb 128 (string_length relative_path)
    then throw (command_exception (codes "the path is too long."))
    else ok (path_arg relative_path)

-- The case `ARG_PATH`.
unfoldable pub convert_path : ⦃f : Printf⦄ → Context → Text → Result CommandArg
unfolding check_path
convert_path context arg =
    if contains_byte arg 0
    then throw (command_exception (codes "incorrect path."))
    else check_path
        (set_relative (append_path context.relative_path (parse_path arg (some context.user))))

-- the `switch` on the type of one argument
unfoldable pub convert_arg : ⦃f : Printf⦄ → Context → ArgTypes → Text → Result CommandArg
unfolding convert_path is_hostname stoi
convert_arg context arg_path arg = convert_path context arg
convert_arg context arg_int arg = elim (stoi arg) [
  | some n ↦ ok (int_arg n)
  | none ↦ throw (command_exception (codes "argument should be an int."))
]
convert_arg context arg_hostname arg =
    if is_hostname at_start arg
    then ok (str_arg arg)
    else throw (command_exception (codes "argument should be a valid domain name."))
convert_arg context arg_str arg = ok (str_arg arg)
convert_arg context arg_pattern arg = ok (str_arg arg)

-- the loop, once the sizes agree
unfoldable pub convert_all :
    ⦃f : Printf⦄ → Context → List ArgTypes → List Text → Result (List CommandArg)
unfolding convert_arg
convert_all context [] args = ok []
convert_all context (t ∷ spec) [] = ok []
convert_all context (t ∷ spec) (a ∷ args) = do
  arg ← convert_arg context t a
  rest ← convert_all context spec args
  ok (arg ∷ rest)

unfoldable pub convert_and_typecheck_arguments :
    ⦃f : Printf⦄ → Context → List ArgTypes → List Text → Result (List CommandArg)
unfolding convert_all
convert_and_typecheck_arguments context spec args =
    if not (nat_eq (length spec) (length args))
    then throw (command_exception (codes "number of arguments doesn't match."))
    else convert_all context spec args

-- `if (m_middlewareTypes != MIDDLEWARE_LOGGING) context.isLoggingIn = false;`
abbrev pub forget_login : MiddlewareTypes → Context → Context
forget_login middleware_logging c = c
forget_login m c = record c { is_logging_in = false }

-- the test of `MIDDLEWARE_LOGGING`, on `context.isLoggingIn`
abbrev pub check_logging : Bool → Context → Context × Bool
check_logging true c = (c, true)
check_logging false c = (record c { is_logged = false; user = [] }, false)

check : MiddlewareTypes → Context → Context × Bool
check middleware_none c = (c, true)
check middleware_logging c = check_logging c.is_logging_in c
check middleware_logged c = (c, c.is_logged)
check middleware_logged_out c = (c, not c.is_logged)

-- `middleware`: the context, and the status
unfoldable pub middleware : MiddlewareTypes → Context → Context × Bool
unfolding check
middleware m c = check m (forget_login m c)

-- The classes that inherit from `Command`.
pub data Command : Type 0 where
  cd date exit get grep login logout ls mkdir pass ping put rm w whoami : Command

-- the argument of `Command(…)` in each constructor
abbrev pub middleware_of : Command → MiddlewareTypes
middleware_of exit = middleware_none
middleware_of login = middleware_none
middleware_of ping = middleware_none
middleware_of pass = middleware_logging
middleware_of _ = middleware_logged

-- `getSpecification`
abbrev pub specification : Command → List ArgTypes
specification cd = arg_path ∷ []
specification get = arg_path ∷ []
specification grep = arg_pattern ∷ []
specification login = arg_str ∷ []
specification mkdir = arg_path ∷ []
specification pass = arg_str ∷ []
specification ping = arg_hostname ∷ []
specification put = arg_path ∷ arg_int ∷ []
specification rm = arg_path ∷ []
specification _ = []

unfoldable pub register_command : Text → Command → Map Text Command → Map Text Command
unfolding insert
register_command name c constructors = insert name c constructors

-- `m_constructors` after the registrations of the macro `REGISTER_COMMAND`
unfoldable pub constructors : Map Text Command
unfolding register_command
constructors = register_command (codes "cd") cd (
    register_command (codes "date") date (
      register_command (codes "exit") exit (
        register_command (codes "get") get (
          register_command (codes "grep") grep (
            register_command (codes "login") login (
              register_command (codes "logout") logout (
                register_command (codes "ls") ls (
                  register_command (codes "mkdir") mkdir (
                    register_command (codes "pass") pass (
                      register_command (codes "ping") ping (
                        register_command (codes "put") put (
                          register_command (codes "rm") rm (
                            register_command (codes "w") w
                              (register_command (codes "whoami") whoami []))))))))))))))

-- `CommandFactory::create`
unfoldable pub create : Text → Result Command
unfolding find constructors text_eq
create name = elim (find name constructors) [
  | none ↦ throw (command_exception (codes "command " ++ (name ++ codes " not found.")))
  | some c ↦ ok c
]

-- The bytes that `substr` takes for an argument, or `none` where its start is out of range.
pub arg_text : Text → ℕ → ℕ → Bool → Option Text
arg_text s start end true =
    if leb (start + 1) (length s) then some (substr s (start + 1) (end - 1 - (start + 1))) else none
arg_text s start end false =
    if leb start (length s) then some (substr s start (end - start)) else none

-- `if (arg.size() > 0) command_args.push_back(arg)`
abbrev pub keep_arg : Text → List Text → List Text
keep_arg [] rest = rest
keep_arg (c ∷ arg) rest = (c ∷ arg) ∷ rest

abbrev pub collect : Option Text → Option (List Text) → Option (List Text)
collect none rest = none
collect (some arg) none = none
collect (some arg) (some args) = some (keep_arg arg args)

-- The loop `while (start < input.size())` of `commandFromInput`. `none`: the fuel ran out, or
-- `substr` threw.
pub parse_args : ℕ → Text → ℕ → Option (List Text)
unfolding arg_text skip_empty_chars skip_arg
parse_args zero s start = none
parse_args (suc fuel) s start =
    let begin = skip_empty_chars start s in
    let (end, escaped) = skip_arg begin s in
    let rest = parse_args fuel s end in
    let step = collect (arg_text s begin end escaped) rest in
    if ltb start (length s) then step else some []

-- where the command's name ends
unfoldable pub name_stop : Text → ℕ
unfolding skip_empty_chars skip_non_empty_chars
name_stop input = skip_non_empty_chars (skip_empty_chars 0 input) input

unfoldable pub command_name : Text → Text
command_name input =
    let start = skip_empty_chars 0 input in substr input start (name_stop input - start)

-- the outcome of the loop, for a command that was found
abbrev pub with_args : Command → Option (List Text) → Result (Command × List Text)
with_args command none = throw out_of_range
with_args command (some args) = ok (command, args)

-- `commandFromInput`; each round moves on by a byte at least, so the fuel is more than the bytes
unfoldable pub command_from_input : Text → Result (Command × List Text)
unfolding create parse_args command_name name_stop
command_from_input input = do
  command ← create (command_name input)
  with_args command (parse_args (suc (length input)) input (name_stop input))
