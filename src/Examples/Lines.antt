-- ===== src/Examples/Lines.antt =====
-- Input lines and words.
use gazon.Base.{◌≡◌, refl, List, [], ◌∷◌, ◌++◌, some, Text, codes}
use gazon.Errors.{ok, ◌>>=◌}
use gazon.Scan.{quote}
use gazon.Scan.Shell.{bare, shell_word, shell_word-quote}
use gazon.Command.{str_arg, arg_hostname, convert_arg, command_from_input, command_name, create}
use gazon.Command.Tokens.{command_from_input_total}
use gazon.Command.Tokens.Words.{Word, plain, single, render_all}
use gazon.Command.Tokens.Lines.{command_from_input-render}
use gazon.Examples.Samples.{plain_printf, alice}

abbrev put_words : List Word
put_words = single (codes "a b") ∷ plain (codes "12") ∷ []

command_from_input-render_example :
    command_from_input (codes "put" ++ render_all put_words)
    ≡ (create (codes "put") >>= λ c. ok (c, codes "a b" ∷ codes "12" ∷ []))
command_from_input-render_example =
    command_from_input-render (codes "put") put_words ((λ e. cc), (refl, (refl, (refl, tt))))
      (((λ e. cc), (refl, (refl, (refl, tt)))), (((refl, (refl, tt)), refl, refl), tt))

command_from_input_total_example :
    (args : List Text) × (command_from_input (codes "cd 'a")
      ≡ (create (command_name (codes "cd 'a")) >>= λ c. ok (c, args)))
command_from_input_total_example = command_from_input_total (codes "cd 'a")

host_accepted :
    convert_arg alice.context arg_hostname (codes "a-1.b") ≡ ok (str_arg (codes "a-1.b"))
unfolding convert_arg
host_accepted = refl

shell_word-quote_example : shell_word bare (quote (codes "a'b")) ≡ some (codes "a'b")
shell_word-quote_example = shell_word-quote (codes "a'b")
