-- ===== src/Command/Tests.antt =====
-- Runs of the tokenizer and the type checker.
use gazon.Base.{◌≡◌, refl, codes, [], ◌∷◌}
use gazon.Errors.{ok, throw, command_exception}
use gazon.Command.{command_from_input, put}

tokens_quoted :
    command_from_input (codes "  put 'a b'  12 \"x\" ")
    ≡ ok (put, codes "a b" ∷ codes "12" ∷ codes "x" ∷ [])
unfolding command_from_input
tokens_quoted = refl

no_such_command :
    command_from_input (codes "foo") ≡ throw (command_exception (codes "command foo not found."))
unfolding command_from_input
no_such_command = refl
