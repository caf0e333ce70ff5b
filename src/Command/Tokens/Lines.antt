-- ===== src/Command/Tokens/Lines.antt =====
-- A whole line: the command's name and its words.
use mathlib.Core.Path.{subst₂}
use gazon.Base.{
  ℕ, zero, suc, ◌+◌, ◌-◌, ◌<◌, ◌≡◌, ◌≢◌, refl, ap, ◌∙◌, true, false, not, List, [], ◌∷◌, ◌++◌,
  append_assoc, append-nil, map, some, ◌⊎◌, inl, inr, Text, length, length-append, char_at, ltb,
  is_space, arith, All,
}
use gazon.Errors.{ok, ◌>>=◌}
use gazon.Scan.{skip_empty_chars, skip_non_empty_chars, skip_arg}
use gazon.Scan.Segment.{substr_segment, skip_segment}
use gazon.Command.{keep_arg, parse_args, command_from_input, create, name_stop, command_name}
use gazon.Command.Tokens.Words.{
  Word, plain, single, double, text_of, render, IsWord, render_all, Ends, Ends-render_all, Reads,
  read_word, skip_space, All-not,
}

keep_word : (w : Word) (args : List Text) → IsWord w → keep_arg (text_of w) args ≡ text_of w ∷ args
keep_word (plain []) args h = absurd h
keep_word (plain (c ∷ a)) args h = refl
keep_word (single []) args h = absurd (h.0 refl)
keep_word (single (c ∷ a)) args h = refl
keep_word (double []) args h = absurd (h.0 refl)
keep_word (double (c ∷ a)) args h = refl

one_round :
    (fuel : ℕ) (p : Text) (w : Word) (ws : List Word) (args : List Text)
    → IsWord w
    → parse_args fuel ((p ++ 32 ∷ render w) ++ render_all ws) (length (p ++ 32 ∷ render w))
      ≡ some args
    → parse_args (suc fuel) (p ++ render_all (w ∷ ws)) (length p) ≡ some (text_of w ∷ args)
one_round fuel p w ws args h rest =
    unfold parse_args in
    rw (starts, skip_space p (render_all ws) w h, reads.1, next) (ap some (keep_word w args h))
  where
    s : Text
    s = p ++ 32 ∷ (render w ++ render_all ws)

    starts : ltb (length p) (length s) ≡ true
    starts = ground (arith, length-append p (32 ∷ (render w ++ render_all ws)))

    reads : Reads s (length p + 1) w
    reads =
        let there = read_word (p ++ 32 ∷ []) (render_all ws) w h (Ends-render_all ws) in
        let len : length (p ++ 32 ∷ []) ≡ length p + 1 = omega (arith, length-append p (32 ∷ [])) in
        subst₂ (λ t n. Reads t n w) (append_assoc p (32 ∷ []) (render w ++ render_all ws)) len there

    next : parse_args fuel s (skip_arg (length p + 1) s).0 ≡ some args
    next =
        let len : length (p ++ 32 ∷ render w) ≡ (skip_arg (length p + 1) s).0 =
          omega (arith, length-append p (32 ∷ render w), reads.0) in
        subst₂ (λ t n. parse_args fuel t n ≡ some args)
          (append_assoc p (32 ∷ render w) (render_all ws)) len rest

pub parse_args-render :
    (fuel : ℕ) (p : Text) (ws : List Word)
    → length ws < fuel
    → All IsWord ws
    → parse_args fuel (p ++ render_all ws) (length p) ≡ some (map text_of ws)
parse_args-render zero p ws h k = absurd (omega arith)
parse_args-render (suc fuel) p [] h k =
    unfold parse_args in rw (append-nil p) (rw (irreflexive (length p)) refl)
  where
    irreflexive : (n : ℕ) → ltb n n ≡ false
    irreflexive n = ground arith
parse_args-render (suc fuel) p (w ∷ ws) h k =
    one_round fuel p w ws (map text_of ws) k.0
      (parse_args-render fuel (p ++ 32 ∷ render w) ws (omega arith) k.1)

-- A name of a command: some bytes that are no spaces.
abbrev pub IsCommandName : Text → Type 0
IsCommandName name = (name ≢ []) × All (λ c. is_space c ≡ false) name

module _ (name : Text) (ws : List Word) (h : IsCommandName name) where
  abbrev line : Text
  line = name ++ render_all ws

  no_space_first :
      (name : Text) → IsCommandName name → is_space (char_at (name ++ render_all ws) 0) ≡ false
  no_space_first [] h = absurd (h.0 refl)
  no_space_first (c ∷ name) h = h.1.0

  start_of : skip_empty_chars 0 line ≡ 0
  unfolding skip_empty_chars
  start_of = skip_segment is_space [] [] line tt (inr (no_space_first name h))

  stop_of : name_stop line ≡ length name
  stop_of =
      unfold name_stop in
      rw start_of (
        unfold skip_non_empty_chars in
        skip_segment (λ c. not (is_space c)) [] name (render_all ws) (All-not is_space name h.1)
          (stop (Ends-render_all ws))
        ∙ omega arith)
    where
      stop :
          Ends (render_all ws)
          → (render_all ws ≡ []) ⊎ (not (is_space (char_at (render_all ws) 0)) ≡ false)
      stop (inl e) = inl e
      stop (inr e) = inr (rw e refl)

  name_of : command_name line ≡ name
  name_of =
      unfold command_name in
      rw (start_of, stop_of)
        (substr_segment [] name (render_all ws) 0 (length name - 0) refl (omega arith))

  -- A line of a name and of words that are plain or quoted is read back: `commandFromInput` looks
  -- up that name, and has the texts of those words for its arguments.
  pub command_from_input-render :
      All IsWord ws → command_from_input line ≡ (create name >>= λ c. ok (c, map text_of ws))
  command_from_input-render k =
      unfold command_from_input in
      rw (name_of, stop_of, parse_args-render (suc (length line)) name ws (enough ws) k) refl
    where
      enough : (ws : List Word) → length ws < suc (length (name ++ render_all ws))
      enough [] = omega arith
      enough (w ∷ ws) = omega (
        arith,
        enough ws,
        length-append name (render_all ws),
        length-append name (render_all (w ∷ ws)),
        length-append (render w) (render_all ws),
      )
