-- ===== src/Command/Tokens/Words.antt =====
-- Words of an input line, plain or quoted, and the tokenizer of src/common/command.cpp.
use gazon.Base.{
  ℕ, suc, ◌+◌, ◌-◌, ◌<◌, ◌≡◌, ◌≢◌, refl, sym, ap, ◌∙◌, Bool, true, false, not, List, [], ◌∷◌, ◌++◌,
  append_assoc, some, ◌⊎◌, inl, inr, Text, length, length-append, char_at, substr, nat_eq, leb,
  is_space, arith, All,
}
use gazon.Scan.{
  skip_loop, skip_empty_chars, skip_non_empty_chars, skip_arg, in_single, in_double, single_quote,
  double_quote, backslash,
}
use gazon.Scan.Skip.{skip_loop_exact}
use gazon.Scan.Segment.{char_at-append, char_at-left, All-at, substr_segment, skip_segment}
use gazon.Command.{arg_text}

-- An argument as a client may write it: as it is, in single quotes, or in double quotes.
pub data Word : Type 0 where
  plain single double : Text → Word

abbrev pub text_of : Word → Text
text_of (plain a) = a
text_of (single a) = a
text_of (double a) = a

abbrev pub render : Word → Text
render (plain a) = a
render (single a) = single_quote ∷ (a ++ single_quote ∷ [])
render (double a) = double_quote ∷ (a ++ double_quote ∷ [])

-- The byte does not occur in the text.
abbrev pub Without : ℕ → Text → Type 0
Without b = All (λ c. nat_eq c b ≡ false)

abbrev pub IsWord : Word → Type 0
IsWord (plain []) = ⊥
IsWord (plain (c ∷ a)) =
    All (λ c. is_space c ≡ false) (c ∷ a)
    × (nat_eq c single_quote ≡ false)
    × (nat_eq c double_quote ≡ false)
IsWord (single a) = (a ≢ []) × Without single_quote a
IsWord (double a) = (a ≢ []) × Without double_quote a × Without backslash a

-- each word behind a space
abbrev pub render_all : List Word → Text
render_all [] = []
render_all (w ∷ ws) = 32 ∷ (render w ++ render_all ws)

-- nothing, or a space, comes next
abbrev pub Ends : Text → Type 0
Ends ys = (ys ≡ []) ⊎ (is_space (char_at ys 0) ≡ true)

pub Ends-render_all : (ws : List Word) → Ends (render_all ws)
Ends-render_all [] = inl refl
Ends-render_all (w ∷ ws) = inr refl

-- One word at the position `b`: `skip_arg` finds its end, and `substr` its text.
abbrev pub Reads : Text → ℕ → Word → Type 0
Reads s b w =
    ((skip_arg b s).0 ≡ b + length (render w))
    × (arg_text s b (skip_arg b s).0 (skip_arg b s).1 ≡ some (text_of w))

pub All-not : (f : ℕ → Bool) (a : Text) → All (λ c. f c ≡ false) a → All (λ c. not (f c) ≡ true) a
All-not f [] h = tt
All-not f (c ∷ a) h = (rw h.0 refl, All-not f a h.1)

read_plain :
    (p : Text) (c : ℕ) (a ys : Text)
    → IsWord (plain (c ∷ a))
    → Ends ys
    → Reads (p ++ ((c ∷ a) ++ ys)) (length p) (plain (c ∷ a))
read_plain p c a ys (h, q, d) ends = (
  rw found end,
  rw found (
      unfold arg_text in
      rw
        (
          fits,
          substr_segment p (c ∷ a) ys (length p) (skip_non_empty_chars (length p) s - length p) refl
              (omega (arith, end)),
        )
        refl),
)
  where
    s : Text
    s = p ++ ((c ∷ a) ++ ys)

    stop : Ends ys → (ys ≡ []) ⊎ (not (is_space (char_at ys 0)) ≡ false)
    stop (inl e) = inl e
    stop (inr e) = inr (rw e refl)

    end : skip_non_empty_chars (length p) s ≡ length p + length (c ∷ a)
    end =
        unfold skip_non_empty_chars in
        skip_segment (λ b. not (is_space b)) p (c ∷ a) ys (All-not is_space (c ∷ a) h) (stop ends)

    found : skip_arg (length p) s ≡ (skip_non_empty_chars (length p) s, false)
    found =
        unfold skip_arg in
        rw (char_at-append p ((c ∷ a) ++ ys) (length p) 0 (omega arith), skip_arg, q, d) refl

    fits : leb (length p) (length s) ≡ true
    fits = ground (arith, length-append p ((c ∷ a) ++ ys))

-- the quoted word, with the opening quote on the left and the closing one on the right
regroup :
    (q : ℕ) (p a ys : Text) → p ++ (q ∷ ((a ++ q ∷ []) ++ ys)) ≡ (p ++ q ∷ []) ++ (a ++ q ∷ ys)
regroup q p a ys =
    ap (λ t. p ++ (q ∷ t)) (append_assoc a (q ∷ []) ys)
    ∙ sym (append_assoc p (q ∷ []) (a ++ q ∷ ys))

-- Where `skip_arg` stops behind the closing quote, the word is read.
read_quoted :
    (q : ℕ) (p a ys : Text) (w : Word)
    → render w ≡ q ∷ (a ++ q ∷ [])
    → text_of w ≡ a
    → skip_arg (length p) (p ++ (q ∷ ((a ++ q ∷ []) ++ ys))) ≡ (length p + 1 + length a + 1, true)
    → Reads (p ++ (q ∷ ((a ++ q ∷ []) ++ ys))) (length p) w
read_quoted q p a ys w r t end = (
  rw (end, r) (omega (arith, length-append a (q ∷ []))),
  rw (end, t) (unfold arg_text in rw (fits, text) refl),
)
  where
    fits : leb (length p + 1) (length (p ++ (q ∷ ((a ++ q ∷ []) ++ ys)))) ≡ true
    fits = ground (arith, length-append p (q ∷ ((a ++ q ∷ []) ++ ys)))

    text :
        substr
          (p ++ (q ∷ ((a ++ q ∷ []) ++ ys)))
          (length p + 1)
          (length p + 1 + length a + 1 - 1 - (length p + 1))
        ≡ a
    text = rw (regroup q p a ys) (
        substr_segment (p ++ q ∷ []) a (q ∷ ys) (length p + 1) _
          (omega (arith, length-append p (q ∷ []))) (omega arith))

read_single :
    (p a ys : Text)
    → IsWord (single a)
    → Reads (p ++ (render (single a) ++ ys)) (length p) (single a)
read_single p a ys (nonempty, h) = read_quoted single_quote p a ys (single a) refl refl (
    unfold skip_arg in
    rw (char_at-append p (render (single a) ++ ys) (length p) 0 (omega arith), skip_arg, stops)
      refl)
  where
    stops :
        skip_loop
          (in_single (p ++ (render (single a) ++ ys)))
          (length (p ++ (render (single a) ++ ys)) - (length p + 1))
          (length p + 1)
          (length p + 1)
        ≡ length p + 1 + length a
    stops =
        let opened : length p + 1 ≡ length (p ++ single_quote ∷ []) =
          omega (arith, length-append p (single_quote ∷ [])) in
        unfold in_single in
        rw (regroup single_quote p a ys, opened)
          (skip_segment (λ b. not (nat_eq b single_quote)) (p ++ single_quote ∷ []) a
            (single_quote ∷ ys) (All-not (λ b. nat_eq b single_quote) a h) (inr refl))

read_double :
    (p a ys : Text)
    → IsWord (double a)
    → Reads (p ++ (render (double a) ++ ys)) (length p) (double a)
read_double p a ys (nonempty, h, k) =
    read_quoted double_quote p a ys (double a) refl refl
      (unfold skip_arg in rw (char_at-append p zs (length p) 0 (omega arith), skip_arg, stops) refl)
  where
    zs : Text
    zs = double_quote ∷ ((a ++ double_quote ∷ []) ++ ys)

    inner : zs ≡ (double_quote ∷ a) ++ (double_quote ∷ ys)
    inner = ap (◌∷◌ double_quote) (append_assoc a (double_quote ∷ []) ys)

    -- the byte at `j` of the word, behind the opening quote
    byte : (j : ℕ) → j < length a → char_at (p ++ zs) (length p + 1 + j) ≡ char_at a j
    byte j lt =
        char_at-append p zs (length p + 1 + j) (suc j) (omega arith)
        ∙ rw inner (char_at-left a (double_quote ∷ ys) j lt)

    closing : char_at (p ++ zs) (length p + 1 + length a) ≡ double_quote
    closing =
        char_at-append p zs (length p + 1 + length a) (suc (length a)) (omega arith)
        ∙ rw inner (char_at-append a (double_quote ∷ ys) (length a) 0 (omega arith))

    before : nat_eq (char_at (p ++ zs) (length p + 1 + length a - 1)) backslash ≡ false
    before =
        rw
          (
            char_at-append p zs (length p + 1 + length a - 1) (length a) (omega arith),
            inner,
            char_at-left (double_quote ∷ a) (double_quote ∷ ys) (length a) (omega arith),
          )
          (All-at (λ c. nat_eq c backslash) false (double_quote ∷ a) (length a) (refl, k)
            (omega arith))

    passes : (j : ℕ) → j < length a → in_double (p ++ zs) (length p + 1 + j) ≡ true
    passes j lt =
        unfold in_double in rw (byte j lt, All-at (λ c. nat_eq c double_quote) false a j h lt) refl

    stops :
        skip_loop
          (in_double (p ++ zs))
          (length (p ++ zs) - (length p + 1))
          (length p + 1)
          (length p + 1)
        ≡ length p + 1 + length a
    stops =
        skip_loop_exact (in_double (p ++ zs)) (length (p ++ zs) - (length p + 1)) (length p + 1)
          (length a)
          (omega (
            arith,
            length-append p zs,
            length-append (a ++ double_quote ∷ []) ys,
            length-append a (double_quote ∷ []),
          ))
          passes (inr (unfold in_double in rw (closing, before) refl))

pub read_word :
    (p ys : Text) (w : Word) → IsWord w → Ends ys → Reads (p ++ (render w ++ ys)) (length p) w
read_word p ys (plain []) h e = absurd h
read_word p ys (plain (c ∷ a)) h e = read_plain p c a ys h e
read_word p ys (single a) h e = read_single p a ys h
read_word p ys (double a) h e = read_double p a ys h

-- the space in front of a word is skipped
pub skip_space :
    (p ys : Text) (w : Word)
    → IsWord w
    → skip_empty_chars (length p) (p ++ 32 ∷ (render w ++ ys)) ≡ length p + 1
unfolding skip_empty_chars
skip_space p ys w h =
    skip_segment is_space p (32 ∷ []) (render w ++ ys) (refl, tt) (inr (first w h))
  where
    first : (w : Word) → IsWord w → is_space (char_at (render w ++ ys) 0) ≡ false
    first (plain []) h = absurd h
    first (plain (c ∷ a)) h = h.0.0
    first (single a) h = refl
    first (double a) h = refl
