-- ===== src/Regex/Nfa/Compile.antt =====
-- The loop of `RegexNfa::from` of include/common/regexnfa.h on an expression in postfix order.
use gazon.Base.{
  ℕ, ◌+◌, ◌≤◌, ◌<◌, ◌≡◌, refl, ap, ◌∙◌, List, [], ◌∷◌, ◌++◌, append_assoc, some, Text, arith,
}
use gazon.Errors.{ok}
use gazon.Regex.Postfix.{concat_char, pipe_char, zero_or_one, one_or_more, zero_or_more, any_char}
use gazon.Regex.Nfa.{
  Nfa, Fragment, right_of, split_node, any_node, max_size, add_byte, add_leaf, add_concat,
  add_alternative, add_optional, add_star, add_plus, build,
}
use gazon.Regex.Nfa.Graph.{Regex, chr, any, cat, alt, opt, star, plus, IsPlain, size, post}
use gazon.Regex.Nfa.Construct.{
  Built, allocated, relinked, leaf_fragment, allocate-allocated, Built-chr, Built-any, Built-cat,
}
use gazon.Regex.Nfa.Branches.{Built-alt, Built-opt, Built-star, Built-plus}

-- From `n` on, the bytes push the fragment and lead to `n'`.
abbrev Pushes : Text → Nfa → Fragment → Nfa → Type 0
Pushes bytes n f n' =
    (rest : Text) (fs : List Fragment) → build (bytes ++ rest) fs n ≡ build rest (f ∷ fs) n'

build-byte :
    (c : ℕ) (rest : Text) (fs fs' : List Fragment) (n n' : Nfa)
    → add_byte c fs n ≡ some (ok (fs', n'))
    → build (c ∷ rest) fs n ≡ build rest fs' n'
unfolding build
build-byte c rest fs fs' n n' e = rw e

leaf-Pushes :
    (c k : ℕ) (n : Nfa)
    → n.top < max_size
    → ((fs : List Fragment) → add_byte c fs n ≡ add_leaf k fs n)
    → Pushes (c ∷ []) n (leaf_fragment n.top) (allocated k 0 0 n)
unfolding add_leaf
leaf-Pushes c k n h e rest fs =
    build-byte c rest fs (leaf_fragment n.top ∷ fs) n (allocated k 0 0 n)
      (e fs ∙ rw (allocate-allocated k 0 0 n h))

pub add_byte-plain :
    (c : ℕ) (fs : List Fragment) (n : Nfa) → IsPlain (chr c) → add_byte c fs n ≡ add_leaf c fs n
unfolding add_byte
add_byte-plain c fs n h = ground arith

pub add_byte-any : (fs : List Fragment) (n : Nfa) → add_byte any_char fs n ≡ add_leaf any_node fs n
unfolding add_byte
add_byte-any fs n = refl

-- an operator behind its operand
unary-Pushes :
    (c : ℕ) (bytes : Text) (n n1 n2 : Nfa) (f g : Fragment)
    → Pushes bytes n f n1
    → ((fs : List Fragment) → add_byte c (f ∷ fs) n1 ≡ some (ok (g ∷ fs, n2)))
    → Pushes (bytes ++ (c ∷ [])) n g n2
unary-Pushes c bytes n n1 n2 f g p e rest fs =
    ap (λ (x : Text). build x fs n) (append_assoc bytes (c ∷ []) rest)
    ∙ p (c ∷ rest) fs
    ∙ build-byte c rest (f ∷ fs) (g ∷ fs) n1 n2 (e fs)

-- an operator behind its two operands
binary-Pushes :
    (c : ℕ) (xs ys : Text) (n n1 n2 n3 : Nfa) (f1 f2 g : Fragment)
    → Pushes xs n f1 n1
    → Pushes ys n1 f2 n2
    → ((fs : List Fragment) → add_byte c (f2 ∷ f1 ∷ fs) n2 ≡ some (ok (g ∷ fs, n3)))
    → Pushes (xs ++ (ys ++ (c ∷ []))) n g n3
binary-Pushes c xs ys n n1 n2 n3 f1 f2 g p q e rest fs =
    ap (λ (x : Text). build x fs n) (append_assoc xs (ys ++ (c ∷ [])) rest)
    ∙ p ((ys ++ (c ∷ [])) ++ rest) fs
    ∙ ap (λ (x : Text). build x (f1 ∷ fs) n1) (append_assoc ys (c ∷ []) rest)
    ∙ q (c ∷ rest) (f1 ∷ fs)
    ∙ build-byte c rest (f2 ∷ f1 ∷ fs) (g ∷ fs) n2 n3 (e fs)

pub add_byte-cat :
    (f1 f2 : Fragment) (n : Nfa) (fs : List Fragment)
    → add_byte concat_char (f2 ∷ f1 ∷ fs) n
      ≡ some (
          ok (
            record { state = f1.state; needs_linking = f2.needs_linking } ∷ fs,
            relinked f1.needs_linking f2.state n,
          ))
unfolding add_byte add_concat
add_byte-cat f1 f2 n fs = refl

pub add_byte-alt :
    (f1 f2 : Fragment) (n : Nfa) (fs : List Fragment)
    → n.top < max_size
    → add_byte pipe_char (f2 ∷ f1 ∷ fs) n
      ≡ some (
          ok (
            record { state = n.top; needs_linking = f1.needs_linking ++ f2.needs_linking } ∷ fs,
            allocated split_node f1.state f2.state n,
          ))
unfolding add_byte add_alternative
add_byte-alt f1 f2 n fs h = rw (allocate-allocated split_node f1.state f2.state n h)

pub add_byte-opt :
    (f : Fragment) (n : Nfa) (fs : List Fragment)
    → n.top < max_size
    → add_byte zero_or_one (f ∷ fs) n
      ≡ some (
          ok (
            record { state = n.top; needs_linking = f.needs_linking ++ (right_of n.top ∷ []) } ∷ fs,
            allocated split_node f.state 0 n,
          ))
unfolding add_byte add_optional
add_byte-opt f n fs h = rw (allocate-allocated split_node f.state 0 n h)

pub add_byte-star :
    (f : Fragment) (n : Nfa) (fs : List Fragment)
    → n.top < max_size
    → add_byte zero_or_more (f ∷ fs) n
      ≡ some (
          ok (
            record { state = n.top; needs_linking = right_of n.top ∷ [] } ∷ fs,
            relinked f.needs_linking n.top (allocated split_node f.state 0 n),
          ))
unfolding add_byte add_star
add_byte-star f n fs h = rw (allocate-allocated split_node f.state 0 n h)

pub add_byte-plus :
    (f : Fragment) (n : Nfa) (fs : List Fragment)
    → n.top < max_size
    → add_byte one_or_more (f ∷ fs) n
      ≡ some (
          ok (
            record { state = f.state; needs_linking = right_of n.top ∷ [] } ∷ fs,
            relinked f.needs_linking n.top (allocated split_node f.state 0 n),
          ))
unfolding add_byte add_plus
add_byte-plus f n fs h = rw (allocate-allocated split_node f.state 0 n h)

-- The postfix order of an expression pushes a fragment that is its automaton.
abbrev pub Compiled : Regex → Nfa → Type 0
Compiled e n = (f : Fragment) × (n' : Nfa) × Built e n.top n.states f n' × Pushes (post e) n f n'

pub compile :
    (e : Regex) (n : Nfa) → IsPlain e → 0 < n.top → n.top + size e ≤ max_size → Compiled e n
compile (chr c) n pl pos h = (
  leaf_fragment n.top,
  allocated c 0 0 n,
  Built-chr c n pos,
  leaf-Pushes c c n (omega arith) (λ fs. add_byte-plain c fs n pl),
)
compile any n pl pos h = (
  leaf_fragment n.top,
  allocated any_node 0 0 n,
  Built-any n pos,
  leaf-Pushes any_char any_node n (omega arith) (λ fs. add_byte-any fs n),
)
compile (cat a b) n (pa, pb) pos h =
    let (f1, n1, A, ea) = compile a n pa pos (omega arith) in
    let top1 = A.top in
    let (f2, n2, B, eb) = compile b n1 pb (omega arith) (omega arith) in
    (
      _,
      _,
      Built-cat a b n.top n.states f1 f2 n1 n2 A B,
      binary-Pushes concat_char (post a) (post b) n n1 n2 _ f1 f2 _ ea eb
          (λ fs. add_byte-cat f1 f2 n2 fs),
    )
compile (alt a b) n (pa, pb) pos h =
    let (f1, n1, A, ea) = compile a n pa pos (omega arith) in
    let top1 = A.top in
    let (f2, n2, B, eb) = compile b n1 pb (omega arith) (omega arith) in
    let top2 = B.top in
    (
      _,
      _,
      Built-alt a b n.top n.states f1 f2 n1 n2 pos A B,
      binary-Pushes pipe_char (post a) (post b) n n1 n2 _ f1 f2 _ ea eb
          (λ fs. add_byte-alt f1 f2 n2 fs (omega arith)),
    )
compile (opt a) n pa pos h =
    let (f, n1, A, ea) = compile a n pa pos (omega arith) in
    let top1 = A.top in
    (
      _,
      _,
      Built-opt a n.top n.states f n1 pos A,
      unary-Pushes zero_or_one (post a) n n1 _ f _ ea (λ fs. add_byte-opt f n1 fs (omega arith)),
    )
compile (star a) n pa pos h =
    let (f, n1, A, ea) = compile a n pa pos (omega arith) in
    let top1 = A.top in
    (
      _,
      _,
      Built-star a n.top n.states f n1 pos A,
      unary-Pushes zero_or_more (post a) n n1 _ f _ ea (λ fs. add_byte-star f n1 fs (omega arith)),
    )
compile (plus a) n pa pos h =
    let (f, n1, A, ea) = compile a n pa pos (omega arith) in
    let top1 = A.top in
    (
      _,
      _,
      Built-plus a n.top n.states f n1 pos A,
      unary-Pushes one_or_more (post a) n n1 _ f _ ea (λ fs. add_byte-plus f n1 fs (omega arith)),
    )
