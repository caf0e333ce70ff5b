-- ===== src/Sockets/Unique.antt =====
-- The packets that ConnectionPool::run of src/common/socket.cpp hands over, for two ways to cut the
-- bytes into reads.
use gazon.Base.{
  ℕ, ◌≡◌, ◌≢◌, refl, sym, ap, subst, ◌∙◌, true, false, nat_eq, nat_eq_iff, List, [], ◌∷◌, ◌++◌,
  append_assoc, All, All-right, some, Text, map,
}
use gazon.Errors.{ok}
use gazon.Scan.Split.{Lacks}
use gazon.Transfer.Receive.{joined}
use gazon.Sockets.{Socket, bytes, serve_reads}
use gazon.Sockets.Framing.{terminated, packets_of_stream}

break_is_break : nat_eq 10 10 ≡ false → ⊥
break_is_break f = let t = (nat_eq_iff 10 10).1 refl in absurd (cc)

pub no_break : (p z : Text) → Lacks 10 (p ++ (10 ∷ z)) → ⊥
no_break p z l = break_is_break (All-right (λ c. nat_eq c 10 ≡ false) p (10 ∷ z) l).0

pub line_unique :
    (a b x y : Text) → Lacks 10 a → Lacks 10 b → a ++ (10 ∷ x) ≡ b ++ (10 ∷ y) → (a ≡ b) × (x ≡ y)
line_unique [] [] x y l k e = (refl, cc)
line_unique [] (c ∷ b) x y l k e =
    let same : 10 ≡ c = cc in absurd (break_is_break (ap (λ (n : ℕ). nat_eq n 10) same ∙ k.0))
line_unique (c ∷ a) [] x y l k e =
    let same : 10 ≡ c = cc in absurd (break_is_break (ap (λ (n : ℕ). nat_eq n 10) same ∙ l.0))
line_unique (c ∷ a) (d ∷ b) x y l k e =
    let rest : a ++ (10 ∷ x) ≡ b ++ (10 ∷ y) = cc in
    let (same, behind) = line_unique a b x y l.1 k.1 rest in (cc, behind)

-- A text is cut at its line breaks in one way.
frames_unique :
    (ps qs : List Text) (r t : Text)
    → All (Lacks 10) ps
    → Lacks 10 r
    → All (Lacks 10) qs
    → Lacks 10 t
    → terminated ps ++ r ≡ terminated qs ++ t
    → (ps ≡ qs) × (r ≡ t)
frames_unique [] [] r t lp lr lq lt e = (refl, e)
frames_unique [] (q ∷ qs) r t lp lr lq lt e = absurd (
    no_break q (terminated qs ++ t)
      (subst (Lacks 10) (e ∙ append_assoc q (10 ∷ terminated qs) t) lr))
frames_unique (p ∷ ps) [] r t lp lr lq lt e = absurd (
    no_break p (terminated ps ++ r)
      (subst (Lacks 10) (sym e ∙ append_assoc p (10 ∷ terminated ps) r) lt))
frames_unique (p ∷ ps) (q ∷ qs) r t lp lr lq lt e =
    let (first, others) =
      line_unique p q (terminated ps ++ r) (terminated qs ++ t) lp.0 lq.0
        (sym (append_assoc p (10 ∷ terminated ps) r) ∙ e ∙ append_assoc q (10 ∷ terminated qs) t) in
    let (rest, tail) = frames_unique ps qs r t lp.1 lr lq.1 lt others in (cc, tail)

-- If the same bytes come in reads that are not empty, cut in one way or another, an open connection
-- hands over the same packets and is left in the same state.
pub packets_independent_of_reads :
    (s : Socket) (chunks chunks' : List Text)
    → s.is_open ≡ true
    → Lacks 10 s.received
    → All (λ chunk. chunk ≢ []) chunks
    → All (λ chunk. chunk ≢ []) chunks'
    → joined chunks ≡ joined chunks'
    → serve_reads (map bytes chunks) s ≡ serve_reads (map bytes chunks') s
packets_independent_of_reads s chunks chunks' is_open l ne ne' same =
    let (ps, rest, returns, parts, ls, ends) = packets_of_stream s chunks is_open l ne in
    let (qs, tail, returns', parts', ls', ends') = packets_of_stream s chunks' is_open l ne' in
    let (packets, rests) =
      frames_unique ps qs rest tail ls ends ls' ends'
        (sym parts ∙ ap (λ (z : Text). s.received ++ z) same ∙ parts') in
    returns
    ∙ ap (λ (x : List Text × Text). some (ok x.0, record s { received = x.1 })) (pair packets rests)
    ∙ sym returns'
  where
    pair : {a b : List Text} {x y : Text} → a ≡ b → x ≡ y → ◌≡◌ {A = List Text × Text} (a, x) (b, y)
    pair e k = cc
