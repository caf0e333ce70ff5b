-- ===== src/Grep/Steps.antt =====
-- What the parts of `my_grep_aux_unsafe` in src/common/commands/grep.cpp do to the matched files.
use gazon.Base.{
  ℕ, ◌≤◌, ◌≡◌, ◌⊎◌, inl, inr, refl, subst, Bool-cases, List, [], ◌∷◌, Memᴰ, here, there,
  append_left, append_right, Mem-append, Option, none, some, Text, length, ltb, text_Eq, arith,
}
use gazon.Regex.Nfa.Graph.{Regex}
use gazon.Regex.Dfa.{Dfa}
use gazon.Regex.Pattern.{Serves}
use gazon.Grep.{
  Search, Outcome, stuck, overruns, throws, finds, limit_n_file, file_searched, then_visit, each,
}
use gazon.Grep.Lines.{HasLine, MayMatch, MustMatch, Searched}

-- What the search adds to the files is in `May`.
abbrev pub Grows : (Text → Type 0) → Search → Search → Type 0
Grows May s s' = (q : Text) → Memᴰ q s'.matched_files → Memᴰ q s.matched_files ⊎ May q

-- What was there stays, and what is in `Must` is there.
abbrev pub Covers : (Text → Type 0) → Search → Search → Type 0
Covers Must s s' = (q : Text) → Memᴰ q s.matched_files ⊎ Must q → Memᴰ q s'.matched_files

module _ (e : Regex) where
  -- The search neither throws nor accesses what is not there. It passes the end of `line_positions`
  -- once that is full, or comes to its end.
  abbrev pub Lists : (Text → Type 0) → (Text → Type 0) → Search → Outcome → Type 0
  Lists May Must s stuck = ⊥
  Lists May Must s (overruns s') = (limit_n_file ≤ length s'.matched_files) × Grows May s s'
  Lists May Must s (throws x) = ⊥
  Lists May Must s (finds s') = Serves e s'.regex × Grows May s s' × Covers Must s s'

  pub Lists-wider :
      (May Must May' Must' : Text → Type 0) (s : Search) (o : Outcome)
      → ((q : Text) → May q → May' q)
      → ((q : Text) → Must' q → Must q)
      → Lists May Must s o
      → Lists May' Must' s o
  Lists-wider May Must May' Must' s stuck f g h = h
  Lists-wider May Must May' Must' s (overruns s') f g (le, grows) =
      (le, λ q m. elim (grows q m) [ inl k ↦ inl k | inr k ↦ inr (f q k) ])
  Lists-wider May Must May' Must' s (throws x) f g h = h
  Lists-wider May Must May' Must' s (finds s') f g (S, grows, covers) = (
    S,
    λ q m. elim (grows q m) [ inl k ↦ inl k | inr k ↦ inr (f q k) ],
    λ q m. covers q (elim m [ inl k ↦ inl k | inr k ↦ inr (g q k) ]),
  )

  -- A search goes on where another one ended.
  after_finds :
      (May Must Must' : Text → Type 0) (s s' : Search) (o : Outcome)
      → Grows May s s'
      → Covers Must s s'
      → Lists May Must' s' o
      → Lists May (λ q. Must q ⊎ Must' q) s o
  after_finds May Must Must' s s' stuck grows covers h = h
  after_finds May Must Must' s s' (overruns t) grows covers (le, grows') =
      (le, λ q m. elim (grows' q m) [ inl k ↦ grows q k | inr k ↦ inr k ])
  after_finds May Must Must' s s' (throws x) grows covers h = h
  after_finds May Must Must' s s' (finds t) grows covers (S, grows', covers') = (
    S,
    λ q m. elim (grows' q m) [ inl k ↦ grows q k | inr k ↦ inr k ],
    λ q m. covers' q (elim m [
      | inl k ↦ inl (covers q (inl k))
      | inr (inl k) ↦ inl (covers q (inr k))
      | inr (inr k) ↦ inr k
    ]),
  )

  then_visit-Lists :
      (May Must Must' : Text → Type 0) (s : Search) (o : Outcome) (next : Search → Outcome)
      → Lists May Must s o
      → ((s' : Search) → Serves e s'.regex → Lists May Must' s' (next s'))
      → Lists May (λ q. Must q ⊎ Must' q) s (then_visit o next)
  then_visit-Lists May Must Must' s stuck next h k = h
  then_visit-Lists May Must Must' s (overruns s') next h k = h
  then_visit-Lists May Must Must' s (throws x) next h k = h
  then_visit-Lists May Must Must' s (finds s') next (S, grows, covers) k =
      after_finds May Must Must' s s' (next s') grows covers (k s' S)

  -- The loop over the names.
  pub each-Lists :
      (May : Text → Type 0) (Must : Text → Text → Type 0) (visit_one : Text → Search → Outcome)
      (ns : List Text)
      → ((name : Text)
          → Memᴰ name ns
          → (s : Search) → Serves e s.regex
          → Lists May (Must name) s (visit_one name s))
      → (s : Search) → Serves e s.regex
      → Lists May (λ q. (name : Text) × Memᴰ name ns × Must name q) s (each visit_one ns s)
  each-Lists May Must visit_one [] h s S =
      (S, λ q m. inl m, λ q m. elim m [ inl k ↦ k | inr (name, k, must) ↦ elim k [ ] ])
  each-Lists May Must visit_one (name ∷ ns) h s S =
      let rest : Text → Type 0 = λ q. (name' : Text) × Memᴰ name' ns × Must name' q in
      Lists-wider May (λ q. Must name q ⊎ rest q) May _ s _ (λ q m. m) (λ q m. first_or_rest q m)
        (then_visit-Lists May (Must name) rest s (visit_one name s) (each visit_one ns)
          (h name (here refl) s S)
          (each-Lists May Must visit_one ns (λ name' m. h name' (there m))))
    where
      first_or_rest :
          (q : Text)
          → ((name' : Text) × Memᴰ name' (name ∷ ns) × Must name' q)
          → Must name q ⊎ ((name' : Text) × Memᴰ name' ns × Must name' q)
      first_or_rest q (name', here same, must) = inl (subst (λ (n : Text). Must n q) same must)
      first_or_rest q (name', there m, must) = inr (name', m, must)

  -- One file.
  pub file_searched-Lists :
      (shown : Text) (lines : List Text) (r : Option (Option ℕ × Dfa)) (s : Search)
      → Searched e lines r
      → Lists
          (λ q. (q ≡ shown) × HasLine (MayMatch e) lines)
          (λ q. (q ≡ shown) × HasLine (MustMatch e) lines)
          s
          (file_searched shown r s)
  file_searched-Lists shown lines none s h = h
  file_searched-Lists shown lines (some (none, d)) s (none_in, S) =
      (S, λ q m. inl m, λ q m. elim m [ inl k ↦ k | inr (same, l) ↦ absurd (none_in l) ])
  file_searched-Lists shown lines (some (some k, d)) s (l, S) =
      elim (Bool-cases (ltb (length s.matched_files) limit_n_file)) [
        | inl t ↦ rw t (
          S,
          λ q m. elim (Mem-append q s.matched_files (shown ∷ []) m) [
            | inl before ↦ inl before
            | inr (here same) ↦ inr (same, l)
            | inr (there m') ↦ elim m' [ ]
          ],
          λ q m. elim m [
            | inl before ↦ append_left (shown ∷ []) before
            | inr (same, l') ↦ append_right s.matched_files (here same)
          ],
        )
        | inr f ↦ rw f (ground arith, λ q m. inl m)
      ]
