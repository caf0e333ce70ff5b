-- ===== src/Regex/Nfa/Language.antt =====
-- The paths through the automaton of an expression, against its language.
use gazon.Base.{
  ℕ, zero, suc, ◌≤◌, ◌<◌, ◌≡◌, ◌≢◌, ◌⊎◌, inl, inr, refl, sym, ap, subst, ◌∙◌, [], ◌∷◌, ◌++◌,
  append_assoc, Text, arith,
}
use gazon.Regex.Nfa.{Memory, split_node, match_node}
use gazon.Regex.Nfa.Graph.{
  Regex, chr, any, cat, alt, opt, star, plus, Repeated, done, more, Denotes, IsPlain, Reads,
  AcceptsIn, Accepts, Splits, Automaton,
}

module _ (m : Memory) where
  -- A prefix in `P` is read from `p` on, and the rest by a path of at most `n` states from `t` on.
  abbrev pub ReadsTo : (Text → Type 0) → ℕ → ℕ → Text → Type 0
  ReadsTo P n t s =
      (u : Text) × (v : Text) × (k : ℕ) × (s ≡ u ++ v) × (k ≤ n) × P u × AcceptsIn m k t v

  abbrev pub Sound : (Text → Type 0) → ℕ → ℕ → Type 0
  Sound P p t = (n : ℕ) (s : Text) → AcceptsIn m n p s → ReadsTo P n t s

  abbrev pub Complete : (Text → Type 0) → ℕ → ℕ → Type 0
  Complete P p t = (u v : Text) → P u → Accepts m t v → Accepts m p (u ++ v)

  -- What a split accepts, one of its successors accepts by a shorter path.
  pub split_cases :
      (p l r n : ℕ) (s : Text)
      → Splits m p l r
      → AcceptsIn m n p s
      → (i : ℕ) × (n ≡ suc i) × (AcceptsIn m i l s ⊎ AcceptsIn m i r s)
  split_cases p l r zero s sp h = absurd h
  split_cases p l r (suc i) s (pos, k, el, er) (pos', inl (k', e)) = absurd (omega (arith, k, k'))
  split_cases p l r (suc i) s (pos, k, el, er) (pos', inr (inl (k', inl h))) =
      (i, refl, inl (subst (λ q. AcceptsIn m i q s) el h))
  split_cases p l r (suc i) s (pos, k, el, er) (pos', inr (inl (k', inr h))) =
      (i, refl, inr (subst (λ q. AcceptsIn m i q s) er h))
  split_cases p l r (suc i) s (pos, k, el, er) (pos', inr (inr (x, rest, e, (ns, rd), h))) =
      absurd (ns k)

  pub through_left : (p l r : ℕ) (s : Text) → Splits m p l r → Accepts m l s → Accepts m p s
  through_left p l r s (pos, k, el, er) (n, h) =
      (suc n, (pos, inr (inl (k, inl (subst (λ q. AcceptsIn m n q s) (sym el) h)))))

  pub through_right : (p l r : ℕ) (s : Text) → Splits m p l r → Accepts m r s → Accepts m p s
  through_right p l r s (pos, k, el, er) (n, h) =
      (suc n, (pos, inr (inl (k, inr (subst (λ q. AcceptsIn m n q s) (sym er) h)))))

  -- a text of `P`, and texts of `P` behind it
  again :
      (P : Text → Type 0) (t n k : ℕ) (s u v : Text)
      → s ≡ u ++ v
      → k ≤ n
      → P u
      → ReadsTo (Repeated P) k t v
      → ReadsTo (Repeated P) n t s
  again P t n k s u v e hk hu (u', v', k', e', hk', hr, ht) = (
    u ++ u',
    v',
    k',
    e ∙ ap (λ (x : Text). u ++ x) e' ∙ sym (append_assoc u u' v'),
    omega arith,
    more u u' refl hu hr,
    ht,
  )

  -- the loop through a split `z` that enters the body at `l` and leaves to `t`
  Sound-loop :
      (P : Text → Type 0) (z l t : ℕ)
      → Splits m z l t
      → Sound P l z
      → (b n : ℕ) (s : Text) → n ≤ b
      → AcceptsIn m n z s
      → ReadsTo (Repeated P) n t s
  Sound-loop P z l t sp body zero n s h acc =
      let (i, e, c) = split_cases z l t n s sp acc in absurd (omega arith)
  Sound-loop P z l t sp body (suc b) n s h acc =
      go (Sound-loop P z l t sp body b) (split_cases z l t n s sp acc)
    where
      entered :
          ((k : ℕ) (v : Text) → k ≤ b → AcceptsIn m k z v → ReadsTo (Repeated P) k t v)
          → (i : ℕ) → n ≡ suc i
          → ReadsTo P i z s
          → ReadsTo (Repeated P) n t s
      entered rest i e (u, v, k, es, hk, hu, hz) =
          again P t n k s u v es (omega arith) hu (rest k v (omega arith) hz)

      go :
          ((k : ℕ) (v : Text) → k ≤ b → AcceptsIn m k z v → ReadsTo (Repeated P) k t v)
          → (i : ℕ) × (n ≡ suc i) × (AcceptsIn m i l s ⊎ AcceptsIn m i t s)
          → ReadsTo (Repeated P) n t s
      go rest (i, e, inl a) = entered rest i e (body i s a)
      go rest (i, e, inr a) = ([], s, i, refl, omega arith, done, a)

  Complete-loop :
      (P : Text → Type 0) (z l t : ℕ)
      → Splits m z l t
      → Complete P l z
      → (u v : Text) → Repeated P u
      → Accepts m t v
      → Accepts m z (u ++ v)
  Complete-loop P z l t sp body _ v done h = through_right z l t v sp h
  Complete-loop P z l t sp body s v (more u u' e hu hr) h =
      subst (λ (x : Text). Accepts m z x) (sym (ap (λ (x : Text). x ++ v) e ∙ append_assoc u u' v))
        (through_left z l t (u ++ (u' ++ v)) sp
          (body u (u' ++ v) hu (Complete-loop P z l t sp body u' v hr h)))

  -- a state that reads a byte of `P` and leads to `t`
  Sound-leaf :
      (P : Text → Type 0) (p t : ℕ)
      → (m p).left ≡ t
      → (m p).c ≢ match_node
      → (m p).c ≢ split_node
      → ((x : ℕ) → Reads m p x → P (x ∷ []))
      → Sound P p t
  Sound-leaf P p t e nm ns h zero s a = absurd a
  Sound-leaf P p t e nm ns h (suc n) s (pos, inl (k, _)) = absurd (nm k)
  Sound-leaf P p t e nm ns h (suc n) s (pos, inr (inl (k, _))) = absurd (ns k)
  Sound-leaf P p t e nm ns h (suc n) s (pos, inr (inr (x, r, es, rd, a))) =
      (x ∷ [], r, n, es, omega arith, h x rd, subst (λ q. AcceptsIn m n q r) e a)

  Sound-cat :
      (P Q : Text → Type 0) (p q t : ℕ)
      → Sound P p q
      → Sound Q q t
      → Sound (λ s. (u : Text) × (v : Text) × (s ≡ u ++ v) × P u × Q v) p t
  Sound-cat P Q p q t hp hq n s a = first (hp n s a)
    where
      second :
          (u v : Text) (k : ℕ)
          → s ≡ u ++ v
          → k ≤ n
          → P u
          → ReadsTo Q k t v
          → ReadsTo (λ s. (u : Text) × (v : Text) × (s ≡ u ++ v) × P u × Q v) n t s
      second u v k e hk hu (u', v', k', e', hk', hu', ht) = (
        u ++ u',
        v',
        k',
        e ∙ ap (λ (x : Text). u ++ x) e' ∙ sym (append_assoc u u' v'),
        omega arith,
        (u, u', refl, hu, hu'),
        ht,
      )

      first :
          ReadsTo P n q s → ReadsTo (λ s. (u : Text) × (v : Text) × (s ≡ u ++ v) × P u × Q v) n t s
      first (u, v, k, e, hk, hu, hz) = second u v k e hk hu (hq k v hz)

  ReadsTo-weaken :
      (P Q : Text → Type 0) (i n t : ℕ) (s : Text)
      → i ≤ n
      → ((u : Text) → P u → Q u)
      → ReadsTo P i t s
      → ReadsTo Q n t s
  ReadsTo-weaken P Q i n t s h f (u, v, k, e, hk, hu, ht) = (u, v, k, e, omega arith, f u hu, ht)

  Sound-split :
      (P Q R : Text → Type 0) (p l r t : ℕ)
      → Splits m p l r
      → Sound P l t
      → Sound Q r t
      → ((u : Text) → P u → R u)
      → ((u : Text) → Q u → R u)
      → Sound R p t
  Sound-split P Q R p l r t sp hl hr f g n s a = go (split_cases p l r n s sp a)
    where
      go : (i : ℕ) × (n ≡ suc i) × (AcceptsIn m i l s ⊎ AcceptsIn m i r s) → ReadsTo R n t s
      go (i, e, inl b) = ReadsTo-weaken P R i n t s (omega arith) f (hl i s b)
      go (i, e, inr b) = ReadsTo-weaken Q R i n t s (omega arith) g (hr i s b)

  Sound-nothing : (t : ℕ) → Sound (λ s. s ≡ []) t t
  Sound-nothing t n s a = ([], s, n, refl, omega arith, refl, a)

  pub Automaton-Sound :
      (e : Regex) (p t : ℕ) → IsPlain e → Automaton m p e t → Sound (Denotes e) p t
  Automaton-Sound (chr c) p t pl (pos, k, l) =
      Sound-leaf (Denotes (chr c)) p t l (ground arith) (ground arith) (λ x rd. ground arith)
  Automaton-Sound any p t pl (pos, k, l) =
      Sound-leaf (Denotes any) p t l (omega arith) (omega arith) (λ x rd. (x, refl))
  Automaton-Sound (cat a b) p t pl (q, ha, hb) =
      Sound-cat (Denotes a) (Denotes b) p q t (Automaton-Sound a p q pl.0 ha)
        (Automaton-Sound b q t pl.1 hb)
  Automaton-Sound (alt a b) p t pl (q, q', sp, ha, hb) =
      Sound-split (Denotes a) (Denotes b) (Denotes (alt a b)) p q q' t sp
        (Automaton-Sound a q t pl.0 ha) (Automaton-Sound b q' t pl.1 hb) (λ u. inl) (λ u. inr)
  Automaton-Sound (opt a) p t pl (q, sp, ha) =
      Sound-split (Denotes a) (λ s. s ≡ []) (Denotes (opt a)) p q t t sp
        (Automaton-Sound a q t pl ha) (Sound-nothing t) (λ u. inr) (λ u. inl)
  Automaton-Sound (star a) p t pl (q, sp, ha) =
      λ n s h. Sound-loop (Denotes a) p q t sp (Automaton-Sound a q p pl ha) n n s (omega arith) h
  Automaton-Sound (plus a) p t pl (q, sp, ha) =
      Sound-cat (Denotes a) (Repeated (Denotes a)) p q t (Automaton-Sound a p q pl ha) (λ n s h.
        Sound-loop (Denotes a) q p t sp (Automaton-Sound a p q pl ha) n n s (omega arith) h)

  Complete-leaf :
      (p t x : ℕ) (v : Text)
      → 0 < p
      → (m p).left ≡ t
      → Reads m p x
      → Accepts m t v
      → Accepts m p (x ∷ v)
  Complete-leaf p t x v pos e rd (n, h) =
      (suc n, (pos, inr (inr (x, v, refl, rd, subst (λ q. AcceptsIn m n q v) (sym e) h))))

  pub Automaton-Complete :
      (e : Regex) (p t : ℕ) → IsPlain e → Automaton m p e t → Complete (Denotes e) p t
  Automaton-Complete (chr c) p t pl (pos, k, l) u v d h =
      rw d (Complete-leaf p t c v pos l (ground arith, inr k) h)
  Automaton-Complete any p t pl (pos, k, l) u v (x, e) h =
      rw e (Complete-leaf p t x v pos l (omega arith, inl k) h)
  Automaton-Complete (cat a b) p t pl (q, ha, hb) s w (u, v, e, hu, hv) h = rw e (
      rw (append_assoc u v w) (
        Automaton-Complete a p q pl.0 ha u (v ++ w) hu (Automaton-Complete b q t pl.1 hb v w hv h)))
  Automaton-Complete (alt a b) p t pl (q, q', sp, ha, hb) u v (inl d) h =
      through_left p q q' (u ++ v) sp (Automaton-Complete a q t pl.0 ha u v d h)
  Automaton-Complete (alt a b) p t pl (q, q', sp, ha, hb) u v (inr d) h =
      through_right p q q' (u ++ v) sp (Automaton-Complete b q' t pl.1 hb u v d h)
  Automaton-Complete (opt a) p t pl (q, sp, ha) u v (inl d) h = rw d (through_right p q t v sp h)
  Automaton-Complete (opt a) p t pl (q, sp, ha) u v (inr d) h =
      through_left p q t (u ++ v) sp (Automaton-Complete a q t pl ha u v d h)
  Automaton-Complete (star a) p t pl (q, sp, ha) u v d h =
      Complete-loop (Denotes a) p q t sp (Automaton-Complete a q p pl ha) u v d h
  Automaton-Complete (plus a) p t pl (q, sp, ha) s w (u, v, e, hu, hv) h = rw e (
      rw (append_assoc u v w) (
        Automaton-Complete a p q pl ha u (v ++ w) hu
          (Complete-loop (Denotes a) q p t sp (Automaton-Complete a p q pl ha) v w hv h)))
