-- ===== src/Sockets/Framing.antt =====
-- The packets that ConnectionPool::run of src/common/socket.cpp hands over, against the lines of
-- the stream.
use gazon.Base.{
  ℕ, zero, suc, ◌+◌, ◌<◌, ◌≡◌, ◌≢◌, refl, sym, ap, ◌∙◌, Bool, true, false, Bool-cases, inl, inr,
  nat_eq, nat_eq_iff, List, [], ◌∷◌, ◌++◌, append_assoc, append-nil, All, All-append, Option, none,
  some, Text, length, map, arith,
}
use gazon.Errors.{ok}
use gazon.Scan.Split.{Lacks}
use gazon.Transfer.Receive.{joined}
use gazon.Sockets.{
  Socket, bytes, Served, in_line, split_line, line_taken, add_packet, hand_over, drain, drained,
  buffer_if, after_buffer, buffer, serve_ready, then_serve, more_served, serve_reads,
}

-- Each packet with its line break.
abbrev pub terminated : List Text → Text
terminated [] = []
terminated (packet ∷ packets) = packet ++ (10 ∷ terminated packets)

-- What a split gives: nothing if there is no line break, or what is in front of the first and behind.
abbrev pub Splits : Text → Option (Text × Text) → Type 0
Splits t none = Lacks 10 t
Splits t (some (line, rest)) = (t ≡ line ++ (10 ∷ rest)) × Lacks 10 line × (length rest < length t)

in_line-Splits :
    (c : ℕ) (t : Text) (o : Option (Text × Text))
    → nat_eq c 10 ≡ false
    → Splits t o
    → Splits (c ∷ t) (in_line c o)
in_line-Splits c t none f h = (f, h)
in_line-Splits c t (some (line, rest)) f (e, l, lt) =
    (ap (λ (z : Text). c ∷ z) e, (f, l), omega (arith, lt))

pub split_line-Splits : (t : Text) → Splits t (split_line t)
unfolding split_line
split_line-Splits [] = tt
split_line-Splits (c ∷ t) = elim (Bool-cases (nat_eq c 10)) [
  | inl b ↦ rw b (ap (λ (k : ℕ). k ∷ t) ((nat_eq_iff c 10).0 b), tt, omega arith)
  | inr f ↦ rw f (in_line-Splits c t (split_line t) f (split_line-Splits t))
]

module _ (s : Socket) where
  -- The packets and the rest make up the text, and no line break is left.
  abbrev Frames : Text → Option (List Text × Socket) → Type 0
  Frames t o =
      (packets : List Text) × (rest : Text) × (o ≡ some (packets, record s { received = rest }))
      × (t ≡ terminated packets ++ rest)
      × All (Lacks 10) packets
      × Lacks 10 rest

  drain-Frames :
      (fuel : ℕ) (t : Text) → length t < fuel → Frames t (drain fuel (record s { received = t }))
  unfolding drain
  drain-Frames zero t lt = absurd (omega arith)
  drain-Frames (suc fuel) t lt = go (split_line t) (split_line-Splits t) (drain-Frames fuel)
    where
      go :
          (o : Option (Text × Text))
          → Splits t o
          → ((t' : Text) → length t' < fuel → Frames t' (drain fuel (record s { received = t' })))
          → Frames t (
              hand_over
                (line_taken o (record s { received = t }))
                (record s { received = t })
                (drain fuel))
      go none l next = ([], t, refl, refl, tt, l)
      go (some (line, rest)) (e, l, shorter) next =
          let (packets, tail, returns, parts, ls, ends) = next rest (omega (arith, lt, shorter)) in
          (
            line ∷ packets,
            tail,
            ap (add_packet line) returns,
            e
                ∙ ap (λ (z : Text). line ++ (10 ∷ z)) parts
                ∙ sym (append_assoc line (10 ∷ terminated packets) tail),
            (l, ls),
            ends,
          )

  abbrev Serves : Text → Option Served → Type 0
  Serves t o =
      (packets : List Text) × (rest : Text) × (o ≡ some (ok packets, record s { received = rest }))
      × (t ≡ terminated packets ++ rest)
      × All (Lacks 10) packets
      × Lacks 10 rest

  ready-Serves :
      (received : Text) (c : ℕ) (chunk : Text)
      → s.is_open ≡ true
      → Serves
          (received ++ (c ∷ chunk))
          (serve_ready (bytes (c ∷ chunk)) (record s { received = received }))
  unfolding serve_ready buffer
  ready-Serves received c chunk is_open =
      let t : Text = received ++ (c ∷ chunk) in
      let (packets, rest, returns, parts, ls, ends) = drain-Frames (length t + 1) t (omega arith) in
      (
        packets,
        rest,
        ap
              (λ (b : Bool).
                after_buffer (buffer_if b (bytes (c ∷ chunk)) (record s { received = received })))
              is_open
            ∙ ap drained returns,
        parts,
        ls,
        ends,
      )

terminated-append : (ps qs : List Text) → terminated (ps ++ qs) ≡ terminated ps ++ terminated qs
terminated-append [] qs = refl
terminated-append (p ∷ ps) qs =
    ap (λ (z : Text). p ++ (10 ∷ z)) (terminated-append ps qs)
    ∙ sym (append_assoc p (10 ∷ terminated ps) (terminated qs))

served_parts :
    (a b c d : Text) (ps qs : List Text) (rest : Text)
    → a ++ b ≡ terminated ps ++ c
    → c ++ d ≡ terminated qs ++ rest
    → a ++ (b ++ d) ≡ terminated (ps ++ qs) ++ rest
served_parts a b c d ps qs rest e k =
    sym (append_assoc a b d)
    ∙ ap (λ (z : Text). z ++ d) e
    ∙ append_assoc (terminated ps) c d
    ∙ ap (λ (z : Text). terminated ps ++ z) k
    ∙ sym (append_assoc (terminated ps) (terminated qs) rest)
    ∙ ap (λ (z : Text). z ++ rest) (sym (terminated-append ps qs))

-- However the bytes are cut into reads that are not empty, an open connection hands over packets
-- without a line break, which with a line break each, and what stays in the buffer, make up what was
-- in the buffer and the bytes; the buffer then has no line break, and the rest of the socket is as it
-- was.
pub packets_of_stream :
    (s : Socket) (chunks : List Text)
    → s.is_open ≡ true
    → Lacks 10 s.received
    → All (λ chunk. chunk ≢ []) chunks
    → (packets : List Text) × (rest : Text) × (serve_reads (map bytes chunks) s
        ≡ some (ok packets, record s { received = rest }))
      × (s.received ++ joined chunks ≡ terminated packets ++ rest)
      × All (Lacks 10) packets
      × Lacks 10 rest
unfolding serve_reads
packets_of_stream s [] is_open l ne = ([], s.received, refl, append-nil s.received, tt, l)
packets_of_stream s ([] ∷ chunks) is_open l (ne, nes) = absurd (ne refl)
packets_of_stream s ((c ∷ chunk) ∷ chunks) is_open l (ne, nes) =
    let (ps, rest, returns, parts, ls, ends) = ready-Serves s s.received c chunk is_open in
    let (qs, tail, returns', parts', ls', ends') =
      packets_of_stream (record s { received = rest }) chunks is_open ends nes in
    (
      ps ++ qs,
      tail,
      ap (λ (o : Option Served). then_serve o (serve_reads (map bytes chunks))) returns
          ∙ ap (more_served ps) returns',
      served_parts s.received (c ∷ chunk) rest (joined chunks) ps qs tail parts parts',
      All-append (Lacks 10) ps qs ls ls',
      ends',
    )
