-- ===== src/Sockets/Blocking.antt =====
-- The blocking read of a line in src/common/socket.cpp, and the reads that it waits for.
use gazon.Base.{
  ◌≡◌, ◌≢◌, refl, sym, ap, subst, ◌∙◌, Bool, true, List, [], ◌∷◌, ◌++◌, append_assoc, append-nil,
  All, Option, none, some, Text, map,
}
use gazon.Errors.{ok}
use gazon.Scan.Split.{Lacks}
use gazon.Transfer.Receive.{joined}
use gazon.Sockets.{
  Socket, bytes, Reading, returns, split_line, line_taken, line_or, get_line, read_more, buffer_if,
  buffer, wait_line, read_if, read_line,
}
use gazon.Sockets.Framing.{Splits, split_line-Splits}
use gazon.Sockets.Unique.{no_break, line_unique}

module _ (s : Socket) (line rest : Text) where
  -- The line is returned, and what follows it is in the buffer or still to be read.
  abbrev Returns : Reading → Type 0
  Returns r =
      (received : Text) × (chunks : List Text) × (r
        ≡ returns (ok (some line)) (record s { received = received }) (map bytes chunks))
      × (received ++ joined chunks ≡ rest)

  split-Returns :
      (t : Text) (chunks : List Text) (o : Option (Text × Text)) (other : Reading)
      → Lacks 10 line
      → t ++ joined chunks ≡ line ++ (10 ∷ rest)
      → Splits t o
      → (Lacks 10 t → Returns other)
      → Returns (line_or (line_taken o (record s { received = t })) (map bytes chunks) other)
  split-Returns t chunks none other l e h k = k h
  split-Returns t chunks (some (first, behind)) other l e (parts, ends, shorter) k =
      let (same, follows) = line_unique first line (behind ++ joined chunks) rest ends l (
        sym (append_assoc first (10 ∷ behind) (joined chunks))
        ∙ ap (λ (z : Text). z ++ joined chunks) (sym parts)
        ∙ e) in
      (
        behind,
        chunks,
        ap (λ (z : Text). returns (ok (some z)) (record s { received = behind }) (map bytes chunks))
            same,
        follows,
      )

  wait_line-Returns :
      (chunks : List Text) (t : Text)
      → s.is_open ≡ true
      → Lacks 10 line
      → All (λ chunk. chunk ≢ []) chunks
      → t ++ joined chunks ≡ line ++ (10 ∷ rest)
      → Returns (wait_line (map bytes chunks) (record s { received = t }))
  unfolding wait_line get_line buffer
  wait_line-Returns [] t is_open l ne e =
      split-Returns t [] (split_line t) _ l e (split_line-Splits t)
        (λ lacks. absurd (no_break line rest (subst (Lacks 10) (sym (append-nil t) ∙ e) lacks)))
  wait_line-Returns ([] ∷ chunks) t is_open l (ne, nes) e = absurd (ne refl)
  wait_line-Returns ((c ∷ chunk) ∷ chunks) t is_open l (ne, nes) e =
      let (received, left, reads, follows) =
        wait_line-Returns chunks (t ++ (c ∷ chunk)) is_open l nes
          (append_assoc t (c ∷ chunk) (joined chunks) ∙ e) in
      split-Returns t ((c ∷ chunk) ∷ chunks) (split_line t) _ l e (split_line-Splits t) (λ lacks. (
        received,
        left,
        ap
              (λ (b : Bool).
                read_more (buffer_if b (bytes (c ∷ chunk)) (record s { received = t }))
                  (map bytes chunks) (wait_line (map bytes chunks)))
              is_open
            ∙ reads,
        follows,
      ))

-- On an open connection, if the buffer and what is still to come, in reads that are not empty, hold a
-- line break, the blocking read returns the text in front of the first, and what follows it is in the
-- buffer or still to come.
pub read_line_returns :
    (s : Socket) (chunks : List Text) (line rest : Text)
    → s.is_open ≡ true
    → All (λ chunk. chunk ≢ []) chunks
    → Lacks 10 line
    → s.received ++ joined chunks ≡ line ++ (10 ∷ rest)
    → (received : Text) × (left : List Text) × (read_line (map bytes chunks) s
        ≡ returns (ok (some line)) (record s { received = received }) (map bytes left))
      × (received ++ joined left ≡ rest)
unfolding read_line
read_line_returns s chunks line rest is_open ne l e =
    let (received, left, reads, follows) =
      wait_line-Returns s line rest chunks s.received is_open l ne e in
    (received, left, ap (λ (b : Bool). read_if b (map bytes chunks) s) is_open ∙ reads, follows)
