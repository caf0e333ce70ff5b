-- ===== src/Transfer/Receive.antt =====
-- The loop of src/common/commands/put.cpp, against the bytes that the client sent.
use gazon.Base.{
  ℕ, zero, suc, ◌+◌, ◌-◌, ◌≤◌, ◌<◌, ◌≡◌, ◌↔◌, refl, sym, ap, subst, ◌∙◌, true, false, Bool-cases,
  inl, inr, List, [], ◌∷◌, ◌++◌, append_assoc, append-nil, All, Option, some, Text, length,
  length-append, take, leb, ltb, arith,
}
use gazon.Numbers.{pos, int_max}
use gazon.Transfer.{receive}

abbrev pub joined : List Text → Text
joined [] = []
joined (chunk ∷ chunks) = chunk ++ joined chunks

-- what one `read` into the buffer of 4096 bytes may get
abbrev pub FitsBuffer : Text → Type 0
FitsBuffer chunk = length chunk ≤ 4096

take_all : (n : ℕ) (xs : Text) → length xs ≤ n → take n xs ≡ xs
take_all zero [] h = refl
take_all zero (x ∷ xs) h = absurd (omega arith)
take_all (suc n) [] h = refl
take_all (suc n) (x ∷ xs) h = ap (λ (t : Text). x ∷ t) (take_all n xs (omega arith))

take-append_le : (n : ℕ) (xs ys : Text) → n ≤ length xs → take n (xs ++ ys) ≡ take n xs
take-append_le zero xs ys h = refl
take-append_le (suc n) [] ys h = absurd (omega arith)
take-append_le (suc n) (x ∷ xs) ys h =
    ap (λ (t : Text). x ∷ t) (take-append_le n xs ys (omega arith))

take-append_ge :
    (n : ℕ) (xs ys : Text) → length xs ≤ n → take n (xs ++ ys) ≡ xs ++ take (n - length xs) ys
take-append_ge n [] ys h = ap (λ (k : ℕ). take k ys) (omega arith)
take-append_ge zero (x ∷ xs) ys h = absurd (omega arith)
take-append_ge (suc n) (x ∷ xs) ys h =
    ap (λ (t : Text). x ∷ t)
      (take-append_ge n xs ys (omega arith) ∙ ap (λ (k : ℕ). xs ++ take k ys) (omega arith))

-- The loop returned what was seen of the data, and counted to the size exactly if it was seen.
abbrev pub Received : ℕ → Text → Option (Text × ℕ) → Type 0
Received n sent o =
    (total : ℕ) × (o ≡ some (take n sent, total)) × ((leb n total ≡ true) ↔ (n ≤ length sent))

stopped :
    (n : ℕ) (seen rest : Text)
    → n ≤ length seen
    → Received n (seen ++ rest) (some (take n seen, length seen))
stopped n seen rest h = (
  length seen,
  ap (λ (t : Text). some (t, length seen)) (sym (take-append_le n seen rest h)),
  (λ _. omega (arith, length-append {0} seen rest), λ _. ground arith),
)

Received-cong :
    (n : ℕ) (s t : Text) (o : Option (Text × ℕ)) → s ≡ t → Received n s o → Received n t o
Received-cong n s t o e h = subst (λ (x : Text). Received n x o) e h

receive-Received :
    (n : ℕ)
    → n + 4096 ≤ int_max
    → (chunks : List Text) → All FitsBuffer chunks
    → (seen : Text)
    → Received n (seen ++ joined chunks) (receive chunks (pos n) (length seen) (take n seen))
unfolding receive
receive-Received n bound [] fits seen =
    Received-cong n seen (seen ++ []) (some (take n seen, length seen)) (sym (append-nil seen))
      (length seen, refl, ground arith)
receive-Received n bound (chunk ∷ chunks) (fit, fits) seen =
    elim (Bool-cases (ltb (length seen) n)) [
      | inr full ↦
          let h : n ≤ length seen = ground arith in
          rw full (stopped n seen (chunk ++ joined chunks) h)
      | inl more ↦
          let few : length seen < n = ground arith in
          let small : ltb int_max (length seen + length chunk) ≡ false = ground arith in
          rw more (
            rw small (
              Received-cong n ((seen ++ chunk) ++ joined chunks) (seen ++ (chunk ++ joined chunks))
                (receive chunks (pos n) (length seen + length chunk)
                  (take n seen ++ take (n - length seen) chunk))
                (append_assoc seen chunk (joined chunks))
                (subst
                  (λ (p : ℕ × Text).
                    Received n ((seen ++ chunk) ++ joined chunks) (receive chunks (pos n) p.0 p.1))
                  (λ i. (length-append seen chunk i, written few i))
                  (receive-Received n bound chunks fits (seen ++ chunk)))))
    ]
  where
    written : length seen < n → take n (seen ++ chunk) ≡ take n seen ++ take (n - length seen) chunk
    written few =
        take-append_ge n seen chunk (omega arith)
        ∙ ap (λ (t : Text). t ++ take (n - length seen) chunk) (sym (take_all n seen (omega arith)))

-- If each read fits the buffer and the size is at least a buffer below the largest `int`, the loop
-- ends without overflow and has written the first bytes that were sent, as many as the size says or
-- all if there are fewer, however they were cut into reads; and the count reaches the size exactly
-- if so many bytes were sent.
pub receive_lem :
    (n : ℕ) (chunks : List Text)
    → n + 4096 ≤ int_max
    → All FitsBuffer chunks
    → (total : ℕ) × (receive chunks (pos n) 0 [] ≡ some (take n (joined chunks), total))
      × ((leb n total ≡ true) ↔ (n ≤ length (joined chunks)))
receive_lem n chunks bound fits =
    subst (λ (t : Text). Received n (joined chunks) (receive chunks (pos n) 0 t)) (nothing n)
      (receive-Received n bound chunks fits [])
  where
    nothing : (n : ℕ) → take {A = ℕ} n [] ≡ []
    nothing zero = refl
    nothing (suc n) = refl
