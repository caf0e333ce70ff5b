-- ===== src/Transfer/Download.antt =====
-- The loop of src/common/commands/get.cpp where each write takes what it is given.
use gazon.Base.{
  ℕ, zero, suc, ◌+◌, ◌≤◌, ◌<◌, ◌≡◌, refl, sym, ap, ◌∙◌, List, [], ◌∷◌, ◌++◌, append_assoc,
  append-nil, Option, some, Text, length, take, drop, text_Eq, arith,
}
use gazon.Base.Maps.{find}
use gazon.Errors.{Result, ok}
use gazon.FilePath.{FilePath, Printf}
use gazon.Command.{CommandArg}
use gazon.Session.Run.{Session, Host}
use gazon.Transfer.{Peer, Disk}
use gazon.Transfer.Get.{
  Sent, sent_chunk, send, file_size, contents_or_empty, open_download, announce_get, get_sent,
  get_announced, get_opened, get_job,
}

take-drop : (n : ℕ) (xs : Text) → take n xs ++ drop n xs ≡ xs
take-drop zero xs = refl
take-drop (suc n) [] = refl
take-drop (suc n) (x ∷ xs) = ap (λ (t : Text). x ∷ t) (take-drop n xs)

take_whole : (xs : Text) → take (length xs) xs ≡ xs
take_whole [] = refl
take_whole (x ∷ xs) = ap (λ (t : Text). x ∷ t) (take_whole xs)

drop_shorter : (n : ℕ) (x : ℕ) (xs : Text) → length (drop (suc n) (x ∷ xs)) ≤ length xs
drop_shorter zero x xs = omega arith
drop_shorter (suc n) x [] = omega arith
drop_shorter (suc n) x (y ∷ xs) = omega (arith, drop_shorter n y xs)

-- The loop ended, and what the client got so far is followed by `contents`.
abbrev Sends : Text → Text → Option Sent → Type 0
Sends got contents o = o ≡ some (ok tt, got ++ contents)

-- each write takes all that it is given
abbrev pub TakesAll : Peer → Type 0
TakesAll p = (i n : ℕ) → p.sends i n ≡ ok n

send-Sends :
    (p : Peer)
    → TakesAll p
    → (fuel i : ℕ) (contents got : Text) → length contents < fuel
    → Sends got contents (send fuel p i contents got)
unfolding send
send-Sends p all zero i contents got h = absurd (omega arith)
send-Sends p all (suc fuel) i [] got h = ap (λ (t : Text). some (ok tt, t)) (sym (append-nil got))
send-Sends p all (suc fuel) i (c ∷ contents) got h =
    let chunk : Text = take 4096 (c ∷ contents) in
    let rest : Text = drop 4096 (c ∷ contents) in
    ap (λ (r : Result ℕ). sent_chunk r chunk (send fuel p (i + 1) rest) got) (all i (length chunk))
    ∙ ap (λ (t : Text). send fuel p (i + 1) rest (got ++ t)) (take_whole chunk)
    ∙ send-Sends p all fuel (i + 1) rest (got ++ chunk)
        (omega (arith, drop_shorter 4095 c contents))
    ∙ ap (λ (t : Text). some (ok tt, t))
        (append_assoc got chunk rest ∙ ap (λ (t : Text). got ++ t) (take-drop 4096 (c ∷ contents)))

-- Once the job of `get` has found the file, told the client the port and been connected to, if each
-- write takes all that it is given, the job returns and the client gets the file's contents.
pub get_job_sends :
    ⦃f : Printf⦄ (h : Host) (p : Peer) (args : List CommandArg) (disk : Disk) (s s1 s2 : Session)
    (path : FilePath) (contents : Text)
    → open_download args s ≡ (ok path, s1)
    → find path.string disk ≡ some contents
    → announce_get h p args (file_size (some contents)) s1 ≡ (ok tt, s2)
    → TakesAll p
    → get_job h p args disk s ≡ some ((ok tt, s2), contents)
unfolding get_job
get_job_sends h p args disk s s1 s2 path contents found stored told all =
    ap (get_opened h p args disk) found
    ∙ ap
        (λ (o : Option Text).
          get_announced h p (contents_or_empty o) (announce_get h p args (file_size o) s1))
        stored
    ∙ ap (get_announced h p contents) told
    ∙ ap (get_sent h p s2) (send-Sends p all (length contents + 1) 0 contents [] (omega arith))
