-- ===== src/Transfer/Upload.antt =====
-- The job of src/common/commands/put.cpp, and what the files have before and after it.
use gazon.Base.{
  ℕ, ◌+◌, ◌≤◌, ◌≡◌, ◌≢◌, ◌↔◌, ◌⊎◌, inl, inr, refl, sym, ap, subst, ◌∙◌, true, Bool-cases, List, [],
  All, Option, some, Text, codes, length, take, leb, ◌==◌, eq_iff, text_Eq, arith,
}
use gazon.Base.Maps.{find, insert, erase, find-insert, find-erase}
use gazon.Errors.{Result, ok, throw}
use gazon.Numbers.{ℤ, pos, int_max}
use gazon.FilePath.{Printf}
use gazon.Command.{CommandArg, get_path}
use gazon.Filesystem.{Filesystem, TemporaryFile, commit, commit_file, to_string}
use gazon.Session.Run.{Session, Host, Exec, ◌>>=◌, lift, set_files, continue, write, new_line}
use gazon.Transfer.{
  Peer, Disk, Job, enforce, get_int, receive, create_upload, announce_put, renamed, committed,
  store_upload, put_received, put_announced, put_created, put_job,
}
use gazon.Transfer.Receive.{FitsBuffer, joined, receive_lem}

-- The code gives `v`, or throws.
abbrev Yields : {A : Type 0} → A → Result A × Session → Type 0
Yields v (ok a, s) = a ≡ v
Yields v (throw e, s) = Unit

then-Yields :
    {A B : Type 0} (v : B) (m : Exec A) (k : A → Exec B)
    → ((a : A) (s : Session) → Yields v (k a s))
    → (s : Session) → Yields v ((m >>= k) s)
then-Yields {A = A} v m k h s = go (m s).0 (m s).1
  where
    go : (r : Result A) (s' : Session) → Yields v (continue r k s')
    go (ok a) s' = h a s'
    go (throw e) s' = tt

announce_put-Yields :
    (h : Host) (p : Peer) (args : List CommandArg) (n : ℤ) (s : Session)
    → get_int args ≡ ok n
    → Yields n (announce_put h p args s)
unfolding announce_put
announce_put-Yields h p args n s e = rw e (
    then-Yields n (write h (codes "put port: ")) _
      (λ _. then-Yields n (write h (to_string p.port)) _ (λ _.
        then-Yields n (write h (codes " path: ")) _ (λ _.
          then-Yields n (lift (get_path args)) _ (λ path.
            then-Yields n (write h path.string) _ (λ _.
              then-Yields n (write h new_line) _
                (λ _. then-Yields n (enforce p.accept_error) _ (λ _ s'. refl)))))))
      s)

module _ (p : Peer) (file : TemporaryFile) (n : ℕ) (disk : Disk) where
  abbrev sent : Text
  sent = joined p.chunks

  -- The file is as it was, or it is the target and has the first `n` bytes that were sent, of which
  -- there were as many.
  abbrev WholeOrSame : Text → Disk → Type 0
  WholeOrSame q disk' =
      (find q disk' ≡ find q disk)
      ⊎ ((q ≡ file.real_path.string) × (n ≤ length sent) × (find q disk' ≡ some (take n sent)))

  abbrev Atomic : Option Job → Type 0
  Atomic o =
      (job : Job) × (o ≡ some job) × ((q : Text) → q ≢ file.temp_path.string → WholeOrSame q job.1)

  -- what the temporary file holds is not in question
  find-temp :
      (q out : Text) (d : Disk)
      → q ≢ file.temp_path.string
      → find q (insert file.temp_path.string out d) ≡ find q d
  find-temp q out d h =
      find-insert file.temp_path.string q out d ∙ ground (arith, eq_iff file.temp_path.string q)

  find-renamed :
      (q out : Text) (d : Disk)
      → q ≢ file.temp_path.string
      → (find q (renamed file out d) ≡ find q d)
        ⊎ ((q ≡ file.real_path.string) × (find q (renamed file out d) ≡ some out))
  find-renamed q out d h = elim (Bool-cases (file.real_path.string == q)) [
    | inl t ↦ inr (
      sym ((eq_iff file.real_path.string q).0 t),
      find-insert file.real_path.string q out (erase file.temp_path.string d) ∙ rw t refl,
    )
    | inr f ↦ inl (
        find-insert file.real_path.string q out (erase file.temp_path.string d)
        ∙ rw f
            (find-erase file.temp_path.string q d ∙ ground (arith, eq_iff file.temp_path.string q)))
  ]

  module _ (h : Host) (s : Session) (total : ℕ) (q : Text) (apart : q ≢ file.temp_path.string) where
    -- the disk behind the loop, and the temporary file as it was created
    abbrev opened : Disk
    opened = insert file.temp_path.string [] disk

    abbrev filled : Disk
    filled = insert file.temp_path.string (take n sent) opened

    find-filled : find q filled ≡ find q disk
    find-filled = find-temp q (take n sent) opened apart ∙ find-temp q [] disk apart

    renamed-WholeOrSame : n ≤ length sent → WholeOrSame q (renamed file (take n sent) filled)
    renamed-WholeOrSame le = elim (find-renamed q (take n sent) filled apart) [
      | inl e ↦ inl (e ∙ find-filled)
      | inr (e, k) ↦ inr (e, le, k)
    ]

    committed-WholeOrSame :
        (r : Result Filesystem)
        → n ≤ length sent
        → WholeOrSame q (committed h p file (take n sent) r filled s).1
    committed-WholeOrSame (ok fs) le = renamed-WholeOrSame le
    committed-WholeOrSame (throw e) le = go (commit_file h.os file)
      where
        go :
            (c : Result (Unit {0}))
            → WholeOrSame q
                (elim c [ ok u ↦ renamed file (take n sent) filled | throw e' ↦ filled ])
        go (ok u) = renamed-WholeOrSame le
        go (throw e') = inl find-filled

    store-WholeOrSame :
        ((leb n total ≡ true) ↔ (n ≤ length sent))
        → WholeOrSame q (store_upload h p file (pos n) (take n sent) total filled s).1
    unfolding store_upload
    store-WholeOrSame full = elim (Bool-cases (leb n total)) [
      | inl t ↦ rw t (committed-WholeOrSame (commit h.os s.world.files file) (full.0 t))
      | inr f ↦ rw f (inl find-filled)
    ]

  announced-Atomic :
      (h : Host) (o : Result ℤ × Session)
      → n + 4096 ≤ int_max
      → All FitsBuffer p.chunks
      → Yields (pos n) o
      → Atomic (put_announced h p file (insert file.temp_path.string [] disk) o)
  announced-Atomic h (throw e, s) bound fits y =
      (_, refl, λ q apart. inl (find-temp q [] disk apart))
  announced-Atomic h (ok size, s) bound fits y =
      let (total, e, full) = receive_lem n p.chunks bound fits in
      subst
        (λ (z : ℤ). Atomic (
          put_received h p file z (receive p.chunks z 0 []) (insert file.temp_path.string [] disk)
            s))
        (sym y)
        (subst
          (λ (o : Option (Text × ℕ)).
            Atomic (put_received h p file (pos n) o (insert file.temp_path.string [] disk) s))
          (sym e) (_, refl, λ q apart. store-WholeOrSame h s total q apart full))

-- Once the job of `put` has made its temporary file, if the size is not negative and at least a
-- buffer below the largest `int`, and each read fits the buffer: the job comes to its end without
-- overflow, by returning or by an exception. Then, whatever was thrown on the way, every file on the
-- disk but the temporary one is as it was, or it is the target, at least as many bytes arrived as the
-- size says, and it has the first of them, as many as the size says.
pub put_job_atomic :
    ⦃f : Printf⦄ (h : Host) (p : Peer) (args : List CommandArg) (n : ℕ) (disk : Disk)
    (s s1 : Session) (file : TemporaryFile)
    → create_upload args s ≡ (ok file, s1)
    → get_int args ≡ ok (pos n)
    → n + 4096 ≤ int_max
    → All FitsBuffer p.chunks
    → (job : Job) × (put_job h p args disk s ≡ some job)
      × ((q : Text)
          → q ≢ file.temp_path.string
          → (find q job.1 ≡ find q disk)
            ⊎ ((q ≡ file.real_path.string)
                × (n ≤ length (joined p.chunks))
                × (find q job.1 ≡ some (take n (joined p.chunks)))))
unfolding put_job
put_job_atomic h p args n disk s s1 file made size bound fits =
    let (job, e, whole) =
      announced-Atomic p file n disk h (announce_put h p args s1) bound fits
        (announce_put-Yields h p args (pos n) s1 size) in
    (job, ap (put_created h p args disk) made ∙ e, whole)

-- If the job of `put` has made its temporary file, the client was told the port and has connected,
-- the size is not negative and at least a buffer below the largest `int`, each read fits the buffer,
-- at least as many bytes arrive as the size says, and `commit` returns: then the job returns, the
-- target has the first bytes that were sent, as many as the size says, and the virtual file system
-- is the one that `commit` made.
pub put_job_stores :
    ⦃f : Printf⦄ (h : Host) (p : Peer) (args : List CommandArg) (n : ℕ) (disk : Disk)
    (s s1 s2 : Session) (file : TemporaryFile) (fs : Filesystem)
    → create_upload args s ≡ (ok file, s1)
    → announce_put h p args s1 ≡ (ok (pos n), s2)
    → n + 4096 ≤ int_max
    → All FitsBuffer p.chunks
    → n ≤ length (joined p.chunks)
    → commit h.os s2.world.files file ≡ ok fs
    → (disk' : Disk) × (put_job h p args disk s ≡ some (set_files fs s2, disk'))
      × (find file.real_path.string disk' ≡ some (take n (joined p.chunks)))
unfolding put_job store_upload
put_job_stores h p args n disk s s1 s2 file fs made told bound fits le done =
    let (total, e, full) = receive_lem n p.chunks bound fits in
    let opened : Disk = insert file.temp_path.string [] disk in
    let filled : Disk = insert file.temp_path.string (take n (joined p.chunks)) opened in
    (
      renamed file (take n (joined p.chunks)) filled,
      ap (put_created h p args disk) made
          ∙ ap (put_announced h p file opened) told
          ∙ ap (λ (o : Option (Text × ℕ)). put_received h p file (pos n) o opened s2) e
          ∙ rw (full.1 le) (rw done refl),
      find-insert file.real_path.string file.real_path.string (take n (joined p.chunks))
            (erase file.temp_path.string filled)
          ∙ rw ((eq_iff file.real_path.string file.real_path.string).1 refl) refl,
    )
