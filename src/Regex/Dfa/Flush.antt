-- ===== src/Regex/Dfa/Flush.antt =====
-- `flushCache` of include/common/regexdfa.h: what is deleted, and what is kept.
use gazon.Base.{
  ℕ, ◌≡◌, ◌⊎◌, inl, inr, refl, sym, ap, ◌∙◌, Bool, true, false, Bool-cases, List, [], ◌∷◌, Memᴰ,
  here, there, Option, none, some, nat_eq, if◌then◌else◌, arith, ◌==◌, eq_iff, text_Eq, nat_eq_iff,
}
use gazon.Base.Maps.{find, insert}
use gazon.Regex.Dfa.{DfaState, Heap, Cache, delete, is_kept, delete_but, backup_of}

pub Mem-find : (k : List ℕ) (m : Cache) (id : ℕ) → find k m ≡ some id → Memᴰ (k, id) m
unfolding find
Mem-find k [] id e = absurd (cc)
Mem-find k ((j, v) ∷ m) id e = elim (Bool-cases (j == k)) [
  | inl t ↦ here (ground (arith, eq_iff j k))
  | inr f ↦ there (Mem-find k m id (ground arith))
]

pub Mem-insert :
    (k k' : List ℕ) (v id : ℕ) (m : Cache)
    → Memᴰ (k', id) (insert k v m)
    → ((◌≡◌ {A = List ℕ × ℕ} (k', id) (k, v)) ⊎ Memᴰ (k', id) m)
unfolding insert
Mem-insert k k' v id [] (here e) = inl e
Mem-insert k k' v id [] (there h) = elim h [ ]
Mem-insert k k' v id ((j, w) ∷ m) h = elim (Bool-cases (j == k)) [
  | inl t ↦ front (rw t at h)
  | inr f ↦ behind (rw f at h) (Mem-insert k k' v id m)
]
  where
    front :
        Memᴰ (k', id) ((k, v) ∷ m)
        → (◌≡◌ {A = List ℕ × ℕ} (k', id) (k, v)) ⊎ Memᴰ (k', id) ((j, w) ∷ m)
    front (here e) = inl e
    front (there h) = inr (there h)

    behind :
        Memᴰ (k', id) ((j, w) ∷ insert k v m)
        → (Memᴰ (k', id) (insert k v m)
            → ((◌≡◌ {A = List ℕ × ℕ} (k', id) (k, v)) ⊎ Memᴰ (k', id) m))
        → (◌≡◌ {A = List ℕ × ℕ} (k', id) (k, v)) ⊎ Memᴰ (k', id) ((j, w) ∷ m)
    behind (here e) rest = inr (here e)
    behind (there h) rest = elim (rest h) [ inl e ↦ inl e | inr h' ↦ inr (there h') ]

module _ (keep : Option ℕ) where
  pub delete_but-none :
      (m : Cache) (h : Heap) (id : ℕ) → h id ≡ none → delete_but keep m h id ≡ none
  delete_but-none [] h id e = e
  delete_but-none ((k, j) ∷ m) h id e =
      delete_but-none m (if is_kept keep j then h else delete j h) id (ground arith)

  pub delete_but-some :
      (m : Cache) (h : Heap) (id : ℕ) (st : DfaState)
      → delete_but keep m h id ≡ some st
      → h id ≡ some st
  delete_but-some [] h id st e = e
  delete_but-some ((k, j) ∷ m) h id st e =
      shrink (delete_but-some m (if is_kept keep j then h else delete j h) id st e)
    where
      shrink : (if is_kept keep j then h else delete j h) id ≡ some st → h id ≡ some st
      shrink e' = ground arith

  pub delete_but-Mem :
      (k : List ℕ) (m : Cache) (h : Heap) (id : ℕ)
      → Memᴰ (k, id) m
      → is_kept keep id ≡ false
      → delete_but keep m h id ≡ none
  delete_but-Mem k [] h id x f = elim x [ ]
  delete_but-Mem k ((j, v) ∷ m) h id (here e) f =
      delete_but-none m (if is_kept keep v then h else delete v h) id
        (gone (ap (λ (p : List ℕ × ℕ). p.1) e))
    where
      gone : id ≡ v → (if is_kept keep v then h else delete v h) id ≡ none
      gone e = rw (← e) (rw f (ground arith))
  delete_but-Mem k ((j, v) ∷ m) h id (there e) f =
      delete_but-Mem k m (if is_kept keep v then h else delete v h) id e f

  pub delete_but-kept :
      (m : Cache) (h : Heap) (id : ℕ) → is_kept keep id ≡ true → delete_but keep m h id ≡ h id
  delete_but-kept [] h id e = refl
  delete_but-kept ((k, j) ∷ m) h id e =
      delete_but-kept m (if is_kept keep j then h else delete j h) id e ∙ same
    where
      other : (b : Bool) → nat_eq id j ≡ false → (if b then h else delete j h) id ≡ h id
      other true f = refl
      other false f = rw f

      same : (if is_kept keep j then h else delete j h) id ≡ h id
      same = elim (Bool-cases (nat_eq id j)) [
        | inl t ↦ rw (ap (is_kept keep) (sym ((nat_eq_iff id j).0 t)) ∙ e) refl
        | inr f ↦ other (is_kept keep j) f
      ]

-- The key of the kept state is what is backed up, if all its entries have that key.
pub backup_of-key :
    (keep : ℕ) (k : List ℕ) (m : Cache) (acc : List ℕ)
    → ((k' : List ℕ) → Memᴰ (k', keep) m → k' ≡ k)
    → (acc ≡ k) ⊎ Memᴰ (k, keep) m
    → backup_of (some keep) m acc ≡ k
backup_of-key keep k [] acc same (inl e) = e
backup_of-key keep k [] acc same (inr h) = elim h [ ]
backup_of-key keep k ((j, v) ∷ m) acc same h =
    backup_of-key keep k m (if nat_eq v keep then j else acc) (λ k' h'. same k' (there h')) (next h)
  where
    chosen : (b : Bool) → nat_eq v keep ≡ b → acc ≡ k → (if b then j else acc) ≡ k
    chosen true e e' = same j (here (ap (λ (i : ℕ). (j, i)) (sym ((nat_eq_iff v keep).0 e))))
    chosen false e e' = e'

    next :
        (acc ≡ k) ⊎ Memᴰ (k, keep) ((j, v) ∷ m)
        → ((if nat_eq v keep then j else acc) ≡ k) ⊎ Memᴰ (k, keep) m
    next (inl e) = inl (chosen (nat_eq v keep) refl e)
    next (inr (there h)) = inr h
    next (inr (here e)) =
        let kv : keep ≡ v = ap (λ (p : List ℕ × ℕ). p.1) e in
        let kj : k ≡ j = ap (λ (p : List ℕ × ℕ). p.0) e in
        inl (rw ((nat_eq_iff v keep).1 (sym kv)) (sym kj))
