-- ===== src/Tool/Copy.antt =====
-- copy_FILE of src/bin/crontab.cpp, and the `fflush` after it. A text goes to a stream in blocks, and
-- what `fwrite` says of a block is not looked at.
use systemd_cron.Base.{
  Option-cases, ℕ, zero, suc, ◌+◌, List, [], ◌∷◌, ◌++◌, Option, none, some, ◌≡◌, ◌⊎◌, inl, inr,
  refl, ap, ◌∙◌, subst, sym, Bytes, take, concat, length,
}
use systemd_cron.Sys.{Oracle, Disk, M}
use systemd_cron.Sys.Keeps.{Keeps}

push : ℕ → List Bytes → List Bytes
push c [] = (c ∷ []) ∷ []
push c (b ∷ bs) = (c ∷ b) ∷ bs

-- The blocks of 4096 bytes that `fread` gives; `room` more bytes go into the first after its next.
unfoldable pub blocks_from : ℕ → Bytes → List Bytes
unfolding push
blocks_from room [] = []
blocks_from zero (c ∷ cs) = (c ∷ []) ∷ blocks_from 4095 cs
blocks_from (suc room) (c ∷ cs) = push c (blocks_from room cs)

abbrev pub blocks : Bytes → List Bytes
blocks = blocks_from 4095

-- What a write leaves of a text, by its error and the bytes that it has written then.
abbrev pub part : Option ℕ → ℕ → Bytes → Bytes
part none torn s = s
part (some n) torn s = take torn s

module _ (o : Oracle) where
  -- What the loop has written of these blocks, from the n-th call on.
  unfoldable pub copied : ℕ → List Bytes → Bytes
  copied n [] = []
  copied n (b ∷ bs) = part (o.fault n) (o.torn n) b ++ copied (suc n) bs

  -- The error of `fflush`, and what is in the file then.
  unfoldable pub copy_and_flush : Bytes → M (Option ℕ × Bytes)
  unfolding copied blocks_from
  copy_and_flush from d =
      let n = d.calls + length (blocks from) in
      (
        (o.fault n, part (o.fault n) (o.torn n) (copied d.calls (blocks from))),
        record d { calls = suc n },
      )

-- Of each block, all of it is there, or, where that call has failed, what it has written then. The
-- writes are the calls from the n-th on.
pub data IsTorn (o : Oracle) : ℕ → List Bytes → Bytes → Type 0 where
  finished : (n : ℕ) → IsTorn o n [] []
  kept :
      (n : ℕ) (b r : Bytes) (bs : List Bytes)
      → o.fault n ≡ none
      → IsTorn o (suc n) bs r
      → IsTorn o n (b ∷ bs) (b ++ r)
  cut :
      (n err : ℕ) (b r : Bytes) (bs : List Bytes)
      → o.fault n ≡ some err
      → IsTorn o (suc n) bs r
      → IsTorn o n (b ∷ bs) (take (o.torn n) b ++ r)

-- The same, where one write at least has failed.
pub data Loses (o : Oracle) : ℕ → List Bytes → Bytes → Type 0 where
  at_once :
      (n err : ℕ) (b r : Bytes) (bs : List Bytes)
      → o.fault n ≡ some err
      → IsTorn o (suc n) bs r
      → Loses o n (b ∷ bs) (take (o.torn n) b ++ r)
  later :
      (n : ℕ) (b r : Bytes) (bs : List Bytes)
      → o.fault n ≡ none
      → Loses o (suc n) bs r
      → Loses o n (b ∷ bs) (b ++ r)

copied-IsTorn : (o : Oracle) (n : ℕ) (bs : List Bytes) → IsTorn o n bs (copied o n bs)
unfolding copied
copied-IsTorn o n [] = finished n
copied-IsTorn o n (b ∷ bs) =
    let r = copied o (suc n) bs in
    let rest = copied-IsTorn o (suc n) bs in
    elim (Option-cases (o.fault n)) [
      | inl e ↦
          subst (λ f. IsTorn o n (b ∷ bs) (part f (o.torn n) b ++ r)) (sym e) (kept n b r bs e rest)
      | inr (err, e) ↦
          subst (λ f. IsTorn o n (b ∷ bs) (part f (o.torn n) b ++ r)) (sym e)
            (cut n err b r bs e rest)
    ]

later-cases :
    (o : Oracle) (n : ℕ) (b r : Bytes) (bs : List Bytes)
    → o.fault n ≡ none
    → (r ≡ concat bs) ⊎ Loses o (suc n) bs r
    → (b ++ r ≡ b ++ concat bs) ⊎ Loses o n (b ∷ bs) (b ++ r)
later-cases o n b r bs e (inl same) = inl (ap (λ s. b ++ s) same)
later-cases o n b r bs e (inr lost) = inr (later n b r bs e lost)

-- All of the blocks are there, or the write of one has failed.
copied-cases :
    (o : Oracle) (n : ℕ) (bs : List Bytes)
    → (copied o n bs ≡ concat bs) ⊎ Loses o n bs (copied o n bs)
unfolding copied
copied-cases o n [] = inl refl
copied-cases o n (b ∷ bs) =
    let r = copied o (suc n) bs in
    let Case = λ (f : Option ℕ).
      (part f (o.torn n) b ++ r ≡ b ++ concat bs) ⊎ Loses o n (b ∷ bs) (part f (o.torn n) b ++ r) in
    elim (Option-cases (o.fault n)) [
      | inl e ↦ subst Case (sym e) (later-cases o n b r bs e (copied-cases o (suc n) bs))
      | inr (err, e) ↦
          subst Case (sym e) (inr (at_once n err b r bs e (copied-IsTorn o (suc n) bs)))
    ]

concat-push : (c : ℕ) (bs : List Bytes) → concat (push c bs) ≡ c ∷ concat bs
unfolding push
concat-push c [] = refl
concat-push c (b ∷ bs) = refl

-- The blocks make up the text.
pub concat-blocks_from : (room : ℕ) (s : Bytes) → concat (blocks_from room s) ≡ s
unfolding blocks_from
concat-blocks_from room [] = refl
concat-blocks_from zero (c ∷ cs) = ap (λ s. c ∷ s) (concat-blocks_from 4095 cs)
concat-blocks_from (suc room) (c ∷ cs) =
    concat-push c (blocks_from room cs) ∙ ap (λ s. c ∷ s) (concat-blocks_from room cs)

pub Keeps-copy_and_flush : (o : Oracle) (q from : Bytes) → Keeps q (copy_and_flush o from)
unfolding copy_and_flush
Keeps-copy_and_flush o q from d = refl

part-none : (f : Option ℕ) (t : ℕ) (s : Bytes) → f ≡ none → part f t s ≡ s
part-none f t s e = rw e refl

-- Where `fflush` succeeds, the text is there, or the write of a block has failed.
pub copy_and_flush_done :
    (o : Oracle) (from : Bytes) (d : Disk)
    → (copy_and_flush o from d).0.0 ≡ none
    → ((copy_and_flush o from d).0.1 ≡ from)
      ⊎ ((n : ℕ) × Loses o n (blocks from) (copy_and_flush o from d).0.1)
unfolding copy_and_flush
copy_and_flush_done o from d h =
    let n = d.calls + length (blocks from) in
    let bs = blocks from in
    let same : part (o.fault n) (o.torn n) (copied o d.calls bs) ≡ copied o d.calls bs =
      part-none (o.fault n) (o.torn n) (copied o d.calls bs) h in
    subst (λ r. (r ≡ from) ⊎ ((n : ℕ) × Loses o n bs r)) (sym same)
      (elim (copied-cases o d.calls bs) [
        | inl e ↦ inl (e ∙ concat-blocks_from 4095 from)
        | inr l ↦ inr (d.calls, l)
      ])
