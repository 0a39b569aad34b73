-- ===== src/Dam/Startup.antt =====
-- How the two programs come to their loops: `bundle::map` of src/include/shmemutil.hpp, and what
-- `main` does with the arguments before the loop.
mod Tests
use systemd_cron.Base.{
  ℕ, ◌≡◌, ◌⊎◌, inl, inr, refl, List, Option, none, some, Bool, true, false, if◌then◌else◌, Bytes,
  arith,
}
use systemd_cron.Dam.Bundle.{Bundle, zero_bundle}
use systemd_cron.Dam.Options.{
  Arguments, usage, refused, below, in_group, Floating, dam_arguments, group_arguments,
}

-- The segment: not there, too short for a word, or with a word.
pub data Segment : Type 0 where
  absent : Segment
  short : Segment
  holds : Bundle → Segment

-- Which of the three calls fail.
pub record Faults : Type 0 where
  pub shm_open : Bool
  pub ftruncate : Bool
  pub mmap : Bool

-- `shm_open` with O_CREAT, and `ftruncate` to the size of a word, which fills with zeros.
abbrev pub created : Segment → Segment
created absent = short
created short = short
created (holds b) = holds b

abbrev pub word_of : Segment → Bundle
word_of absent = zero_bundle
word_of short = zero_bundle
word_of (holds b) = b

-- The status, the segment that is left, and the word that is mapped.
unfoldable pub map_word : Faults → Segment → ℕ × Segment × Option Bundle
map_word f s =
    if f.shm_open
    then (1, s, none)
    else if f.ftruncate
    then (1, created s, none)
    else if f.mmap
    then (1, holds (word_of s), none)
    else (0, holds (word_of s), some (word_of s))

-- A word that is there stays, whatever fails; and a word is mapped exactly if the status is 0: the
-- one that was there, or the one of zeros.
pub map_word-cases :
    (f : Faults) (s : Segment)
    → (word_of (map_word f s).1 ≡ word_of s)
      × ((((map_word f s).0 ≡ 0)
            × ((map_word f s).2 ≡ some (word_of s))
            × ((map_word f s).1 ≡ holds (word_of s)))
          ⊎ (((map_word f s).0 ≡ 1) × ((map_word f s).2 ≡ none)))
unfolding map_word
map_word-cases f absent = ground arith
map_word-cases f short = ground arith
map_word-cases f (holds b) = ground arith

-- What comes of `main` before its loop: a status, or the loop on a word, with its target, its
-- group and its own unit.
pub data Begun : Type 0 where
  ends : ℕ → Begun
  waits_for_load : Bytes → Bundle → Begun
  waits_for_group : Bytes → Option Bytes → Bytes → Bundle → Begun

abbrev pub on_word : ℕ × Segment × Option Bundle → (Bundle → Begun) → Segment × Begun
on_word (status, s, none) k = (s, ends status)
on_word (status, s, some b) k = (s, k b)

module _ (strerror : ℕ → Bytes) (strtod : Bytes → Floating) (f : Faults) where
  unfoldable pub dam_begins : List Bytes → Segment → Segment × Begun
  unfolding dam_arguments map_word
  dam_begins args s = elim (dam_arguments strerror strtod args) [
    | usage ↦ (s, ends 1)
    | refused message ↦ (s, ends 1)
    | in_group group target ↦ (s, ends 1)
    | below target ↦ on_word (map_word f s) (λ b. waits_for_load target b)
  ]

  -- `bus` tells whether the system bus can be had, and `unit` what GetUnitByPID gives.
  unfoldable pub group_begins : Bool → Option Bytes → List Bytes → Segment → Segment × Begun
  unfolding group_arguments map_word
  group_begins bus unit args s = elim (group_arguments strerror strtod args) [
    | usage ↦ (s, ends 1)
    | refused message ↦ (s, ends 1)
    | below target ↦ (s, ends 1)
    | in_group group target ↦ on_word (map_word f s) λ b.
        if bus
        then elim unit [ none ↦ ends 1 | some object ↦ waits_for_group group target object b ]
        else ends 1
  ]
