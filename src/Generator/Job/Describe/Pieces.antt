-- ===== src/Generator/Job/Describe/Pieces.antt =====
-- `describe_line`, character by character.
use systemd_cron.Base.{
  ℕ, zero, suc, ◌-◌, ◌≤◌, ◌<◌, ◌≡◌, refl, sym, ap, ◌∙◌, [], ◌∷◌, ◌++◌, Option, none, some, inl, inr,
  if◌then◌else◌, ◌==◌, Bytes, codes, length, drop, take, concat, map, arith, append_assoc,
  append-nil, Bool-cases, length-append,
}
use systemd_cron.Generator.Host.{Host, Mbrlen, illegal, nul, incomplete, char_of}
use systemd_cron.Generator.Job.Describe.{hex, begun, describe, describe_line}

-- `mbrlen` counts at least one byte, and no more than it is given.
abbrev pub IsMbrlen : Host → Type 0
IsMbrlen host =
    (c : ℕ) (s : Bytes) (n : ℕ) → host.mbrlen (c ∷ s) ≡ char_of n → (0 < n) × (n ≤ length (c ∷ s))

-- The bytes of the first character, and what stands for it: itself, a doubled percent sign, or the
-- bytes in hexadecimal where they are no character.
abbrev pub width : Mbrlen → Bytes → ℕ
width illegal desc = 1
width nul desc = 1
width incomplete desc = length desc
width (char_of n) desc = n

abbrev pub shown : Mbrlen → ℕ → Bytes → Bytes
shown illegal c desc = concat (map hex (take 1 desc))
shown nul c desc = concat (map hex (take 1 desc))
shown incomplete c desc = concat (map hex desc)
shown (char_of n) c desc = if c == b'%' then codes "%%" else take n desc

-- The characters of a text one after the other, as they are shown.
abbrev pub pieces : Host → ℕ → Bytes → Bytes
pieces host zero desc = []
pieces host (suc fuel) [] = []
pieces host (suc fuel) (c ∷ s) =
    let m = host.mbrlen (c ∷ s) in
    shown m c (c ∷ s) ++ pieces host fuel (drop (width m (c ∷ s)) (c ∷ s))

take-append-drop : (n : ℕ) (s : Bytes) → take n s ++ drop n s ≡ s
take-append-drop zero s = refl
take-append-drop (suc n) [] = refl
take-append-drop (suc n) (c ∷ s) = ap (◌∷◌ c) (take-append-drop n s)

length-drop : (n : ℕ) (s : Bytes) → length (drop n s) ≡ length s - n
length-drop zero s = omega arith
length-drop (suc n) [] = omega arith
length-drop (suc n) (c ∷ s) = omega (arith, length-drop n s)

take_front : (pre desc : Bytes) → take (length pre) (pre ++ desc) ≡ pre
take_front [] desc = refl
take_front (c ∷ pre) desc = ap (◌∷◌ c) (take_front pre desc)

take_whole : (s : Bytes) → take (length s) s ≡ s
take_whole [] = refl
take_whole (c ∷ s) = ap (◌∷◌ c) (take_whole s)

-- What is shown of the text so far.
abbrev so_far : Bytes → Option Bytes → Bytes
so_far pre none = pre
so_far pre (some e) = e

begun-so_far :
    (line pre desc : Bytes) (escaped : Option Bytes)
    → line ≡ pre ++ desc
    → begun line desc escaped ≡ so_far pre escaped
begun-so_far line pre desc (some e) h = refl
begun-so_far line pre desc none h =
    let front : length line - length desc ≡ length pre =
      omega (arith, ap length h, length-append pre desc) in
    ap (λ n. take n line) front ∙ ap (take (length pre)) h ∙ take_front pre desc

-- One round: what is escaped after it.
abbrev after_round : Bytes → Mbrlen → ℕ → Bytes → Option Bytes → Option Bytes
after_round line illegal c desc escaped =
    some (begun line desc escaped ++ concat (map hex (take 1 desc)))
after_round line nul c desc escaped =
    some (begun line desc escaped ++ concat (map hex (take 1 desc)))
after_round line incomplete c desc escaped =
    some (begun line desc escaped ++ concat (map hex (take (length desc) desc)))
after_round line (char_of n) c desc escaped =
    if c == b'%'
    then some (begun line desc escaped ++ codes "%%")
    else elim escaped [ none ↦ none | some e ↦ some (e ++ take n desc) ]

describe_round :
    (host : Host) (line : Bytes) (fuel c : ℕ) (s : Bytes) (escaped : Option Bytes)
    → describe host line (suc fuel) (c ∷ s) escaped
      ≡ describe host line fuel
          (drop (width (host.mbrlen (c ∷ s)) (c ∷ s)) (c ∷ s))
          (after_round line (host.mbrlen (c ∷ s)) c (c ∷ s) escaped)
unfolding describe
describe_round host line fuel c s escaped = by_mbrlen (host.mbrlen (c ∷ s)) refl
  where
    by_mbrlen :
        (m : Mbrlen)
        → host.mbrlen (c ∷ s) ≡ m
        → describe host line (suc fuel) (c ∷ s) escaped
          ≡ describe host line fuel
              (drop (width (host.mbrlen (c ∷ s)) (c ∷ s)) (c ∷ s))
              (after_round line (host.mbrlen (c ∷ s)) c (c ∷ s) escaped)
    by_mbrlen illegal e = rw (e, describe) refl
    by_mbrlen nul e = rw (e, describe) refl
    by_mbrlen incomplete e = rw (e, describe) refl
    by_mbrlen (char_of n) e = rw (e, describe) refl

so_far-after_round :
    (line pre desc : Bytes) (m : Mbrlen) (c : ℕ) (escaped : Option Bytes)
    → line ≡ pre ++ desc
    → so_far (pre ++ take (width m desc) desc) (after_round line m c desc escaped)
      ≡ so_far pre escaped ++ shown m c desc
so_far-after_round line pre desc illegal c escaped h =
    ap (λ b. b ++ concat (map hex (take 1 desc))) (begun-so_far line pre desc escaped h)
so_far-after_round line pre desc nul c escaped h =
    ap (λ b. b ++ concat (map hex (take 1 desc))) (begun-so_far line pre desc escaped h)
so_far-after_round line pre desc incomplete c escaped h =
    ap (λ b. b ++ concat (map hex (take (length desc) desc))) (begun-so_far line pre desc escaped h)
    ∙ ap (λ t. so_far pre escaped ++ concat (map hex t)) (take_whole desc)
so_far-after_round line pre desc (char_of n) c escaped h = elim (Bool-cases (c == b'%')) [
  | inl e ↦ rw e (ap (λ b. b ++ codes "%%") (begun-so_far line pre desc escaped h))
  | inr e ↦ rw e (plain escaped)
]
  where
    plain :
        (escaped : Option Bytes)
        → so_far
            (pre ++ take n desc)
            (elim escaped [ none ↦ none | some e ↦ some (e ++ take n desc) ])
          ≡ so_far pre escaped ++ take n desc
    plain none = refl
    plain (some e) = refl

width_pos :
    (host : Host) → IsMbrlen host → (c : ℕ) (s : Bytes) → 0 < width (host.mbrlen (c ∷ s)) (c ∷ s)
width_pos host ok c s = by_mbrlen (host.mbrlen (c ∷ s)) refl
  where
    by_mbrlen : (m : Mbrlen) → host.mbrlen (c ∷ s) ≡ m → 0 < width m (c ∷ s)
    by_mbrlen illegal e = omega arith
    by_mbrlen nul e = omega arith
    by_mbrlen incomplete e = omega arith
    by_mbrlen (char_of n) e = (ok c s n e).0

abbrev finally : Bytes → Option Bytes → Bytes
finally line none = line
finally line (some e) = e

describe-pieces :
    (host : Host)
    → IsMbrlen host
    → (line : Bytes) (fuel : ℕ) (pre desc : Bytes) (escaped : Option Bytes) → line ≡ pre ++ desc
    → length desc ≤ fuel
    → finally line (describe host line fuel desc escaped)
      ≡ so_far pre escaped ++ pieces host fuel desc
unfolding describe
describe-pieces host ok line zero pre (c ∷ s) escaped h l = absurd (omega arith)
describe-pieces host ok line zero pre [] none h l = h
describe-pieces host ok line zero pre [] (some e) h l = sym (append-nil e)
describe-pieces host ok line (suc fuel) pre [] none h l = h
describe-pieces host ok line (suc fuel) pre [] (some e) h l = sym (append-nil e)
describe-pieces host ok line (suc fuel) pre (c ∷ s) escaped h l =
    let desc = c ∷ s in
    let m = host.mbrlen desc in
    let n = width m desc in
    ap (finally line) (describe_round host line fuel c s escaped)
    ∙ describe-pieces host ok line fuel (pre ++ take n desc) (drop n desc)
        (after_round line m c desc escaped)
        (h
          ∙ ap (λ t. pre ++ t) (sym (take-append-drop n desc))
          ∙ sym (append_assoc pre (take n desc) (drop n desc)))
        (omega (arith, width_pos host ok c s, length-drop n desc))
    ∙ ap (λ t. t ++ pieces host fuel (drop n desc)) (so_far-after_round line pre desc m c escaped h)
    ∙ append_assoc (so_far pre escaped) (shown m c desc) (pieces host fuel (drop n desc))

-- With an `mbrlen` that counts at least one byte and no more than it is given, the description of
-- a line is the line character by character, with percent signs doubled and
-- the bytes that are no character in hexadecimal.
pub describe_line-pieces :
    (host : Host)
    → IsMbrlen host
    → (line : Bytes) → describe_line host line ≡ pieces host (length line) line
unfolding describe_line
describe_line-pieces host ok line =
    describe-pieces host ok line (length line) [] line none refl (omega arith)
