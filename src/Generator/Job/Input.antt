-- ===== src/Generator/Job/Input.antt =====
-- The text that a job's command reads: what `generate_service` writes for `input_data`.
use systemd_cron.Base.{
  ℕ, zero, suc, ◌≤◌, ◌<◌, ◌≡◌, refl, sym, ap, ◌∙◌, List, [], ◌∷◌, ◌++◌, none, some, inl, inr, Bool,
  true, false, ◌&&◌, if◌then◌else◌, ◌==◌, Bytes, codes, length, map, all, cut, contains, cut_sound,
  cut-none, Option-cases, arith, length-append, append-nil,
}
use systemd_cron.Generator.Job.Exec.{Segment, cut_backpct, segments_from, debackslashpercentise}
use systemd_cron.Generator.Job.Unit.{feed_lines, feed_segments, input_text}
use systemd_cron.Generator.Job.{Job}
use systemd_cron.Util.Base64.Groups.{groups, is_byte, encode-groups}
use systemd_cron.Util.Base64.Pieces.{feed_view-append, feed_view-lt, feed_view-nil}
use systemd_cron.Util.Base64.{Encoder, feed_view, finish, fresh, encode}

-- A percent sign stands for the end of a line.
abbrev newline_for : ℕ → ℕ
newline_for c = if c == b'%' then b'\n' else c

-- What crontab(5) says of the input: a percent sign is a newline, unless a backslash stands before
-- it, which then goes.
abbrev pub stdin_of : Bytes → Bytes
stdin_of [] = []
stdin_of (c ∷ []) = newline_for c ∷ []
stdin_of (c ∷ d ∷ s) =
    let behind = stdin_of s in
    let rest = stdin_of (d ∷ s) in
    if c == b'\\' && d == b'%' then b'%' ∷ behind else newline_for c ∷ rest

newlines-plain : (s : Bytes) → contains b'%' s ≡ false → map newline_for s ≡ s
unfolding contains
newlines-plain [] h = refl
newlines-plain (c ∷ s) h = ground (arith, newlines-plain s)

newlines-split :
    (a b : Bytes)
    → contains b'%' a ≡ false
    → map newline_for (a ++ b'%' ∷ b) ≡ a ++ b'\n' ∷ map newline_for b
unfolding contains
newlines-split [] b h = refl
newlines-split (c ∷ a) b h = ground (arith, newlines-split a b)

feed_lines-newlines :
    (fuel : ℕ) (s : Bytes) (e : Encoder)
    → length s ≤ fuel
    → e.accsz < 6
    → feed_lines fuel s e ≡ feed_view e (map newline_for s)
unfolding feed_lines
feed_lines-newlines zero [] e h k = refl
feed_lines-newlines zero (c ∷ s) e h k = absurd (omega arith)
feed_lines-newlines (suc fuel) s e h k = elim (Option-cases (cut b'%' s)) [
  | inl none_found ↦
      rw (none_found, feed_lines)
        (ap (feed_view e) (sym (newlines-plain s (cut-none b'%' s none_found))))
  | inr ((a, b), found) ↦
      let (split, plain) = cut_sound b'%' s found in
      let shorter : length b ≤ fuel = omega (arith, ap length split, length-append a (b'%' ∷ b)) in
      let small = feed_view-lt a e k in
      rw (found, feed_lines)
        (feed_lines-newlines fuel b (feed_view (feed_view e a) (codes "\n")) shorter
            (feed_view-lt (codes "\n") (feed_view e a) small)
          ∙ feed_view-append (codes "\n") (map newline_for b) (feed_view e a) small
          ∙ feed_view-append a (b'\n' ∷ map newline_for b) e k
          ∙ ap (feed_view e) (sym (newlines-split a b plain) ∙ ap (map newline_for) (sym split)))
]

abbrev rendered : List Segment → Bytes
rendered [] = []
rendered ((s, replace) ∷ ss) = (if replace then map newline_for s else s) ++ rendered ss

feed_segment :
    (s : Bytes) (replace : Bool) (e : Encoder)
    → e.accsz < 6
    → (if replace then feed_lines (length s) s e else feed_view e s)
      ≡ feed_view e (if replace then map newline_for s else s)
feed_segment s true e k = feed_lines-newlines (length s) s e (omega arith) k
feed_segment s false e k = refl

feed_segments-rendered :
    (ss : List Segment) (e : Encoder) → e.accsz < 6 → feed_segments ss e ≡ feed_view e (rendered ss)
unfolding feed_segments
feed_segments-rendered [] e k = sym (feed_view-nil e k)
feed_segments-rendered ((s, replace) ∷ ss) e k =
    let part = if replace then map newline_for s else s in
    ap (feed_segments ss) (feed_segment s replace e k)
    ∙ feed_segments-rendered ss (feed_view e part) (feed_view-lt part e k)
    ∙ feed_view-append part (rendered ss) e k

stdin_of-plain : (s : Bytes) → cut_backpct s ≡ none → stdin_of s ≡ map newline_for s
unfolding cut_backpct
stdin_of-plain [] h = refl
stdin_of-plain (c ∷ []) h = refl
stdin_of-plain (c ∷ d ∷ s) h = elim (Option-cases (cut_backpct (d ∷ s))) [
  | inl e ↦ ground (arith, stdin_of-plain (d ∷ s) e)
  | inr ((a, b), e) ↦ ground arith
]

stdin_of-split :
    (s a b : Bytes)
    → cut_backpct s ≡ some (a, b)
    → (stdin_of s ≡ map newline_for a ++ b'%' ∷ stdin_of b) × (length b < length s)
unfolding cut_backpct
stdin_of-split [] a b h = cc
stdin_of-split (c ∷ []) a b h = cc
stdin_of-split (c ∷ d ∷ s) a b h = elim (Option-cases (cut_backpct (d ∷ s))) [
  | inl e ↦ ground arith
  | inr ((a', b'), e) ↦ ground (arith, stdin_of-split (d ∷ s) a' b' e)
]

rendered-segments :
    (fuel : ℕ) (s : Bytes) → length s < fuel → rendered (segments_from fuel s) ≡ stdin_of s
unfolding segments_from
rendered-segments zero s h = absurd (omega arith)
rendered-segments (suc fuel) [] h = refl
rendered-segments (suc fuel) (c ∷ s) h = elim (Option-cases (cut_backpct (c ∷ s))) [
  | inl e ↦
      rw (e, segments_from) (append-nil (map newline_for (c ∷ s)) ∙ sym (stdin_of-plain (c ∷ s) e))
  | inr ((a, b), e) ↦
      let (split, shorter) = stdin_of-split (c ∷ s) a b e in
      rw (e, segments_from)
        (ap (λ r. map newline_for a ++ b'%' ∷ r) (rendered-segments fuel b (omega arith))
          ∙ sym split)
]

stdin_of-bytes : (s : Bytes) → all is_byte s ≡ true → all is_byte (stdin_of s) ≡ true
stdin_of-bytes [] h = refl
stdin_of-bytes (c ∷ []) h = ground arith
stdin_of-bytes (c ∷ d ∷ s) h = ground (arith, stdin_of-bytes s, stdin_of-bytes (d ∷ s))

-- Outside an anacrontab, where the input is bytes below 256, the input of a service is the base64 text, by groups of three bytes, of
-- the bytes behind the percent sign, with each unescaped percent sign a newline and each escaped
-- one itself.
pub input_text-groups :
    (j : Job)
    → j.command.nopercent ≡ false
    → all is_byte j.input_data ≡ true
    → input_text j ≡ groups (stdin_of j.input_data)
unfolding input_text debackslashpercentise fresh encode
input_text-groups j h k = rw h (
    ap finish (
      feed_segments-rendered (segments_from (suc (length j.input_data)) j.input_data) fresh
        (omega arith))
    ∙ ap (λ s. finish (feed_view fresh s))
        (rendered-segments (suc (length j.input_data)) j.input_data (omega arith))
    ∙ encode-groups (stdin_of j.input_data) (stdin_of-bytes j.input_data k))
