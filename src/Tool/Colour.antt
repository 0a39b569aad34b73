-- ===== src/Tool/Colour.antt =====
-- `colour_crontab` and `list` of src/bin/crontab.cpp.
pub mod Transparent
use systemd_cron.Base.{
  ℕ, zero, suc, ◌-◌, ◌==◌, List, [], ◌∷◌, ◌++◌, Option, none, some, Bool, true, false,
  if◌then◌else◌, Bytes, codes, length, drop, take, concat, map, starts_with,
}
use systemd_cron.Generator.Crontab.{envvar}
use systemd_cron.Setgid.{Exit, quits}
use systemd_cron.Sys.{Oracle, Disk, M, pure, ◌>>=◌, Opened, failed, opened, fopen, fails, enoent}
use systemd_cron.Tool.{Session, Helper, exec_helper, run_helper}
use systemd_cron.Vore.Tokenise.{View, soft_tokenise}

pub data Colour : Type 0 where
  blue : Colour
  green : Colour
  yellow : Colour
  plain : Colour

-- A call of `coloured`: a colour, or none, and a text.
abbrev pub Piece : Type 0
Piece = Colour × Bytes

-- The escape sequence of a colour.
abbrev pub escape : Colour → Bytes
escape blue = 27 ∷ codes "[1;34m"
escape green = 27 ∷ codes "[1;32m"
escape yellow = 27 ∷ codes "[1;33m"
escape plain = []

abbrev pub reset : Colour → Bytes
reset blue = 27 ∷ codes "[0m"
reset green = 27 ∷ codes "[0m"
reset yellow = 27 ∷ codes "[0m"
reset plain = []

abbrev pub coloured : Piece → Bytes
coloured (c, s) = escape c ++ s ++ reset c

-- `getline`: the lines, each with the newline that ends it.
unfoldable pub getlines : Bytes → List Bytes
getlines [] = []
getlines (c ∷ s) =
    let rest = getlines s in
    if c == b'\n' then (c ∷ []) ∷ rest else elim rest [ [] ↦ (c ∷ []) ∷ [] | l ∷ ls ↦ (c ∷ l) ∷ ls ]

-- The line up to the place of this token, and from it on.
abbrev pub before_token : Bytes → View → ℕ
before_token line v = length line - length (v.text ++ v.after)

abbrev pub split_pieces : Colour → ℕ → Bytes → List Piece
split_pieces c n line = (c, take n line) ∷ (plain, drop n line) ∷ []

-- The time in front of the sixth token.
unfoldable pub colour_timespec : Bytes → List View → List Piece
colour_timespec line [] = (plain, line) ∷ []
colour_timespec line (v ∷ vs) = split_pieces green (before_token line v) line

-- A line that is neither a comment nor a variable, with its tokens.
unfoldable pub colour_tokens : Bytes → List View → List Piece
unfolding colour_timespec
colour_tokens line [] = colour_timespec line []
colour_tokens line (v ∷ vs) =
    if starts_with (codes "@") v.text
    then (green, v.text) ∷ (plain, drop (length v.text) line) ∷ []
    else colour_timespec line (drop 4 vs)

unfoldable pub colour_line : Bytes → List Piece
unfolding envvar colour_tokens soft_tokenise
colour_line line = if starts_with (codes "#") line then (blue, line) ∷ [] else elim (envvar line) [
  | some (key, value) ↦ split_pieces yellow (length key) line
  | none ↦ colour_tokens line (soft_tokenise line (codes " \t\n"))
]

abbrev pub shown : List Piece → Bytes
shown pieces = concat (map coloured pieces)

unfoldable pub colour_crontab : Bytes → Bytes
unfolding colour_line getlines
colour_crontab text = concat (map (λ line. shown (colour_line line)) (getlines text))

module _ (o : Oracle) (helper : Helper) (s : Session) where
  abbrev pub display : Bytes → Bytes
  unfolding colour_crontab
  display text = if s.want_colour then colour_crontab text else text

  -- With colour, the helper writes into a pipe.
  unfoldable pub list_by_pipe : M Exit
  unfolding run_helper colour_crontab
  list_by_pipe = do
    p ← fails o
    elim p [
      | some n ↦ quits 125
      | none ↦ do
        r ← run_helper o helper s [] (codes "r")
        pure (record { status = r.status; out = colour_crontab r.out })
    ]

  unfoldable pub list : M Exit
  unfolding display list_by_pipe exec_helper
  list = do
    f ← fopen o s.cron_file
    elim f [
      | opened text ↦ pure (record { status = 0; out = display text })
      | failed err ↦
          if err == enoent
          then quits 1
          else if s.have_setgid
          then (if s.is_current
              then (if s.want_colour then list_by_pipe else exec_helper o helper s [] (codes "r"))
              else quits 1)
          else quits 1
    ]
