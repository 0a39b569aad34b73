-- ===== src/Generator/Job/Describe.antt =====
-- `describe_line` and `generate_unit_header` of `Job`: how a unit shows the line it comes from.
pub mod Pieces
use systemd_cron.Base.{
  ℕ, zero, suc, ◌+◌, ◌-◌, ◌%◌, ◌/◌, [], ◌∷◌, ◌++◌, Option, none, some, if◌then◌else◌, ◌==◌, ltb,
  Bytes, codes, equal, length, drop, take, starts_with, concat, map,
}
use systemd_cron.Generator.Host.{Host, illegal, nul, incomplete, char_of}
use systemd_cron.Generator.Job.{Job}

abbrev hex_digit : ℕ → ℕ
hex_digit n = if ltb n 10 then b'0' + n else b'a' + (n - 10)

-- `sprintf("\\x%02hhx")`.
unfoldable pub hex : ℕ → Bytes
hex c = codes "\\x" ++ hex_digit (c / 16) ∷ hex_digit (c % 16) ∷ []

-- `escaped`, made from the line up to here where it is not there yet.
abbrev pub begun : Bytes → Bytes → Option Bytes → Bytes
begun line desc none = take (length line - length desc) line
begun line desc (some escaped) = escaped

-- The loop, on the rest of the line: in each round the bytes of one character, escaped or not.
unfoldable pub describe : Host → Bytes → ℕ → Bytes → Option Bytes → Option Bytes
unfolding hex
describe host line zero desc escaped = escaped
describe host line (suc fuel) [] escaped = escaped
describe host line (suc fuel) (c ∷ s) escaped =
    let desc = c ∷ s in
    let in_hex : ℕ → Option Bytes = λ conv.
      describe host line fuel (drop conv desc)
        (some (begun line desc escaped ++ concat (map hex (take conv desc)))) in
    elim (host.mbrlen desc) [
      | illegal ↦ in_hex 1
      | nul ↦ in_hex 1
      | incomplete ↦ in_hex (length desc)
      | char_of conv ↦
          let escaped' : Option Bytes =
            if c == b'%'
            then some (begun line desc escaped ++ codes "%%")
            else elim escaped [ none ↦ none | some e ↦ some (e ++ take conv desc) ] in
          describe host line fuel (drop conv desc) escaped'
    ]

-- `line_description`.
unfoldable pub describe_line : Host → Bytes → Bytes
unfolding describe
describe_line host line = elim (describe host line (length line) line none) [
  | none ↦ line
  | some escaped ↦ escaped
]

abbrev pub quote_unless_path : Bytes → Bytes → Bytes
quote_unless_path quote line = if starts_with (codes "/") line then [] else quote

abbrev pub eol : Bytes
eol = codes "\n"

unfoldable pub generate_unit_header : Host → Bytes → Job → Bytes
unfolding describe_line
generate_unit_header host tp j =
    codes "[Unit]\nDescription=["
    ++ tp
    ++ codes "] "
    ++ quote_unless_path (codes "\"") j.line
    ++ describe_line host j.line
    ++ quote_unless_path (codes "\"") j.line
    ++ codes "\nDocumentation=man:systemd-crontab-generator(8)\n"
    ++ (if equal j.filename (codes "-") then [] else codes "SourcePath=" ++ j.filename ++ eol)
