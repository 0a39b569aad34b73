-- ===== src/Sys.antt =====
-- The files that the programs share, and the C library's calls on them. A call can fail at any
-- time; an oracle says which calls do, and how much of a text a failing write leaves behind.
pub mod Keeps
use systemd_cron.Base.{
  [], ℕ, suc, Option, none, some, Bytes, if◌then◌else◌, equal, take, Bool, true, ◌==◌,
}

-- The error numbers that the programs look at, as Linux has them.
abbrev pub enoent : ℕ
enoent = 2

abbrev pub eacces : ℕ
eacces = 13

abbrev pub eexist : ℕ
eexist = 17

abbrev pub enospc : ℕ
enospc = 28

abbrev pub erofs : ℕ
erofs = 30

-- Of the n-th call: the error it fails with, if it does, and the bytes that a write then leaves.
pub record Oracle : Type 0 where
  pub fault : ℕ → Option ℕ
  pub torn : ℕ → ℕ

abbrev pub Files : Type 0
Files = Bytes → Option Bytes

pub record Disk : Type 0 where
  pub files : Files
  pub calls : ℕ

abbrev pub M {ℓ} : Type ℓ → Type ℓ
M A = Disk → A × Disk

abbrev pub pure {ℓ} : {A : Type ℓ} → A → M A
pure a d = (a, d)

infixl 5 ◌>>=◌
abbrev pub ◌>>=◌ {ℓ κ} : {A : Type ℓ} {B : Type κ} → M A → (A → M B) → M B
◌>>=◌ m f d = f (m d).0 (m d).1

infixl 5 ◌>>◌
abbrev pub ◌>>◌ {ℓ κ} : {A : Type ℓ} {B : Type κ} → M A → M B → M B
m >> k = m >>= λ _. k

abbrev pub set_file : Bytes → Option Bytes → Files → Files
set_file p v f q = if equal q p then v else f q

pub data Opened : Type 0 where
  failed : ℕ → Opened
  opened : Bytes → Opened

abbrev pub put_file : Bytes → Option Bytes → M (Option ℕ)
put_file p v d = (none, record d { files = set_file p v d.files })

abbrev pub lookup_file : Bytes → M (Option Bytes)
lookup_file p d = (d.files p, d)

module _ (o : Oracle) where
  -- The error of this call.
  abbrev pub fails : M (Option ℕ)
  fails d = (o.fault d.calls, record d { calls = suc d.calls })

  -- `fopen(path, "r")`, with all that can be read from it.
  unfoldable pub fopen : Bytes → M Opened
  fopen p = do
    e ← fails
    elim e [
      | some n ↦ pure (failed n)
      | none ↦ do c ← lookup_file p; pure (elim c [ none ↦ failed enoent | some s ↦ opened s ])
    ]

  -- `mkstemp`: an empty file under a name of its own.
  unfoldable pub mkstemp : Bytes → M (Option ℕ)
  mkstemp p = do e ← fails; elim e [ some n ↦ pure (some n) | none ↦ put_file p (some []) ]

  -- Writing a whole text to an open file, and flushing it.
  unfoldable pub write_all : Bytes → Bytes → M (Option ℕ)
  write_all p s d = elim (o.fault d.calls) [
    | some n ↦ (
      some n,
      record d { files = set_file p (some (take (o.torn d.calls) s)) d.files; calls = suc d.calls },
    )
    | none ↦ (none, record d { files = set_file p (some s) d.files; calls = suc d.calls })
  ]

  unfoldable pub unlink : Bytes → M (Option ℕ)
  unlink p = do
    e ← fails
    elim e [
      | some n ↦ pure (some n)
      | none ↦ do c ← lookup_file p; elim c [ none ↦ pure (some enoent) | some s ↦ put_file p none ]
    ]

  unfoldable pub rename : Bytes → Bytes → M (Option ℕ)
  rename p q = do
    e ← fails
    elim e [
      | some n ↦ pure (some n)
      | none ↦ do
        c ← lookup_file p
        elim c [ none ↦ pure (some enoent) | some s ↦ put_file p none >> put_file q (some s) ]
    ]

  -- `fopen(path, "w")`, the text, and the flush.
  unfoldable pub create_and_write : Bytes → Bytes → M (Option ℕ)
  unfolding write_all
  create_and_write p s = do
    e ← fails
    elim e [ some n ↦ pure (some n) | none ↦ do f ← put_file p (some []); write_all p s ]

  -- `symlink`, with a link that is there taken as made. A link is kept as the path it names.
  unfoldable pub symlink : Bytes → Bytes → M (Option ℕ)
  symlink target p = do
    e ← fails
    elim e [
      | some n ↦ pure (some n)
      | none ↦ do c ← lookup_file p; elim c [ some t ↦ pure none | none ↦ put_file p (some target) ]
    ]

  -- `mkdir`, with a directory that is there taken as made. Directories are not kept.
  unfoldable pub mkdir : Bytes → M Bool
  mkdir p = do e ← fails; pure (elim e [ none ↦ true | some n ↦ n == eexist ])

  -- `open` with O_CREAT, and nothing written.
  unfoldable pub touch : Bytes → M (Option ℕ)
  touch p = do
    e ← fails
    elim e [
      | some n ↦ pure (some n)
      | none ↦ do c ← lookup_file p; elim c [ some s ↦ pure none | none ↦ put_file p (some []) ]
    ]
