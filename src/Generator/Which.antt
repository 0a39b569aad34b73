-- ===== src/Generator/Which.antt =====
-- `which` of src/bin/systemd-crontab-generator.cpp, and HAS_SENDMAIL.
mod Tests
use systemd_cron.Base.{
  ◌≡◌, refl, inl, inr, List, [], ◌∷◌, ◌++◌, Option, none, some, Bool, true, false, ◌||◌,
  if◌then◌else◌, Bytes, codes, In, Bool-cases, all, not, arith,
}
use systemd_cron.Vore.Tokenise.{texts, soft_tokenise}

abbrev pub under : Bytes → Bytes → Bytes
under exe path = path ++ codes "/" ++ exe

module _ (executable : Bytes → Bool) (exe : Bytes) where
  unfoldable pub first_executable : List Bytes → Option Bytes
  first_executable [] = none
  first_executable (path ∷ paths) =
      let rest = first_executable paths in
      if executable (under exe path) then some (under exe path) else rest

  -- `paths` stands for PATH where it is not given.
  unfoldable pub which : Option Bytes → Option Bytes → Option Bytes
  unfolding first_executable
  which env paths =
      let default : Bytes = elim env [ none ↦ codes "/usr/bin:/bin" | some p ↦ p ] in
      let from : Bytes = elim paths [ none ↦ default | some p ↦ p ] in
      first_executable (texts (soft_tokenise from (codes ":")))

  -- What is found is executable, under one of the directories; where nothing is, none of them has it.
  pub first_executable-some :
      (paths : List Bytes) (p : Bytes)
      → first_executable paths ≡ some p
      → (executable p ≡ true) × ((path : Bytes) × In path paths × (p ≡ under exe path))
  unfolding first_executable
  first_executable-some [] p h = cc
  first_executable-some (path ∷ paths) p h = elim (Bool-cases (executable (under exe path))) [
    | inl e ↦
        let same : p ≡ under exe path = ground (arith, h, e) in (rw same e, (path, inl refl, same))
    | inr e ↦
        let (runs, (q, m, same)) = first_executable-some paths p (ground (arith, h, e)) in
        (runs, (q, inr m, same))
  ]

  pub first_executable-none :
      (paths : List Bytes)
      → first_executable paths ≡ none
      → all (λ path. not (executable (under exe path))) paths ≡ true
  unfolding first_executable
  first_executable-none [] h = refl
  first_executable-none (path ∷ paths) h = ground (arith, first_executable-none paths)

-- `Host.has_sendmail` is this.
unfoldable pub has_sendmail : (Bytes → Bool) → (Bytes → Option Bytes) → Bool
unfolding which
has_sendmail executable getenv =
    let given : Bool = elim (getenv (codes "SENDMAIL")) [ none ↦ false | some s ↦ executable s ] in
    let found : Option Bytes → Bool = λ paths.
      elim (which executable (codes "sendmail") (getenv (codes "PATH")) paths) [
        | none ↦ false
        | some p ↦ true
      ] in
    given || found none || found (some (codes "/usr/sbin:/usr/lib"))
