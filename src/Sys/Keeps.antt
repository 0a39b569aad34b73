-- ===== src/Sys/Keeps.antt =====
-- Which files a piece of a program leaves alone.
use systemd_cron.Base.{
  suc, none, [], equal_refl, ◌≡◌, ◌≢◌, refl, ◌∙◌, some, Bytes, equal, false, arith,
}
use systemd_cron.Sys.{
  create_and_write, symlink, opened, failed, enoent, Oracle, fails, Disk, M, pure, ◌>>=◌, fopen,
  mkstemp, write_all, unlink, rename,
}

abbrev pub Keeps {ℓ} : {A : Type ℓ} → Bytes → M A → Type 0
Keeps q m = (d : Disk) → (m d).1.files q ≡ d.files q

pub Keeps-bind {ℓ κ} :
    {A : Type ℓ} {B : Type κ} (q : Bytes) (m : M A) (f : A → M B)
    → Keeps q m
    → ((a : A) → Keeps q (f a))
    → Keeps q (m >>= f)
Keeps-bind q m f h k d = k (m d).0 (m d).1 ∙ h d

pub Keeps-pure {ℓ} : {A : Type ℓ} (q : Bytes) (a : A) → Keeps q (pure a)
Keeps-pure q a d = refl

module _ (o : Oracle) (q : Bytes) where
  pub Keeps-fails : Keeps q (fails o)
  Keeps-fails d = refl

  pub Keeps-fopen : (p : Bytes) → Keeps q (fopen o p)
  unfolding fopen
  Keeps-fopen p d = ground arith

  pub Keeps-mkstemp : (p : Bytes) → equal q p ≡ false → Keeps q (mkstemp o p)
  unfolding mkstemp
  Keeps-mkstemp p h d = ground arith

  pub Keeps-write_all : (p s : Bytes) → equal q p ≡ false → Keeps q (write_all o p s)
  unfolding write_all
  Keeps-write_all p s h d = ground arith

  pub Keeps-unlink : (p : Bytes) → equal q p ≡ false → Keeps q (unlink o p)
  unfolding unlink
  Keeps-unlink p h d = ground arith

  pub Keeps-rename : (p r : Bytes) → equal q p ≡ false → equal q r ≡ false → Keeps q (rename o p r)
  unfolding rename
  Keeps-rename p r h k d = ground arith

  -- A rename that fails leaves every file alone.
  pub rename_failed :
      (p r : Bytes) (d : Disk) → (rename o p r d).0 ≢ none → (rename o p r d).1.files q ≡ d.files q
  unfolding rename
  rename_failed p r d h = ground arith

  pub unlink_failed :
      (p : Bytes) (d : Disk) → (unlink o p d).0 ≢ none → (unlink o p d).1.files q ≡ d.files q
  unfolding unlink
  unlink_failed p d h = ground arith

module _ (o : Oracle) (p : Bytes) where
  -- A text that is written in full is in the file.
  pub write_all_done :
      (s : Bytes) (d : Disk) → (write_all o p s d).0 ≡ none → (write_all o p s d).1.files p ≡ some s
  unfolding write_all
  write_all_done s d h = ground (arith, equal_refl p)

  pub mkstemp_done : (d : Disk) → (mkstemp o p d).0 ≡ none → (mkstemp o p d).1.files p ≡ some []
  unfolding mkstemp
  mkstemp_done d h = ground (arith, equal_refl p)

  -- A rename that succeeds moves the text.
  pub rename_done :
      (r s : Bytes) (d : Disk)
      → d.files p ≡ some s
      → (rename o p r d).0 ≡ none
      → (rename o p r d).1.files r ≡ some s
  unfolding rename
  rename_done r s d f h = ground (arith, equal_refl r)

  pub fopen_there :
      (s : Bytes) (d : Disk)
      → o.fault d.calls ≡ none
      → d.files p ≡ some s
      → (fopen o p d).0 ≡ opened s
  unfolding fopen
  fopen_there s d h f = ground arith

  pub fopen_missing :
      (d : Disk) → o.fault d.calls ≡ none → d.files p ≡ none → (fopen o p d).0 ≡ failed enoent
  unfolding fopen
  fopen_missing d h f = ground arith

  pub fopen-calls : (d : Disk) → (fopen o p d).1.calls ≡ suc d.calls
  unfolding fopen
  fopen-calls d = ground arith

  pub create_and_write_done :
      (s : Bytes) (d : Disk)
      → (create_and_write o p s d).0 ≡ none
      → (create_and_write o p s d).1.files p ≡ some s
  unfolding create_and_write write_all
  create_and_write_done s d h = ground (arith, equal_refl p)

  pub Keeps-create_and_write : (q s : Bytes) → equal q p ≡ false → Keeps q (create_and_write o p s)
  unfolding create_and_write write_all
  Keeps-create_and_write q s h d = ground arith

  pub Keeps-symlink : (q target : Bytes) → equal q p ≡ false → Keeps q (symlink o target p)
  unfolding symlink
  Keeps-symlink q target h d = ground arith

  -- The link is there, or what was there in its place.
  pub symlink_done :
      (target : Bytes) (d : Disk)
      → d.files p ≡ none
      → (symlink o target p d).0 ≡ none
      → (symlink o target p d).1.files p ≡ some target
  unfolding symlink
  symlink_done target d f h = ground (arith, equal_refl p)
