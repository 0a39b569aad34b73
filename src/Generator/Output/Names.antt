-- ===== src/Generator/Output/Names.antt =====
-- Units with different names have different files.
use systemd_cron.Base.{
  ◌≡◌, refl, ap, ◌∙◌, sym, ℕ, suc, inl, inr, [], ◌∷◌, ◌++◌, Option, none, some, false, Bytes, codes,
  equal, equal_iff, arith, last?, length, Bool-cases, length-append, ◌==◌,
}
use systemd_cron.Generator.Host.{Host}
use systemd_cron.Generator.Job.{Job}
use systemd_cron.Generator.Output.Frame.{Apart}
use systemd_cron.Generator.Output.Written.{equal-append}
use systemd_cron.Generator.Output.{unit_path, link_path}

cancel_end : (a b s : Bytes) → a ++ s ≡ b ++ s → a ≡ b
cancel_end [] [] s e = refl
cancel_end [] (y ∷ b) s e =
    let lengths : length s ≡ suc (length (b ++ s)) = ap length e in
    absurd (omega (arith, lengths, length-append b s))
cancel_end (x ∷ a) [] s e =
    let lengths : suc (length (a ++ s)) ≡ length s = ap length e in
    absurd (omega (arith, lengths, length-append a s))
cancel_end (x ∷ a) (y ∷ b) s e = ground (arith, e, cancel_end a b s)

last_append : (a : Bytes) (c : ℕ) (s : Bytes) → last? (a ++ c ∷ s) ≡ last? (c ∷ s)
last_append [] c s = refl
last_append (x ∷ []) c s = refl
last_append (x ∷ y ∷ a) c s = last_append (y ∷ a) c s

-- From the difference of two texts to that of their tests.
pub unequal : (a b : Bytes) → (a ≡ b → ⊥) → equal a b ≡ false
unequal a b h = elim (Bool-cases (equal a b)) [
  | inl e ↦ absurd (h ((equal_iff a b).0 e))
  | inr e ↦ e
]

pub different : (a b : Bytes) → equal a b ≡ false → a ≡ b → ⊥
different a b h e = cc (h, (equal_iff a b).1 e)

equal-append_end : (a b s : Bytes) → equal a b ≡ false → equal (a ++ s) (b ++ s) ≡ false
equal-append_end a b s h = unequal (a ++ s) (b ++ s) λ e. different a b h (cancel_end a b s e)

last_byte : Bytes → ℕ
last_byte s = elim (last? s) [ none ↦ 0 | some c ↦ c ]

equal-suffixes :
    (a b : Bytes) (c d : ℕ) (s t : Bytes)
    → (last_byte (c ∷ s) == last_byte (d ∷ t)) ≡ false
    → equal (a ++ c ∷ s) (b ++ d ∷ t) ≡ false
unfolding last_byte
equal-suffixes a b c d s t h = unequal (a ++ c ∷ s) (b ++ d ∷ t) λ e.
    let lasts = sym (last_append a c s) ∙ ap last? e ∙ last_append b d t in
    let bytes = ap (λ (o : Option ℕ). let n : ℕ = elim o [ none ↦ 0 | some v ↦ v ] in n) lasts in
    absurd (ground (arith, h, bytes))

module _ (host : Host) (j k : Job) where
  paths :
      (s t : Bytes)
      → equal (j.unit_name ++ s) (k.unit_name ++ t) ≡ false
      → equal (unit_path host j s) (unit_path host k t) ≡ false
  paths s t h =
      equal-append host.target_dir (codes "/" ++ (j.unit_name ++ s))
        (codes "/" ++ (k.unit_name ++ t))
      ∙ equal-append (codes "/") (j.unit_name ++ s) (k.unit_name ++ t)
      ∙ h

  unit_not_link :
      (x s : Bytes)
      → j.unit_name ≡ codes "cron-" ++ x
      → equal (unit_path host j s) (link_path host k) ≡ false
  unfolding equal
  unit_not_link x s named =
      equal-append host.target_dir (codes "/" ++ (j.unit_name ++ s))
        (codes "/cron.target.wants/" ++ (k.unit_name ++ codes ".timer"))
      ∙ rw named refl

  link_not_unit :
      (y t : Bytes)
      → k.unit_name ≡ codes "cron-" ++ y
      → equal (link_path host j) (unit_path host k t) ≡ false
  unfolding equal
  link_not_unit y t named =
      equal-append host.target_dir (codes "/cron.target.wants/" ++ (j.unit_name ++ codes ".timer"))
        (codes "/" ++ (k.unit_name ++ t))
      ∙ rw named refl

  links :
      equal j.unit_name k.unit_name ≡ false → equal (link_path host j) (link_path host k) ≡ false
  links h =
      equal-append host.target_dir (codes "/cron.target.wants/" ++ (j.unit_name ++ codes ".timer"))
        (codes "/cron.target.wants/" ++ (k.unit_name ++ codes ".timer"))
      ∙ equal-append (codes "/cron.target.wants/") (j.unit_name ++ codes ".timer")
          (k.unit_name ++ codes ".timer")
      ∙ equal-append_end j.unit_name k.unit_name (codes ".timer") h

  module _ (x y : Bytes) (named : j.unit_name ≡ codes "cron-" ++ x)
      (other : k.unit_name ≡ codes "cron-" ++ y) (h : equal j.unit_name k.unit_name ≡ false) where
    same_suffix : (s : Bytes) → equal (unit_path host j s) (unit_path host k s) ≡ false
    same_suffix s = paths s s (equal-append_end j.unit_name k.unit_name s h)

    pub timer-Apart : Apart host k (unit_path host j (codes ".timer"))
    unfolding last_byte
    timer-Apart = record {
      script =
          paths _ _
            (equal-suffixes j.unit_name k.unit_name b'.' b'.' (codes "timer") (codes "sh") refl);
      timer = same_suffix (codes ".timer");
      service =
          paths _ _ (
            equal-suffixes j.unit_name k.unit_name b'.' b'.' (codes "timer") (codes "service")
              refl);
      link = unit_not_link x (codes ".timer") named;
    }

    pub service-Apart : Apart host k (unit_path host j (codes ".service"))
    unfolding last_byte
    service-Apart = record {
      script =
          paths _ _
            (equal-suffixes j.unit_name k.unit_name b'.' b'.' (codes "service") (codes "sh") refl);
      timer =
          paths _ _ (
            equal-suffixes j.unit_name k.unit_name b'.' b'.' (codes "service") (codes "timer")
              refl);
      service = same_suffix (codes ".service");
      link = unit_not_link x (codes ".service") named;
    }

    pub link-Apart : Apart host k (link_path host j)
    link-Apart = record {
      script = link_not_unit y (codes ".sh") other;
      timer = link_not_unit y (codes ".timer") other;
      service = link_not_unit y (codes ".service") other;
      link = links h;
    }
