-- ===== src/Generator/Job/Calendar/Read.antt =====
-- The calendar expression of a job, read back.
use systemd_cron.Base.{
  ℕ, ◌≡◌, refl, List, [], ◌∷◌, ◌++◌, some, Bool, true, false, ◌==◌, arith, append-nil, Bytes, codes,
  contains, contains-append, cut, cut-append, cut-eq-none, Option-cases, inl, inr,
}
use systemd_cron.Generator.Job.Calendar.Fields.{is_mark}
use systemd_cron.Generator.Job.Calendar.{
  halves, day_part, read_time, read_calendar, read_field, read_days,
}

-- The texts one after the other, as the code joins them.
abbrev pub chain : Bytes → List Bytes → Bytes
chain s [] = s
chain s (t ∷ ts) = chain (s ++ t) ts

cut-prefix :
    (c : ℕ) (s t : Bytes) {a b : Bytes} → cut c s ≡ some (a, b) → cut c (s ++ t) ≡ some (a, b ++ t)
unfolding cut
cut-prefix c [] t h = cc
cut-prefix c (x ∷ s) t {a} {b} h = elim (Option-cases (cut c s)) [
  | inl none_there ↦ ground arith
  | inr ((p, q), found) ↦ ground (arith, found, cut-prefix c s t found)
]

cut-chain :
    (c : ℕ) (s : Bytes) (ts : List Bytes) {a b : Bytes}
    → cut c s ≡ some (a, b)
    → cut c (chain s ts) ≡ some (a, chain b ts)
cut-chain c s [] h = h
cut-chain c s (t ∷ ts) h = cut-chain c (s ++ t) ts (cut-prefix c s t h)

-- A text of digits, asterisks and commas.
pub record IsPlain (s : Bytes) : Type 0 where
  pub lacks : (c : ℕ) → is_mark c ≡ true → (b',' == c) ≡ false → contains c s ≡ false

module _ (h mi : Bytes) (ph : IsPlain h) (pi : IsPlain mi) where
  read_time-chain : read_time (chain h (codes ":" ∷ mi ∷ codes ":00" ∷ [])) ≡ some (h, mi)
  read_time-chain =
      let hour =
        cut-chain b':' (h ++ codes ":") (mi ∷ codes ":00" ∷ [])
          (cut-append b':' h [] (ph.lacks b':' refl refl)) in
      let minute = cut-append b':' mi (codes "00") (pi.lacks b':' refl refl) in
      rw (hour, read_time) (rw minute refl)

module _ (m day : Bytes) (pm : IsPlain m) (pd : IsPlain day) where
  -- The months and the days, with what stands between and behind them.
  pub halves_from_end :
      (behind : Bytes)
      → halves (chain m (codes "~" ∷ day ∷ behind ∷ [])) ≡ some (m, true, day ++ behind)
  halves_from_end behind =
      rw
        (
          cut-chain b'~' (m ++ codes "~") (day ∷ behind ∷ [])
              (cut-append b'~' m [] (pm.lacks b'~' refl refl)),
          halves,
        )
        refl

  pub halves_from_start : halves (chain m (codes "-" ∷ day ∷ [] ∷ [])) ≡ some (m, false, day ++ [])
  unfolding contains
  halves_from_start =
      let none_before : contains b'~' (m ++ codes "-" ++ day ++ []) ≡ false = ground (
        arith,
        append-nil (m ++ codes "-" ++ day),
        contains-append b'~' (m ++ codes "-") day,
        contains-append b'~' m (codes "-"),
        pm.lacks b'~' refl refl,
        pd.lacks b'~' refl refl,
      ) in
      rw (cut-eq-none b'~' (m ++ codes "-" ++ day ++ []) none_before, halves)
        (rw
          (cut-chain b'-' (m ++ codes "-") (day ∷ [] ∷ [])
            (cut-append b'-' m [] (pm.lacks b'-' refl refl)))
          refl)

module _ (day : Bytes) (pd : IsPlain day) where
  pub day_part_repeated : day_part (day ++ codes "/1") ≡ (day, true)
  day_part_repeated = rw (cut-append b'/' day (codes "1") (pd.lacks b'/' refl refl), day_part) refl

  pub day_part_once : day_part (day ++ []) ≡ (day, false)
  day_part_once =
      rw (append-nil day) (rw (cut-eq-none b'/' day (pd.lacks b'/' refl refl), day_part) refl)

module _ (m day h mi : Bytes) (ph : IsPlain h) (pi : IsPlain mi) where
  -- A whole expression, with the months and days that `halves` finds in it.
  pub read_calendar-chain :
      (d mark behind tail : Bytes) (from_end repeated : Bool)
      → contains b'*' d ≡ false
      → contains b' ' (chain m (mark ∷ day ∷ behind ∷ [])) ≡ false
      → halves (chain m (mark ∷ day ∷ behind ∷ [])) ≡ some (m, from_end, tail)
      → day_part tail ≡ (day, repeated)
      → read_calendar (
          chain d (
            codes "*-"
            ∷ m
            ∷ mark
            ∷ day
            ∷ behind
            ∷ codes " "
            ∷ h
            ∷ codes ":"
            ∷ mi
            ∷ codes ":00"
            ∷ []))
        ≡ some (record {
          days = read_days d;
          month = read_field m;
          dom = read_field day;
          from_end = from_end;
          repeated = repeated;
          hour = read_field h;
          minute = read_field mi;
        })
  unfolding read_calendar
  read_calendar-chain d mark behind tail from_end repeated no_star no_blank date part =
      let days =
        cut-chain b'*' (d ++ codes "*-")
          (m ∷ mark ∷ day ∷ behind ∷ codes " " ∷ h ∷ codes ":" ∷ mi ∷ codes ":00" ∷ [])
          (cut-append b'*' d (codes "-") no_star) in
      let whole = chain m (mark ∷ day ∷ behind ∷ []) in
      let time =
        cut-chain b' ' (whole ++ codes " ") (h ∷ codes ":" ∷ mi ∷ codes ":00" ∷ [])
          (cut-append b' ' whole [] no_blank) in
      rw (days, read_calendar) (rw time (rw date (rw (read_time-chain h mi ph pi, part) refl)))
