-- ===== src/Generator/Period/Dispatch.antt =====
-- Which loop a text of `parse_period` leads to.
use systemd_cron.Base.{ℕ, ◌≡◌, refl, List, false, none, some, Bytes, codes, equal, cut, contains}
use systemd_cron.Generator.Field.{Mapping, int_map}
use systemd_cron.Generator.OrderedSet.{Less}
use systemd_cron.Generator.Period.{Target, Engine, star, between, tilde, ranged, parse_period}

module _ (draw : Engine) {A : Type 0} ⦃o : Less A⦄ (values : List A) (mapping : Mapping) (base : ℕ)
    (t : Target A) where
  pub parse_period_stepped :
      (value range rest : Bytes) (s : ℕ)
      → cut b'/' value ≡ some (range, rest)
      → contains b'/' rest ≡ false
      → int_map rest false false ≡ (s, false)
      → parse_period draw values mapping base value t ≡ ranged draw values mapping base range s t
  unfolding parse_period
  parse_period_stepped value range rest s e f g = rw (e, parse_period) (rw f (rw g))

  pub parse_period_plain :
      (value : Bytes)
      → cut b'/' value ≡ none
      → parse_period draw values mapping base value t ≡ ranged draw values mapping base value 1 t
  unfolding parse_period
  parse_period_plain value e = rw (e, parse_period)

  pub ranged-star : (s : ℕ) → ranged draw values mapping base (codes "*") s t ≡ star values s t
  unfolding ranged equal
  ranged-star s = refl

  pub ranged_dashed :
      (range start end : Bytes) (s : ℕ)
      → equal range (codes "*") ≡ false
      → cut b'~' range ≡ none
      → cut b'-' range ≡ some (start, end)
      → contains b'-' end ≡ false
      → ranged draw values mapping base range s t ≡ between values mapping base s start end t
  unfolding ranged
  ranged_dashed range start end s e f g h = rw (e, f, g, ranged) (rw h)

  pub ranged_single :
      (range : Bytes) (s : ℕ)
      → equal range (codes "*") ≡ false
      → cut b'~' range ≡ none
      → cut b'-' range ≡ none
      → ranged draw values mapping base range s t ≡ between values mapping base s range range t
  unfolding ranged
  ranged_single range s e f g = rw (e, f, g, ranged)

  pub ranged-tilde :
      (range start end : Bytes) (s : ℕ)
      → equal range (codes "*") ≡ false
      → cut b'~' range ≡ some (start, end)
      → contains b'~' end ≡ false
      → ranged draw values mapping base range s t ≡ tilde draw values mapping base start end t
  unfolding ranged
  ranged-tilde range start end s e f h = rw (e, f, ranged) (rw h)
