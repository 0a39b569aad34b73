-- ===== src/Generator/Run.antt =====
-- What running a piece of the generator can come to: a result, a read outside an array, or a loop
-- that has used up its fuel.
use systemd_cron.Base.{◌≡◌, refl, Bool, true, false, if◌then◌else◌}

pub data Run {ℓ} (A : Type ℓ) : Type ℓ where
  done : A → Run A
  out_of_bounds : Run A
  spinning : Run A

infixl 5 ◌>>=◌
abbrev pub ◌>>=◌ {ℓ κ} : {A : Type ℓ} {B : Type κ} → Run A → (A → Run B) → Run B
done a >>= f = f a
out_of_bounds >>= f = out_of_bounds
spinning >>= f = spinning

pub >>=-eq-done {ℓ κ} :
    {A : Type ℓ} {B : Type κ} (m : Run A) (f : A → Run B) {b : B}
    → (m >>= f) ≡ done b
    → (a : A) × (m ≡ done a) × (f a ≡ done b)
>>=-eq-done (done a) f h = (a, refl, h)
>>=-eq-done out_of_bounds f h = cc
>>=-eq-done spinning f h = cc

abbrev pub is_done {ℓ} : {A : Type ℓ} → Run A → Bool
is_done (done a) = true
is_done out_of_bounds = false
is_done spinning = false

pub is_done-bind {ℓ κ} :
    {A : Type ℓ} {B : Type κ} (m : Run A) (f : A → Run B)
    → is_done m ≡ true
    → ((a : A) → is_done (f a) ≡ true)
    → is_done (m >>= f) ≡ true
is_done-bind (done a) f h k = k a
is_done-bind out_of_bounds f h k = cc
is_done-bind spinning f h k = cc

-- What holds of the result, where there is one.
abbrev pub Result : {A : Type 0} → (A → Type 0) → Run A → Type 0
Result P (done a) = P a
Result P out_of_bounds = Unit
Result P spinning = Unit

pub record Holds {A : Type 0} (P : A → Type 0) (m : Run A) : Type 0 where
  pub result : Result P m

module _ {B : Type 0} {Q : B → Type 0} where
  pub Holds-bind :
      {A : Type 0} (P : A → Type 0) (m : Run A) (f : A → Run B)
      → Holds P m
      → ((a : A) → P a → Holds Q (f a))
      → Holds Q (m >>= f)
  Holds-bind P (done a) f h k = k a h.result
  Holds-bind P out_of_bounds f h k = record { result = tt }
  Holds-bind P spinning f h k = record { result = tt }

  pub Holds-after :
      {A : Type 0} (m : Run A) (f : A → Run B) → ((a : A) → Holds Q (f a)) → Holds Q (m >>= f)
  Holds-after (done a) f k = k a
  Holds-after out_of_bounds f k = record { result = tt }
  Holds-after spinning f k = record { result = tt }

  pub Holds-if : (b : Bool) (m n : Run B) → Holds Q m → Holds Q n → Holds Q (if b then m else n)
  Holds-if true m n h k = h
  Holds-if false m n h k = k

-- What holds stays true where less is asked.
pub Holds-weaken :
    {A : Type 0} {P Q : A → Type 0} {m : Run A} → Holds P m → ((a : A) → P a → Q a) → Holds Q m
Holds-weaken {A} {P} {Q} {m} h k = go m h.result
  where
    go : (n : Run A) → Result P n → Holds Q n
    go (done a) r = record { result = k a r }
    go out_of_bounds r = record { result = tt }
    go spinning r = record { result = tt }
