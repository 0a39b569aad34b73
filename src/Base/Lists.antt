-- ===== src/Base/Lists.antt =====
-- Lists measured and indexed by native numbers, predicates over lists, and ordered sets.
use Prim.Native.Nat.{ℕ, zero, suc, ◌+◌, ◌≤◌, ◌<◌}
use mathlib.Core.Path.{◌≡◌, refl}
use mathlib.Core.Logic.{◌⊎◌}
use mathlib.Core.Bool.{Bool, true, ◌&&◌}
use mathlib.Core.List.{List, [], ◌∷◌, ◌++◌}
use mathlib.Core.Option.{Option, none, some}
use native.Mathlib.Omega.{arith}
use systemd_cron.Base.Tests.{if◌then◌else◌}

module _ {ℓ} {A : Type ℓ} where
  abbrev pub length : List A → ℕ
  length [] = 0
  length (x ∷ xs) = suc (length xs)

  abbrev pub get_elem? : List A → ℕ → Option A
  get_elem? [] i = none
  get_elem? (x ∷ xs) zero = some x
  get_elem? (x ∷ xs) (suc i) = get_elem? xs i

  abbrev pub take : ℕ → List A → List A
  take zero xs = []
  take (suc n) [] = []
  take (suc n) (x ∷ xs) = x ∷ take n xs

  abbrev pub drop : ℕ → List A → List A
  drop zero xs = xs
  drop (suc n) [] = []
  drop (suc n) (x ∷ xs) = drop n xs

  -- `back()`, with `none` where the sequence is empty.
  abbrev pub last? : List A → Option A
  last? [] = none
  last? (x ∷ []) = some x
  last? (x ∷ y ∷ xs) = last? (y ∷ xs)

  -- `remove_suffix(1)`.
  abbrev pub init : List A → List A
  init [] = []
  init (x ∷ []) = []
  init (x ∷ y ∷ xs) = x ∷ init (y ∷ xs)

  -- The longest prefix that passes the test, and what follows it.
  abbrev pub take_while : (A → Bool) → List A → List A
  take_while p [] = []
  take_while p (x ∷ xs) = if p x then x ∷ take_while p xs else []

  abbrev pub drop_while : (A → Bool) → List A → List A
  drop_while p [] = []
  drop_while p (x ∷ xs) = if p x then drop_while p xs else x ∷ xs

  abbrev pub keep : (A → Bool) → List A → List A
  keep p [] = []
  keep p (x ∷ xs) = if p x then x ∷ keep p xs else keep p xs

  abbrev pub all : (A → Bool) → List A → Bool
  all p [] = true
  all p (x ∷ xs) = p x && all p xs

  abbrev pub concat : List (List A) → List A
  concat [] = []
  concat (x ∷ xs) = x ++ concat xs

  pub length-append : (xs ys : List A) → length (xs ++ ys) ≡ length xs + length ys
  length-append [] ys = omega arith
  length-append (x ∷ xs) ys = omega (arith, length-append xs ys)

  pub take_while-append-drop_while :
      (p : A → Bool) (xs : List A) → take_while p xs ++ drop_while p xs ≡ xs
  take_while-append-drop_while p [] = refl
  take_while-append-drop_while p (x ∷ xs) = ground (arith, take_while-append-drop_while p xs)

  pub length-drop_while : (p : A → Bool) (xs : List A) → length (drop_while p xs) ≤ length xs
  length-drop_while p [] = omega arith
  length-drop_while p (x ∷ xs) = ground (arith, length-drop_while p xs)

module _ {ℓ} {A : Type ℓ} where
  pub get_elem?-some : (xs : List A) (i : ℕ) → i < length xs → (x : A) × (get_elem? xs i ≡ some x)
  get_elem?-some [] i h = elim h [ ]
  get_elem?-some (x ∷ xs) zero h = (x, refl)
  get_elem?-some (x ∷ xs) (suc i) h = get_elem?-some xs i (omega arith)

  pub get_elem?-lt : (xs : List A) (i : ℕ) (x : A) → get_elem? xs i ≡ some x → i < length xs
  get_elem?-lt [] i x h = cc
  get_elem?-lt (y ∷ xs) zero x h = omega arith
  get_elem?-lt (y ∷ xs) (suc i) x h = omega (arith, get_elem?-lt xs i x h)

module _ {ℓ} {A : Type ℓ} (p : A → Bool) where
  pub all-append : (xs ys : List A) → all p (xs ++ ys) ≡ (all p xs && all p ys)
  all-append [] ys = refl
  all-append (x ∷ xs) ys = ground (arith, all-append xs ys)

  pub all-take_while : (xs : List A) → all p (take_while p xs) ≡ true
  all-take_while [] = refl
  all-take_while (x ∷ xs) = ground (arith, all-take_while xs)

  pub all-keep : (xs : List A) → all p (keep p xs) ≡ true
  all-keep [] = refl
  all-keep (x ∷ xs) = ground (arith, all-keep xs)

  pub take_while-append :
      (xs ys : List A) → all p xs ≡ true → take_while p (xs ++ ys) ≡ xs ++ take_while p ys
  take_while-append [] ys h = refl
  take_while-append (x ∷ xs) ys h = ground (arith, take_while-append xs ys)

  pub drop_while-append :
      (xs ys : List A) → all p xs ≡ true → drop_while p (xs ++ ys) ≡ drop_while p ys
  drop_while-append [] ys h = refl
  drop_while-append (x ∷ xs) ys h = ground (arith, drop_while-append xs ys)

module _ {ℓ} {A : Type ℓ} (p : A → Bool) where
  pub take_while-all : (xs : List A) → all p xs ≡ true → take_while p xs ≡ xs
  take_while-all [] h = refl
  take_while-all (x ∷ xs) h = ground (arith, take_while-all xs)

  pub drop_while-all : (xs : List A) → all p xs ≡ true → drop_while p xs ≡ []
  drop_while-all [] h = refl
  drop_while-all (x ∷ xs) h = ground (arith, drop_while-all xs)

  pub all_of_drop_while : (xs : List A) → drop_while p xs ≡ [] → all p xs ≡ true
  all_of_drop_while [] h = refl
  all_of_drop_while (x ∷ xs) h = ground (arith, all_of_drop_while xs)

-- Membership, by recursion: a value that is at hand in some place of the list.
abbrev pub In : {A : Type 0} → A → List A → Type 0
In a [] = ⊥
In a (x ∷ xs) = (a ≡ x) ⊎ In a xs

-- Every member has the property.
abbrev pub Every {ℓ} : {A : Type ℓ} → (A → Type 0) → List A → Type 0
Every P [] = Unit
Every P (x ∷ xs) = P x × Every P xs
