-- ===== src/Base/Lists.antt =====
-- Rows of a table as a list: selection, update and counting by a Boolean test.
use Prim.Native.Nat.{ℕ, suc, ◌+◌}
use mathlib.Core.Path.{◌≡◌, refl}
use mathlib.Core.Bool.{Bool, true, false, not, ◌&&◌, ◌||◌}
use mathlib.Core.List.{List, [], ◌∷◌, ◌++◌}
use mathlib.Core.Option.{Option, none, some}
use native.Mathlib.Omega.{arith}
use kairos_booking_engine.Base.Tests.{if◌then◌else◌}

module _ {ℓ} {A : Type ℓ} where
  abbrev pub length : List A → ℕ
  length [] = 0
  length (x ∷ xs) = suc (length xs)

  abbrev pub any : (A → Bool) → List A → Bool
  any p [] = false
  any p (x ∷ xs) = p x || any p xs

  abbrev pub all : (A → Bool) → List A → Bool
  all p [] = true
  all p (x ∷ xs) = p x && all p xs

  abbrev pub select : (A → Bool) → List A → List A
  select p [] = []
  select p (x ∷ xs) = let rest = select p xs in if p x then x ∷ rest else rest

  abbrev pub find? : (A → Bool) → List A → Option A
  find? p [] = none
  find? p (x ∷ xs) = if p x then some x else find? p xs

  abbrev pub count_where : (A → Bool) → List A → ℕ
  count_where p [] = 0
  count_where p (x ∷ xs) = (if p x then 1 else 0) + count_where p xs

  abbrev pub update_where : (A → Bool) → (A → A) → List A → List A
  update_where p f [] = []
  update_where p f (x ∷ xs) = (if p x then f x else x) ∷ update_where p f xs

  -- No row clashes with a later one.
  abbrev pub distinct_by : (A → A → Bool) → List A → Bool
  distinct_by c [] = true
  distinct_by c (x ∷ xs) = not (any (c x) xs) && distinct_by c xs

  -- A predicate of every element, as nested pairs.
  abbrev pub All {κ} : (A → Type κ) → List A → Type κ
  All P [] = Unit
  All P (x ∷ xs) = P x × All P xs

module _ {ℓ} {A : Type ℓ} where
  pub any-append : (p : A → Bool) (xs ys : List A) → any p (xs ++ ys) ≡ (any p xs || any p ys)
  any-append p [] ys = refl
  any-append p (x ∷ xs) ys = ground (arith, any-append p xs ys)

  pub all-append : (p : A → Bool) (xs ys : List A) → all p (xs ++ ys) ≡ (all p xs && all p ys)
  all-append p [] ys = refl
  all-append p (x ∷ xs) ys = ground (arith, all-append p xs ys)

  pub count_where-append :
      (p : A → Bool) (xs ys : List A)
      → count_where p (xs ++ ys) ≡ count_where p xs + count_where p ys
  count_where-append p [] ys = omega arith
  count_where-append p (x ∷ xs) ys = omega (arith, count_where-append p xs ys)

  pub all-select : (q p : A → Bool) (xs : List A) → all q xs ≡ true → all q (select p xs) ≡ true
  all-select q p [] h = refl
  all-select q p (x ∷ xs) h = ground (arith, all-select q p xs)

  pub any-select-false :
      (q p : A → Bool) (xs : List A) → any q xs ≡ false → any q (select p xs) ≡ false
  any-select-false q p [] h = refl
  any-select-false q p (x ∷ xs) h = ground (arith, any-select-false q p xs)

  -- Nothing matches: the update changes no row.
  pub update_where_none :
      (p : A → Bool) (f : A → A) (xs : List A) → any p xs ≡ false → update_where p f xs ≡ xs
  update_where_none p f [] h = refl
  update_where_none p f (x ∷ xs) h = ground (arith, update_where_none p f xs)

  pub all-update :
      (q p : A → Bool) (f : A → A) (xs : List A)
      → ((a : A) → q a ≡ true → p a ≡ true → q (f a) ≡ true)
      → all q xs ≡ true
      → all q (update_where p f xs) ≡ true
  all-update q p f [] keep h = refl
  all-update q p f (x ∷ xs) keep h = ground (arith, keep x, all-update q p f xs keep)

  pub any-update_false :
      (q r p : A → Bool) (f : A → A) (xs : List A)
      → ((a : A) → r (if p a then f a else a) ≡ true → q a ≡ true)
      → any q xs ≡ false
      → any r (update_where p f xs) ≡ false
  any-update_false q r p f [] back h = refl
  any-update_false q r p f (x ∷ xs) back h =
      ground (arith, back x, any-update_false q r p f xs back)

  -- An update that makes no new clash keeps the rows apart.
  pub distinct_by-update :
      (c : A → A → Bool) (p : A → Bool) (f : A → A) (xs : List A)
      → ((a b : A) → c (if p a then f a else a) (if p b then f b else b) ≡ true → c a b ≡ true)
      → distinct_by c xs ≡ true
      → distinct_by c (update_where p f xs) ≡ true
  distinct_by-update c p f [] back h = refl
  distinct_by-update c p f (x ∷ xs) back h = ground (
    arith,
    any-update_false (c x) (c (if p x then f x else x)) p f xs (back x),
    distinct_by-update c p f xs back,
  )

  pub distinct_by-select :
      (c : A → A → Bool) (p : A → Bool) (xs : List A)
      → distinct_by c xs ≡ true
      → distinct_by c (select p xs) ≡ true
  distinct_by-select c p [] h = refl
  distinct_by-select c p (x ∷ xs) h =
      ground (arith, any-select-false (c x) p xs, distinct_by-select c p xs)

  -- What the first match is, the test says.
  pub find?-holds : (p : A → Bool) (xs : List A) (a : A) → find? p xs ≡ some a → p a ≡ true
  find?-holds p [] a h = cc
  find?-holds p (x ∷ xs) a h = ground (arith, find?-holds p xs a)

  pub any_of_find? : (p : A → Bool) (xs : List A) (a : A) → find? p xs ≡ some a → any p xs ≡ true
  any_of_find? p [] a h = cc
  any_of_find? p (x ∷ xs) a h = ground (arith, any_of_find? p xs a)

  pub count_where_none : (p : A → Bool) (xs : List A) → any p xs ≡ false → count_where p xs ≡ 0
  count_where_none p [] h = refl
  count_where_none p (x ∷ xs) h = ground (arith, count_where_none p xs)
