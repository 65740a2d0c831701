-- ===== src/Prelude/Lists.antt =====
-- Lists measured by native numbers, filtered by Boolean tests, and predicates on their elements.
use Prim.Native.Nat.{ℕ, suc, ◌+◌}
use mathlib.Core.Path.{◌≡◌, refl, subst}
use mathlib.Core.Logic.{inl, inr}
use mathlib.Core.Bool.{Bool, true, false, ◌||◌}
use mathlib.Core.Option.{Option, none, some}
use mathlib.Core.List.{List, [], ◌∷◌, ◌++◌}
use native.Mathlib.Omega.{arith}
use pairly.Prelude.Tests.{if◌then◌else◌, Bool-cases}

module _ {ℓ} {A : Type ℓ} where
  abbrev pub length : List A → ℕ
  length [] = 0
  length (x ∷ xs) = suc (length xs)

  -- The elements that pass the test, in order: a SQL `WHERE`.
  unfoldable pub keep : (A → Bool) → List A → List A
  keep p [] = []
  keep p (x ∷ xs) = let rest = keep p xs in if p x then x ∷ rest else rest

  -- Is there an element that passes the test?
  unfoldable pub any : (A → Bool) → List A → Bool
  any p [] = false
  any p (x ∷ xs) = p x || any p xs

  -- The first element that passes the test: a SQL `SELECT` of one row.
  unfoldable pub find : (A → Bool) → List A → Option A
  find p [] = none
  find p (x ∷ xs) = let rest = find p xs in if p x then some x else rest

  -- The change, on the elements that pass the test: a SQL `UPDATE`.
  unfoldable pub update : (A → Bool) → (A → A) → List A → List A
  update p f [] = []
  update p f (x ∷ xs) = (if p x then f x else x) ∷ update p f xs

  abbrev pub All {κ} : (A → Type κ) → List A → Type κ
  All P [] = Unit
  All P (x ∷ xs) = P x × All P xs

module _ {ℓ} {A : Type ℓ} where
  pub length-append : (xs ys : List A) → length (xs ++ ys) ≡ length xs + length ys
  length-append [] ys = omega arith
  length-append (x ∷ xs) ys = omega (arith, length-append xs ys)

  pub find-IsHit : (p : A → Bool) (xs : List A) (x : A) → find p xs ≡ some x → p x ≡ true
  unfolding find
  find-IsHit p [] x h = ground arith
  find-IsHit p (y ∷ xs) x h = ground (arith, find-IsHit p xs x)

  pub any-find : (p : A → Bool) (xs : List A) → any p xs ≡ false → find p xs ≡ none
  unfolding find any
  any-find p [] h = refl
  any-find p (x ∷ xs) h = ground (arith, any-find p xs)

  pub find-keep_ne :
      (p q : A → Bool) (xs : List A)
      → ((x : A) → q x ≡ true → p x ≡ true)
      → find q (keep p xs) ≡ find q xs
  unfolding find keep
  find-keep_ne p q [] h = refl
  find-keep_ne p q (x ∷ xs) h = ground (arith, find-keep_ne p q xs h, h x)

  -- A row that is added does not hide one that was found.
  pub find-append :
      (p : A → Bool) (xs ys : List A) (x : A) → find p xs ≡ some x → find p (xs ++ ys) ≡ some x
  unfolding find
  find-append p [] ys x h = absurd (cc)
  find-append p (y ∷ xs) ys x h = ground (arith, find-append p xs ys x)

  pub find-append_new :
      (p : A → Bool) (xs ys : List A) → find p xs ≡ none → find p (xs ++ ys) ≡ find p ys
  unfolding find
  find-append_new p [] ys h = refl
  find-append_new p (y ∷ xs) ys h = ground (arith, find-append_new p xs ys)

  pub find-keep-none :
      (p q : A → Bool) (xs : List A)
      → ((x : A) → q x ≡ true → p x ≡ false)
      → find q (keep p xs) ≡ none
  unfolding find keep
  find-keep-none p q [] h = refl
  find-keep-none p q (x ∷ xs) h = ground (arith, find-keep-none p q xs h, h x)

module _ {ℓ κ} {A : Type ℓ} (P : A → Type κ) where
  pub All-append : (xs ys : List A) → All P xs → All P ys → All P (xs ++ ys)
  All-append [] ys hx hy = hy
  All-append (x ∷ xs) ys hx hy = (hx.0, All-append xs ys hx.1 hy)

  pub All-keep : (p : A → Bool) (xs : List A) → All P xs → All P (keep p xs)
  unfolding keep
  All-keep p [] h = h
  All-keep p (x ∷ xs) h = elim (Bool-cases (p x)) [
    | inl e ↦ rw e (h.0, All-keep p xs h.1)
    | inr e ↦ rw e (All-keep p xs h.1)
  ]

  pub All-update :
      (p : A → Bool) (f : A → A) (xs : List A)
      → ((x : A) → p x ≡ true → P x → P (f x))
      → All P xs
      → All P (update p f xs)
  unfolding update
  All-update p f [] k h = h
  All-update p f (x ∷ xs) k h = elim (Bool-cases (p x)) [
    | inl e ↦ rw e (k x e h.0, All-update p f xs k h.1)
    | inr e ↦ rw e (h.0, All-update p f xs k h.1)
  ]

  pub All-find : (p : A → Bool) (xs : List A) (x : A) → All P xs → find p xs ≡ some x → P x
  unfolding find
  All-find p [] x h e = absurd (cc)
  All-find p (y ∷ xs) x h e = elim (Bool-cases (p y)) [
    | inl t ↦ subst P (ground arith) h.0
    | inr t ↦ All-find p xs x h.1 (ground arith)
  ]

module _ {ℓ κ μ} {A : Type ℓ} {P : A → Type κ} {Q : A → Type μ} where
  pub All-map : ((x : A) → P x → Q x) → (xs : List A) → All P xs → All Q xs
  All-map f [] h = tt
  All-map f (x ∷ xs) h = (f x h.0, All-map f xs h.1)
