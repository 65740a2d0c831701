-- ===== src/Prelude/Rows.antt =====
-- Rows of a table: whether one is found, and which, after rows were added, changed or deleted.
use mathlib.Core.Path.{◌≡◌, refl}
use mathlib.Core.Logic.{inl, inr}
use mathlib.Core.Bool.{Bool, true, false, not, ◌&&◌}
use mathlib.Core.Option.{none, some}
use mathlib.Core.List.{List, [], ◌∷◌, ◌++◌, map}
use native.Mathlib.Omega.{arith}
use pairly.Prelude.Tests.{Bool-cases}
use pairly.Prelude.Lists.{any, find, keep, update, All}

-- What an update and a deletion make of the row that a test finds.
module _ {ℓ} {A : Type ℓ} where
  pub find-update_hit :
      (p q : A → Bool) (f : A → A) (xs : List A) (x : A)
      → ((y : A) → q y ≡ true → q (f y) ≡ true)
      → ((y : A) → q y ≡ false → q (f y) ≡ false)
      → find q xs ≡ some x
      → p x ≡ true
      → find q (update p f xs) ≡ some (f x)
  unfolding find update
  find-update_hit p q f [] x keeps misses h e = absurd (cc)
  find-update_hit p q f (y ∷ xs) x keeps misses h e =
      ground (arith, find-update_hit p q f xs x keeps misses, keeps y, misses y)

  pub find-update_miss :
      (p q : A → Bool) (f : A → A) (xs : List A) (x : A)
      → ((y : A) → q y ≡ true → q (f y) ≡ true)
      → ((y : A) → q y ≡ false → q (f y) ≡ false)
      → find q xs ≡ some x
      → p x ≡ false
      → find q (update p f xs) ≡ some x
  unfolding find update
  find-update_miss p q f [] x keeps misses h e = absurd (cc)
  find-update_miss p q f (y ∷ xs) x keeps misses h e =
      ground (arith, find-update_miss p q f xs x keeps misses, keeps y, misses y)

  pub find-map :
      (q : A → Bool) (f : A → A) (xs : List A) (x : A)
      → ((y : A) → q (f y) ≡ q y)
      → find q xs ≡ some x
      → find q (map f xs) ≡ some (f x)
  unfolding find
  find-map q f [] x same h = absurd (cc)
  find-map q f (y ∷ xs) x same h = ground (arith, find-map q f xs x same, same y)

  pub find-map-none :
      (q : A → Bool) (f : A → A) (xs : List A)
      → ((y : A) → q (f y) ≡ q y)
      → find q xs ≡ none
      → find q (map f xs) ≡ none
  unfolding find
  find-map-none q f [] same h = refl
  find-map-none q f (y ∷ xs) same h = ground (arith, find-map-none q f xs same, same y)

-- Whether a row is found, after rows were added, changed or deleted.
module _ {ℓ} {A : Type ℓ} where
  pub any-append : (p : A → Bool) (xs ys : List A) → any p xs ≡ true → any p (xs ++ ys) ≡ true
  unfolding any
  any-append p [] ys h = absurd (cc)
  any-append p (x ∷ xs) ys h = ground (arith, any-append p xs ys)

  pub any-update :
      (p q : A → Bool) (f : A → A) (xs : List A)
      → ((y : A) → p (f y) ≡ p y)
      → any p (update q f xs) ≡ any p xs
  unfolding any update
  any-update p q f [] same = refl
  any-update p q f (x ∷ xs) same = ground (arith, any-update p q f xs same, same x)

  pub any-map :
      (p : A → Bool) (f : A → A) (xs : List A)
      → ((y : A) → p (f y) ≡ p y)
      → any p (map f xs) ≡ any p xs
  unfolding any
  any-map p f [] same = refl
  any-map p f (x ∷ xs) same = ground (arith, any-map p f xs same, same x)

  -- A row that is found, but not among the deleted ones, is found among the others.
  pub any-keep :
      (p gone : A → Bool) (xs : List A)
      → any p xs ≡ true
      → any (λ x. p x && gone x) xs ≡ false
      → any p (keep (λ x. not (gone x)) xs) ≡ true
  unfolding any keep
  any-keep p gone [] h k = absurd (cc)
  any-keep p gone (x ∷ xs) h k = elim (Bool-cases (gone x)) [
    | inl e ↦ ground (arith, any-keep p gone xs)
    | inr e ↦ ground (arith, any-keep p gone xs)
  ]

module _ {ℓ κ μ} {A : Type ℓ} (P : A → Type κ) (Q : A → Type μ) where
  pub All-keep-map :
      (p : A → Bool) (xs : List A)
      → ((x : A) → p x ≡ true → P x → Q x)
      → All P xs
      → All Q (keep p xs)
  unfolding keep
  All-keep-map p [] k h = tt
  All-keep-map p (x ∷ xs) k h = elim (Bool-cases (p x)) [
    | inl e ↦ rw e (k x e h.0, All-keep-map p xs k h.1)
    | inr e ↦ rw e (All-keep-map p xs k h.1)
  ]

  pub All-map-map :
      (f : A → A) (xs : List A) → ((x : A) → P x → Q (f x)) → All P xs → All Q (map f xs)
  All-map-map f [] k h = tt
  All-map-map f (x ∷ xs) k h = (k x h.0, All-map-map f xs k h.1)
