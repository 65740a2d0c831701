-- ===== src/World/Action/Inversion.antt =====
-- What a step that went on has done.
use pairly.Prelude.{nat_eq, ◌≡◌, refl, Bool, false, arith}
use pairly.Outcome.{row}
use pairly.World.Message.{Response}
use pairly.World.State.{World, Call, mongo, called}
use pairly.World.Action.{Result, ok, stop, hangs, Action, continue, attempt, stop_if, ◌>>=◌}

module _ {A B : Type 0} where
  -- A chain that went on to its end went on after its first step.
  pub >>=-ok :
      (m : Action A) (f : A → Action B) (w : World) (b : B)
      → ((m >>= f) w).0 ≡ ok b
      → (a : A) × ((m w).0 ≡ ok a) × ((m >>= f) w ≡ f a (m w).1) × ((f a (m w).1).0 ≡ ok b)
  unfolding ◌>>=◌
  >>=-ok m f w b e = go (m w).0 (m w).1 e
    where
      go :
          (r : Result A) (v : World)
          → (continue r f v).0 ≡ ok b
          → (a : A) × (r ≡ ok a) × (continue r f v ≡ f a v) × ((f a v).0 ≡ ok b)
      go (ok a) v q = (a, refl, refl, q)
      go (stop r) v q = absurd (cc)
      go hangs v q = absurd (cc)

pub attempt-ok :
    {A : Type 0} (broken : Response) (call : Call A) (w : World) (a : A)
    → (attempt broken call w).0 ≡ ok a
    → (call w).0 ≡ row a
unfolding attempt
attempt-ok broken call w a e = ground arith

pub stop_if-ok :
    (test : Bool) (r : Response) (w : World) → (stop_if test r w).0 ≡ ok tt → test ≡ false
unfolding stop_if
stop_if-ok test r w e = ground arith

pub mongo-row :
    {A : Type 0} (op : World → A × World) (w : World) (a : A)
    → (mongo op w).0 ≡ row a
    → (a ≡ (op (called w)).0) × ((mongo op w).1 ≡ (op (called w)).1)
unfolding mongo
mongo-row op w a e = ground arith
