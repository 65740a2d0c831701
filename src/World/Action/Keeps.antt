-- ===== src/World/Action/Keeps.antt =====
-- What a handler leaves of a predicate on the world, one rule for each way to build a handler.
use pairly.Prelude.{Bool, true, false, if◌then◌else◌}
use pairly.World.Message.{Response}
use pairly.World.State.{World, Call}
use pairly.World.Action.{
  Result, ok, stop, hangs, Action, pure, attempt, call_or, ignoring, modify, stop_if, continue,
  ◌>>=◌,
}

-- From every world that satisfies `P`, the action ends in one that does, whatever the faults.
pub record Keeps {A : Type 0} (P : World → Type 0) (m : Action A) : Type 0 where
  pub at : (w : World) → P w → P (m w).1

pub record KeepsCall {A : Type 0} (P : World → Type 0) (c : Call A) : Type 0 where
  pub at : (w : World) → P w → P (c w).1

pub record KeepsStep (P : World → Type 0) (f : World → World) : Type 0 where
  pub at : (w : World) → P w → P (f w)

module _ {A : Type 0} {P : World → Type 0} where
  pub Keeps-pure : (a : A) → Keeps P (pure a)
  unfolding pure
  Keeps-pure a = record { at = λ w h. h }

  pub Keeps-attempt : (r : Response) (c : Call A) → KeepsCall P c → Keeps P (attempt r c)
  unfolding attempt
  Keeps-attempt r c k = record { at = k.at }

  pub Keeps-call_or : (r s : Response) (c : Call A) → KeepsCall P c → Keeps P (call_or r s c)
  unfolding call_or
  Keeps-call_or r s c k = record { at = k.at }

  pub Keeps-ignoring : (a : A) (c : Call A) → KeepsCall P c → Keeps P (ignoring a c)
  unfolding ignoring
  Keeps-ignoring a c k = record { at = k.at }

  pub Keeps-if : (b : Bool) (m n : Action A) → Keeps P m → Keeps P n → Keeps P (if b then m else n)
  Keeps-if true m n km kn = km
  Keeps-if false m n km kn = kn

module _ {P : World → Type 0} where
  pub Keeps-modify : (f : World → World) → KeepsStep P f → Keeps P (modify f)
  unfolding modify
  Keeps-modify f k = record { at = k.at }

  pub Keeps-stop_if : (test : Bool) (r : Response) → Keeps P (stop_if test r)
  unfolding stop_if
  Keeps-stop_if test r = record { at = λ w h. h }

module _ {A B : Type 0} {P : World → Type 0} where
  pub Keeps-bind :
      (m : Action A) (f : A → Action B) → Keeps P m → ((a : A) → Keeps P (f a)) → Keeps P (m >>= f)
  unfolding ◌>>=◌
  Keeps-bind m f km kf = record { at = λ w h. let (r, w') = m w in go r w' (km.at w h) }
    where
      go : (r : Result A) (w : World) → P w → P (continue r f w).1
      go (ok a) w h = (kf a).at w h
      go (stop s) w h = h
      go hangs w h = h

pub ruleset keeps_rules = (
  Keeps-pure, Keeps-attempt, Keeps-call_or, Keeps-ignoring, Keeps-if, Keeps-modify, Keeps-stop_if,
  Keeps-bind,
)
