-- ===== src/Engine/Turns/Keeps.antt =====
-- Invariants of a run, one rule for each way to build a part of it.
use py_tui_kairo.Common.{Bool, true, false, if◌then◌else◌}
use py_tui_kairo.Engine.Turns.Machine.{
  M, Machine, Run, Ended, returned, raised, Raised, pure, raise, ◌>>=◌, continue, reads,
}

-- The part keeps `P`, whether it returns or raises.
pub record Keeps {A : Type 0} (P : Machine → Type 0) (m : M A) : Type 0 where
  pub at : (s : Machine) → P s → P (m s).1

module _ {P : Machine → Type 0} {A : Type 0} where
  pub Keeps-pure : (a : A) → Keeps P (pure a)
  unfolding pure
  Keeps-pure a = record { at = λ s h. h }

  pub Keeps-raise : (e : Raised) → Keeps P (raise {A = A} e)
  unfolding raise
  Keeps-raise e = record { at = λ s h. h }

  pub Keeps-reads : (f : Run → A) → Keeps P (reads f)
  unfolding reads
  Keeps-reads f = record { at = λ s h. h }

  pub Keeps-if : (b : Bool) (m n : M A) → Keeps P m → Keeps P n → Keeps P (if b then m else n)
  Keeps-if true m n km kn = km
  Keeps-if false m n km kn = kn

module _ {P : Machine → Type 0} {A B : Type 0} where
  Keeps-continue :
      (r : Ended A) (f : A → M B)
      → ((a : A) → Keeps P (f a))
      → (s : Machine) → P s
      → P (continue r f s).1
  Keeps-continue (returned a) f k s h = (k a).at s h
  Keeps-continue (raised e) f k s h = h

  pub Keeps-bind :
      (m : M A) (f : A → M B) → Keeps P m → ((a : A) → Keeps P (f a)) → Keeps P (m >>= f)
  unfolding ◌>>=◌
  Keeps-bind m f km kf = record { at = λ s h. Keeps-continue (m s).0 f kf (m s).1 (km.at s h) }
