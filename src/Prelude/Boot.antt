-- ===== src/Prelude/Boot.antt =====
-- Code that may end the process: a state of log lines and of the world outside, and a stop.
use mathlib.Core.Bool.{Bool, true, false}
use mathlib.Core.List.{List, ◌++◌}
use mathlib.Core.Option.{Option, none, some}
use mathlib.Core.Path.{◌≡◌, refl}
use mathlib.Core.Logic.{◌⊎◌, inl, inr}

pub data Checked {ℓ} (E A : Type ℓ) : Type ℓ where
  passed : A → Checked E A
  stopped : E → Checked E A

pub Checked-cases :
    {E A : Type 0} (c : Checked E A) → ((a : A) × (c ≡ passed a)) ⊎ ((e : E) × (c ≡ stopped e))
Checked-cases (passed a) = inl (a, refl)
Checked-cases (stopped e) = inr (e, refl)

abbrev pub is_passed : {E A : Type 0} → Checked E A → Bool
is_passed (passed a) = true
is_passed (stopped e) = false

-- The types of a stop, of a line and of the world are the parameters of every action.
abbrev pub Boot : Type 0 → Type 0 → Type 0 → Type 0 → Type 0
Boot E Line World A = List Line × World → Checked E A × (List Line × World)

module _ {E Line World : Type 0} where
  abbrev pub pure : {A : Type 0} → A → Boot E Line World A
  pure a s = (passed a, s)

  abbrev pub stop : {A : Type 0} → E → Boot E Line World A
  stop e s = (stopped e, s)

  abbrev pub stop_if : Bool → E → Boot E Line World (Unit {0})
  stop_if true e s = (stopped e, s)
  stop_if false e s = (passed tt, s)

  abbrev pub log : List Line → Boot E Line World (Unit {0})
  log lines (ls, w) = (passed tt, (ls ++ lines, w))

  abbrev pub or_stop : {A : Type 0} → Option A → E → Boot E Line World A
  or_stop none e s = (stopped e, s)
  or_stop (some a) e s = (passed a, s)

  abbrev pub or_fail : {A : Type 0} {E' : Type 0} → Checked E' A → (E' → E) → Boot E Line World A
  or_fail (passed a) e s = (passed a, s)
  or_fail (stopped x) e s = (stopped (e x), s)

  abbrev pub or_error : {A : Type 0} {E' : Type 0} → A × Option E' → (E' → E) → Boot E Line World A
  or_error (a, none) e s = (passed a, s)
  or_error (a, some x) e s = (stopped (e x), s)

  infixl 5 ◌>>=◌ ◌>>◌
  abbrev pub ◌>>=◌ :
      {A B : Type 0} → Boot E Line World A → (A → Boot E Line World B) → Boot E Line World B
  ◌>>=◌ m f s = let (r, s') = m s in elim r [ passed a ↦ f a s' | stopped e ↦ (stopped e, s') ]

  abbrev pub ◌>>◌ : {A B : Type 0} → Boot E Line World A → Boot E Line World B → Boot E Line World B
  ◌>>◌ m k = m >>= λ _. k
