-- ===== src/Base/Actions.antt =====
-- Calls that read and write a state, and end with an outcome.

use mathlib.Core.Path.{◌≡◌, refl}
use native.Mathlib.Omega.{arith}
use fertilesoil.Base.Results.{Error, Outcome, ok, err, err_with, panic, diverge}

-- A call that reads and writes a state: what was written before an error stays written.
abbrev pub Action : Type 0 → Type 0 → Type 0
Action S A = S → Outcome A × S

module _ {S A : Type 0} where
  abbrev pub pure : A → Action S A
  pure a s = (ok a, s)

  abbrev pub raise : Error → Action S A
  raise e s = (err e, s)

  abbrev pub gets : (S → A) → Action S A
  gets f s = (ok (f s), s)

  abbrev pub lift : Outcome A → Action S A
  lift r s = (r, s)

abbrev pub modify : {S : Type 0} → (S → S) → Action S (Unit {0})
modify f s = (ok tt, f s)

-- `if err != nil { return nil, err }`
infixl 5 ◌>>=◌ ◌>>◌
abbrev pub ◌>>=◌ : {S A B : Type 0} → Action S A → (A → Action S B) → Action S B
◌>>=◌ m f s =
    let (r, s') = m s in
    elim r [
      | ok a ↦ f a s'
      | err e ↦ (err e, s')
      | err_with a e ↦ (err e, s')
      | panic p ↦ (panic p, s')
      | diverge ↦ (diverge, s')
    ]

abbrev pub ◌>>◌ : {S B : Type 0} → Action S (Unit {0}) → Action S B → Action S B
m >> k = m >>= λ _. k

module _ {S A B : Type 0} (m : Action S A) (f : A → Action S B) (s s' : S) where
  pub bind_ok : (a : A) → m s ≡ (ok a, s') → (m >>= f) s ≡ f a s'
  bind_ok a h = ground arith

  pub bind_err : (e : Error) → m s ≡ (err e, s') → (m >>= f) s ≡ (err e, s')
  bind_err e h = ground arith

-- A chain that ends with a value has got one from its first call.
module _ {S A B : Type 0} (f : A → Action S B) where
  lift_inv :
      (r : Outcome A) (s s' : S) (b : B)
      → (λ (t : S). (lift r >>= f) t) s ≡ (ok b, s')
      → (a : A) × (r ≡ ok a) × (f a s ≡ (ok b, s'))
  lift_inv (ok a) s s' b h = (a, refl, h)
  lift_inv (err e) s s' b h = absurd (cc)
  lift_inv (err_with a e) s s' b h = absurd (cc)
  lift_inv (panic p) s s' b h = absurd (cc)
  lift_inv diverge s s' b h = absurd (cc)

  pub bind_inv :
      (m : Action S A) (s s' : S) (b : B)
      → (m >>= f) s ≡ (ok b, s')
      → (a : A) × (f a (m s).1 ≡ (ok b, s'))
  bind_inv m s s' b h = let (a, answered, rest) = lift_inv (m s).0 (m s).1 s' b h in (a, rest)

-- What follows a call whose error the caller looks at.
abbrev pub resume :
    {S A B : Type 0} → Outcome A × S → (Error → Action S B) → (A → Action S B) → Outcome B × S
resume (ok a, s) failed f = f a s
resume (err e, s) failed f = failed e s
resume (err_with a e, s) failed f = failed e s
resume (panic p, s) failed f = (panic p, s)
resume (diverge, s) failed f = (diverge, s)

-- `a, err := ...; if err != nil { ... }` with what follows.
abbrev pub attempt :
    {S A B : Type 0} → Action S A → (Error → Action S B) → (A → Action S B) → Action S B
attempt m failed f s = resume (m s) failed f

-- The state that a call leaves meets `P`, and the value that it returns meets `Q` there.
abbrev pub Ensures : {S A : Type 0} → (S → Type 0) → (A → S → Type 0) → Outcome A × S → Type 0
Ensures P Q (ok a, s) = P s × Q a s
Ensures P Q (_, s) = P s

pub resume-Ensures :
    {S A B : Type 0} (P : S → Type 0) (Q : A → S → Type 0) (x : Outcome A × S)
    (failed : Error → Action S B) (f : A → Action S B)
    → Ensures P Q x
    → ((e : Error) (s : S) → P s → P (failed e s).1)
    → ((a : A) (s : S) → P s → Q a s → P (f a s).1)
    → P (resume x failed f).1
resume-Ensures P Q (ok a, s) failed f h on_error on_value = on_value a s h.0 h.1
resume-Ensures P Q (err e, s) failed f h on_error on_value = on_error e s h
resume-Ensures P Q (err_with a e, s) failed f h on_error on_value = on_error e s h
resume-Ensures P Q (panic p, s) failed f h on_error on_value = h
resume-Ensures P Q (diverge, s) failed f h on_error on_value = h
