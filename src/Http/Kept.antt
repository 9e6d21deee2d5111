-- ===== src/Http/Kept.antt =====
-- The parts of a handler and a property of the state.
use fertilesoil.Base.{
  Bool, true, false, Option, none, some, String, Error, Outcome, ok, err, err_with, panic, diverge,
  Action, resume, lift, ◌>>=◌, ℕ, is_not_found, is_parsing_id, if◌then◌else◌,
}
use fertilesoil.Http.Handlers.{message, respond, internal_error, output_get_directory_error}

-- What follows a call keeps what all of its parts keep.
pub resume_kept :
    {S A B : Type 0} (P : S → Type 0) (x : Outcome A × S) (failed : Error → Action S B)
    (f : A → Action S B)
    → P x.1
    → ((e : Error) (s : S) → P s → P (failed e s).1)
    → ((a : A) (s : S) → P s → P (f a s).1)
    → P (resume x failed f).1
resume_kept P (ok a, s) failed f h on_error on_value = on_value a s h
resume_kept P (err e, s) failed f h on_error on_value = on_error e s h
resume_kept P (err_with a e, s) failed f h on_error on_value = on_error e s h
resume_kept P (panic p, s) failed f h on_error on_value = h
resume_kept P (diverge, s) failed f h on_error on_value = h

-- What follows a call that only looks at its outcome.
pub then_kept :
    {S A B : Type 0} (P : S → Type 0) (r : Outcome A) (s : S) (f : A → Action S B)
    → P s
    → ((a : A) → P (f a s).1)
    → P ((lift r >>= f) s).1
then_kept P (ok a) s f h k = k a
then_kept P (err e) s f h k = h
then_kept P (err_with a e) s f h k = h
then_kept P (panic p) s f h k = h
then_kept P diverge s f h k = h

pub either_kept :
    {S B : Type 0} (P : S → Type 0) (b : Bool) (x y : Action S B) (s : S)
    → P (x s).1
    → P (y s).1
    → P ((if b then x else y) s).1
either_kept P true x y s h k = h
either_kept P false x y s h k = k

abbrev pub on_body : {S A B : Type 0} → Option A → Action S B → (A → Action S B) → Action S B
on_body o x f = elim o [ none ↦ x | some a ↦ f a ]

pub body_kept :
    {S A B : Type 0} (P : S → Type 0) (o : Option A) (x : Action S B) (f : A → Action S B) (s : S)
    → P (x s).1
    → ((a : A) → P (f a s).1)
    → P (on_body o x f s).1
body_kept P none x f s h k = h
body_kept P (some a) x f s h k = k a

pub missing_kept :
    {S : Type 0} (P : S → Type 0) (status : ℕ) (text : String) (e : Error) (s : S)
    → P s
    → P ((if is_not_found e then respond {S = S} status (message text) else internal_error e) s).1
missing_kept P status text e s h =
    either_kept P (is_not_found e) (respond status (message text)) (internal_error e) s h h

pub output_kept :
    {S : Type 0} (P : S → Type 0) (e : Error) (s : S)
    → P s
    → P (output_get_directory_error {S = S} e s).1
output_kept P e s h =
    either_kept P (is_parsing_id e) (respond 400 (message "invalid id"))
      (if is_not_found e
        then respond 404 (message "directory not found")
        else respond 500 (message "internal server error"))
      s h
      (either_kept P (is_not_found e) (respond 404 (message "directory not found"))
        (respond 500 (message "internal server error")) s h h)
