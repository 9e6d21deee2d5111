-- ===== src/Http/Strconv.antt =====
-- Go's strconv, as the server and the client use it on query values. A text is the list of its
-- bytes.
use fertilesoil.Base.{
  ℕ, zero, suc, ◌+◌, ◌-◌, ◌*◌, ◌/◌, ◌%◌, ◌<◌, ◌≡◌, refl, subst, Bool, true, false, ◌&&◌, ◌||◌,
  Option, none, some, List, [], ◌∷◌, ◌==◌, ltb, leb, if◌then◌else◌, arith, inl, inr, Bool-cases,
}
use fertilesoil.Base.Int.{ℤ, pos, negsuc, int_half}

abbrev pub Text : Type 0
Text = List ℕ

abbrev pub text_eq : Text → Text → Bool
text_eq [] [] = true
text_eq (a ∷ t) (b ∷ u) = a == b && text_eq t u
text_eq _ _ = false

abbrev any_eq : Text → List Text → Bool
any_eq t [] = false
any_eq t (u ∷ us) = text_eq t u || any_eq t us

-- 1, t, T, true, TRUE, True
abbrev true_texts : List Text
true_texts =
    (49 ∷ [])
    ∷ (116 ∷ [])
    ∷ (84 ∷ [])
    ∷ (116 ∷ 114 ∷ 117 ∷ 101 ∷ [])
    ∷ (84 ∷ 82 ∷ 85 ∷ 69 ∷ [])
    ∷ (84 ∷ 114 ∷ 117 ∷ 101 ∷ [])
    ∷ []

-- 0, f, F, false, FALSE, False
abbrev false_texts : List Text
false_texts =
    (48 ∷ [])
    ∷ (102 ∷ [])
    ∷ (70 ∷ [])
    ∷ (102 ∷ 97 ∷ 108 ∷ 115 ∷ 101 ∷ [])
    ∷ (70 ∷ 65 ∷ 76 ∷ 83 ∷ 69 ∷ [])
    ∷ (70 ∷ 97 ∷ 108 ∷ 115 ∷ 101 ∷ [])
    ∷ []

-- `strconv.ParseBool`; none is its error.
unfoldable pub parse_bool : Text → Option Bool
parse_bool t =
    if any_eq t true_texts then some true else if any_eq t false_texts then some false else none

-- The digits that are left, after those that have given `acc`.
unfoldable pub digits_value : ℕ → Text → Option ℕ
digits_value acc [] = some acc
digits_value acc (c ∷ cs) =
    let rest = digits_value (acc * 10 + (c - 48)) cs in if leb 48 c && leb c 57 then rest else none

-- One digit at least.
abbrev pub unsigned : Text → Option ℕ
unsigned [] = none
unsigned (c ∷ cs) = digits_value 0 (c ∷ cs)

abbrev positive : Option ℕ → Option ℤ
positive none = none
positive (some n) = if ltb n int_half then some (pos n) else none

abbrev negative : Option ℕ → Option ℤ
negative none = none
negative (some zero) = some (pos 0)
negative (some (suc n)) = if ltb n int_half then some (negsuc n) else none

-- `strconv.Atoi`; none is its error.
unfoldable pub atoi : Text → Option ℤ
atoi [] = none
atoi (c ∷ cs) =
    if c == 43
    then positive (unsigned cs)
    else if c == 45
    then negative (unsigned cs)
    else positive (unsigned (c ∷ cs))

-- The decimal digits of a number, the last one found first; a number is fuel enough for itself.
unfoldable pub decimal : ℕ → ℕ → Text → Text
decimal zero n after = after
decimal (suc fuel) n after =
    let more = decimal fuel (n / 10) ((48 + n % 10) ∷ after) in
    if ltb n 10 then (48 + n) ∷ after else more

-- `strconv.Itoa`
unfoldable pub itoa : ℤ → Text
itoa (pos n) = decimal (suc n) n []
itoa (negsuc n) = 45 ∷ decimal (suc (suc n)) (suc n) []

-- Reading a number that has been written in front of a text.
digits_value-decimal :
    (fuel n : ℕ) (after : Text)
    → n < fuel
    → digits_value 0 (decimal fuel n after) ≡ digits_value n after
unfolding digits_value decimal
digits_value-decimal zero n after enough = absurd (omega arith)
digits_value-decimal (suc fuel) n after enough =
    ground (arith, digits_value-decimal fuel (n / 10) ((48 + n % 10) ∷ after))

-- The first byte of a decimal is a digit.
decimal_first :
    (fuel n : ℕ) (after : Text)
    → n < fuel
    → (c : ℕ) × (cs : Text) × (decimal fuel n after ≡ c ∷ cs) × (47 < c) × (c < 58)
unfolding decimal
decimal_first zero n after enough = absurd (omega arith)
decimal_first (suc fuel) n after enough = elim (Bool-cases (ltb n 10)) [
  | inl last ↦ rw last (48 + n, after, refl, ground arith, ground arith)
  | inr more ↦ rw more (decimal_first fuel (n / 10) ((48 + n % 10) ∷ after) (ground arith))
]

-- A text that starts with a digit has no sign.
atoi_unsigned :
    (c : ℕ) (cs : Text) (n : ℕ)
    → 47 < c
    → digits_value 0 (c ∷ cs) ≡ some n
    → n < int_half
    → atoi (c ∷ cs) ≡ some (pos n)
unfolding atoi
atoi_unsigned c cs n low value small = rw value (ground arith)

atoi_of_first :
    (t : Text) (n : ℕ)
    → (c : ℕ) × (cs : Text) × (t ≡ c ∷ cs) × (47 < c) × (c < 58)
    → digits_value 0 t ≡ some n
    → n < int_half
    → atoi t ≡ some (pos n)
atoi_of_first t n (c, cs, shape, low, high) value small =
    rw shape (atoi_unsigned c cs n low (subst (λ u. digits_value 0 u ≡ some n) shape value) small)

-- Reading a decimal that has been written gives the number back, below 2 ^ 63.
pub atoi-itoa : (n : ℕ) → n < int_half → atoi (itoa (pos n)) ≡ some (pos n)
unfolding itoa digits_value
atoi-itoa n small =
    atoi_of_first (decimal (suc n) n []) n (decimal_first (suc n) n [] (omega arith))
      (digits_value-decimal (suc n) n [] (omega arith)) small
