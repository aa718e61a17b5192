-- ===== src/Base/Numbers.antt =====
-- Numbers in texts: std::stoi and std::stoull of the standard library, which skip spaces, take a
-- sign, read digits up to another byte, and throw where there is no digit or the number does not
-- fit. An exception is `none`.
use rtmp_abr_transcoder.Base.{
  ℕ, zero, suc, ◌+◌, ◌-◌, ◌*◌, ◌%◌, ◌^◌, ◌<◌, ◌≡◌, refl, Bool, true, false, ◌&&◌, ◌||◌, List, [],
  ◌∷◌, Option, none, some, arith, ltb, leb, ◌==◌, if◌then◌else◌, length, lt→ltb,
}
use rtmp_abr_transcoder.Base.Texts.{IsWithout}

-- An int, negative or not.
pub data ℤ : Type 0 where
  pos : ℕ → ℤ
  negsuc : ℕ → ℤ

abbrev pub negate : ℕ → ℤ
negate zero = pos zero
negate (suc n) = negsuc n

abbrev pub is_space : ℕ → Bool
is_space c = c == 32 || (leb 9 c && leb c 13)

abbrev pub is_digit : ℕ → Bool
is_digit c = leb 48 c && leb c 57

unfoldable pub skip_spaces : List ℕ → List ℕ
skip_spaces [] = []
skip_spaces (c ∷ s) = let rest = skip_spaces s in if is_space c then rest else c ∷ s

-- The sign, and what stands behind it.
unfoldable pub read_sign : List ℕ → Bool × List ℕ
read_sign [] = (false, [])
read_sign (c ∷ s) = if c == 45 then (true, s) else if c == 43 then (false, s) else (false, c ∷ s)

-- The digits at the front.
unfoldable pub read_digits : List ℕ → List ℕ
read_digits [] = []
read_digits (c ∷ s) = let rest = read_digits s in if is_digit c then c ∷ rest else []

-- The number that digits write behind `n`.
abbrev pub value : ℕ → List ℕ → ℕ
value n [] = n
value n (c ∷ s) = value (n * 10 + (c - 48)) s

-- The sign and the size of the number.
unfoldable pub read_number : List ℕ → Option (Bool × ℕ)
read_number s =
    let (negative, rest) = read_sign (skip_spaces s) in
    let digits : List ℕ = read_digits rest in
    if length digits == 0 then none else some (negative, value 0 digits)

unfoldable pub stoi : List ℕ → Option ℤ
stoi s = elim (read_number s) [
  | none ↦ none
  | some (true, n) ↦ if leb n (2 ^ 31) then some (negate n) else none
  | some (false, n) ↦ if ltb n (2 ^ 31) then some (pos n) else none
]

-- A number behind a minus is negated modulo 2 ^ 64.
unfoldable pub stoull : List ℕ → Option ℕ
stoull s = elim (read_number s) [
  | none ↦ none
  | some (negative, n) ↦
      if ltb n (2 ^ 64) then some (if negative then (2 ^ 64 - n) % 2 ^ 64 else n) else none
]

abbrev pub IsDigits : List ℕ → Type 0
IsDigits [] = Unit {0}
IsDigits (c ∷ s) = (is_digit c ≡ true) × IsDigits s

read_digits_all : (ds : List ℕ) → IsDigits ds → read_digits ds ≡ ds
unfolding read_digits
read_digits_all [] d = refl
read_digits_all (c ∷ ds) (h, d) = rw (h, read_digits_all ds d) refl

digit_alone :
    (c : ℕ) → is_digit c ≡ true → (is_space c ≡ false) × ((c == 45) ≡ false) × ((c == 43) ≡ false)
digit_alone c h = ground arith

skip_spaces_none : (c : ℕ) (s : List ℕ) → is_space c ≡ false → skip_spaces (c ∷ s) ≡ c ∷ s
unfolding skip_spaces
skip_spaces_none c s h = rw h refl

not_empty : (n : ℕ) → (suc n == 0) ≡ false
not_empty n = ground arith

read_number_digits :
    (ds : List ℕ) → 0 < length ds → IsDigits ds → read_number ds ≡ some (false, value 0 ds)
unfolding read_number read_sign
read_number_digits [] p d = absurd (omega (arith, p))
read_number_digits (c ∷ ds) p (h, d) =
    let (no_space, no_minus, no_plus) = digit_alone c h in
    rw
      (
        skip_spaces_none c ds no_space,
        no_minus,
        no_plus,
        read_digits_all (c ∷ ds) (h, d),
        not_empty (length ds),
      )
      refl

pub stoi_digits :
    (ds : List ℕ)
    → 0 < length ds
    → IsDigits ds
    → value 0 ds < 2 ^ 31
    → stoi ds ≡ some (pos (value 0 ds))
unfolding stoi
stoi_digits ds p d fits =
    rw (read_number_digits ds p d, stoi) (rw (lt→ltb (value 0 ds) (2 ^ 31) fits) refl)

pub stoull_digits :
    (ds : List ℕ)
    → 0 < length ds
    → IsDigits ds
    → value 0 ds < 2 ^ 64
    → stoull ds ≡ some (value 0 ds)
unfolding stoull
stoull_digits ds p d fits =
    rw (read_number_digits ds p d, stoull) (rw (lt→ltb (value 0 ds) (2 ^ 64) fits) refl)

-- Digits of a number that fits an int.
pub record IsInt (ds : List ℕ) : Type 0 where
  pub some_digit : 0 < length ds
  pub digits : IsDigits ds
  pub fits : value 0 ds < 2 ^ 31

pub IsDigits-IsWithout : (b : ℕ) (ds : List ℕ) → is_digit b ≡ false → IsDigits ds → IsWithout b ds
IsDigits-IsWithout b [] e d = tt
IsDigits-IsWithout b (c ∷ ds) e (h, d) = (λ same. cc (same, e, h), IsDigits-IsWithout b ds e d)
