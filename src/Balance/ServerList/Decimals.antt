-- ===== src/Balance/ServerList/Decimals.antt =====
-- Weights in decimal digits, as strconv.Atoi reads them.
use iip.Prelude.{
  ℕ, ◌+◌, ◌-◌, ◌*◌, ◌/◌, ◌%◌, ◌≤◌, ◌<◌, ◌≡◌, inl, inr, Bool, true, false, not, ◌||◌, ◌&&◌, List, [],
  ◌∷◌, some, All, ltb, ◌==◌, if◌then◌else◌, if_true, if_false, Bool-cases, sym, refl, ap, ◌∙◌,
  arith,
}
use mathlib.Core.Path.{subst}
use iip.Balance.ServerList.{is_space, is_digit, digits, atoi}

-- A byte of ASCII that does not separate, and is no white space.
abbrev pub is_plain : ℕ → Bool
is_plain b = ltb b 128 && not ((b == 35) || ((b == 44) || is_space b))

abbrev pub Plain : List ℕ → Type 0
Plain text = All (λ b. is_plain b ≡ true) text

-- A number up to 100 in digits.
abbrev pub decimal : ℕ → List ℕ
decimal w =
    if ltb w 10
    then (48 + w) ∷ []
    else (if ltb w 100 then (48 + w / 10) ∷ ((48 + w % 10) ∷ []) else 49 ∷ (48 ∷ (48 ∷ [])))

digit-plain : (d : ℕ) → d < 10 → is_plain (48 + d) ≡ true
digit-plain d h = ground (arith, h)

div_below : (w : ℕ) → w < 100 → w / 10 < 10
div_below w h = omega (arith, h)

one_digit : (w : ℕ) → w < 10 → atoi ((48 + w) ∷ []) ≡ some w
unfolding atoi digits
one_digit w h =
    let no_plus : ((48 + w) == 43) ≡ false = ground (arith, h) in
    let no_minus : ((48 + w) == 45) ≡ false = ground (arith, h) in
    let digit : is_digit (48 + w) ≡ true = ground (arith, h) in
    let value : 0 * 10 + ((48 + w) - 48) ≡ w = omega arith in
    if_false ((48 + w) == 43) _ _ no_plus
    ∙ if_false ((48 + w) == 45) _ _ no_minus
    ∙ if_true (is_digit (48 + w)) _ _ digit
    ∙ ap some value

two_digits : (w : ℕ) → w < 100 → atoi ((48 + w / 10) ∷ ((48 + w % 10) ∷ [])) ≡ some w
unfolding atoi digits
two_digits w h =
    let a = 48 + w / 10 in
    let b = 48 + w % 10 in
    let tens = div_below w h in
    let no_plus : (a == 43) ≡ false = ground (arith, tens) in
    let no_minus : (a == 45) ≡ false = ground (arith, tens) in
    let first : is_digit a ≡ true = ground (arith, tens) in
    let below : w % 10 < 10 = omega arith in
    let second : is_digit b ≡ true = ground (arith, below) in
    let value : (0 * 10 + (a - 48)) * 10 + (b - 48) ≡ w = omega arith in
    if_false (a == 43) _ _ no_plus
    ∙ if_false (a == 45) _ _ no_minus
    ∙ if_true (is_digit a) _ _ first
    ∙ if_true (is_digit b) _ _ second
    ∙ ap some value

pub atoi-decimal : (w : ℕ) → w ≤ 100 → atoi (decimal w) ≡ some w
unfolding atoi digits
atoi-decimal w most = elim (Bool-cases (ltb w 10)) [
  | inl one ↦ ap atoi (if_true (ltb w 10) _ _ one) ∙ one_digit w (ground (arith, one))
  | inr more ↦ elim (Bool-cases (ltb w 100)) [
    | inl two ↦
        ap atoi (if_false (ltb w 10) _ _ more ∙ if_true (ltb w 100) _ _ two)
        ∙ two_digits w (ground (arith, two))
    | inr three ↦
        let hundred : 100 ≡ w = ground (arith, three, most) in
        ap atoi (if_false (ltb w 10) _ _ more ∙ if_false (ltb w 100) _ _ three) ∙ ap some hundred
  ]
]

pub decimal-Plain : (w : ℕ) → w ≤ 100 → Plain (decimal w)
decimal-Plain w most = elim (Bool-cases (ltb w 10)) [
  | inl one ↦
      subst Plain (sym (if_true (ltb w 10) _ _ one)) (digit-plain w (ground (arith, one)), tt)
  | inr more ↦ elim (Bool-cases (ltb w 100)) [
    | inl two ↦ subst Plain (sym (if_false (ltb w 10) _ _ more ∙ if_true (ltb w 100) _ _ two)) (
      digit-plain (w / 10) (div_below w (ground (arith, two))),
      (digit-plain (w % 10) (omega arith), tt),
    )
    | inr three ↦
        subst Plain (sym (if_false (ltb w 10) _ _ more ∙ if_false (ltb w 100) _ _ three))
          (refl, (refl, (refl, tt)))
  ]
]
