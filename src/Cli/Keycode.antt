-- ===== src/Cli/Keycode.antt =====
-- What `parse_keycode` accepts.
use mathlib.Core.Path.{subst}
use atv.Base.{
  ◌<◌, ◌^◌, ℕ, ◌+◌, ◌*◌, ◌≡◌, refl, true, false, Option, none, some, List, [], ◌∷◌, ◌++◌, String,
  ◌==◌, inl, inr, Option-cases, arith,
}
use atv.Base.Exec.{Result, ok, err}
use atv.World.{Env}
use atv.Cli.Number.{
  ℤ, pos, negsuc, decimal_digit, digits_loop, i32_max, i32_min, positive, negative, signed,
  parse_i32,
}
use atv.Cli.Number.Decimal.{decimal, IsI32, parse_i32-i32_text, parse_i32-IsI32}
use atv.Cli.{
  KeycodeError, to_upper, to_ascii_uppercase, starts_with, keycode_prefix, full_name, try_from,
  by_number, by_name, parse_keycode,
}

-- Upper case leaves digits and signs alone.
decimal_digit-to_upper : (c : ℕ) → decimal_digit (to_upper c) ≡ decimal_digit c
unfolding decimal_digit to_upper
decimal_digit-to_upper c = ground arith

to_upper_idem : (c : ℕ) → to_upper (to_upper c) ≡ to_upper c
unfolding to_upper
to_upper_idem c = ground arith

digits_loop-to_upper :
    (limit acc : ℕ) (s : List ℕ)
    → digits_loop limit acc (to_ascii_uppercase s) ≡ digits_loop limit acc s
unfolding digits_loop
digits_loop-to_upper limit acc [] = refl
digits_loop-to_upper limit acc (c ∷ s) = elim (Option-cases (decimal_digit c)) [
  | inl e ↦ rw (digits_loop, decimal_digit-to_upper c, e) refl
  | inr (d, e) ↦
      rw (digits_loop, decimal_digit-to_upper c, e, digits_loop-to_upper limit (acc * 10 + d) s)
        refl
]

positive-to_upper : (s : List ℕ) → positive (to_ascii_uppercase s) ≡ positive s
positive-to_upper s = rw (positive, digits_loop-to_upper i32_max 0 s) refl

negative-to_upper : (s : List ℕ) → negative (to_ascii_uppercase s) ≡ negative s
negative-to_upper s = rw (negative, digits_loop-to_upper i32_min 0 s) refl

sign-to_upper : (c : ℕ) → (to_upper c == b'+') ≡ (c == b'+') × (to_upper c == b'-') ≡ (c == b'-')
unfolding to_upper
sign-to_upper c = (ground arith, ground arith)

parse_i32-to_upper : (s : List ℕ) → parse_i32 (to_ascii_uppercase s) ≡ parse_i32 s
unfolding parse_i32 signed
parse_i32-to_upper [] = refl
parse_i32-to_upper (c ∷ []) = positive-to_upper (c ∷ [])
parse_i32-to_upper (c ∷ d ∷ s) =
    rw
      (
        (sign-to_upper c).0,
        (sign-to_upper c).1,
        positive-to_upper (d ∷ s),
        negative-to_upper (d ∷ s),
        positive-to_upper (c ∷ d ∷ s),
      )
      refl

upper_idem : (s : List ℕ) → to_ascii_uppercase (to_ascii_uppercase s) ≡ to_ascii_uppercase s
upper_idem [] = refl
upper_idem (c ∷ s) = rw (to_upper_idem c, upper_idem s) refl

full_name-to_upper : (s : List ℕ) → full_name (to_ascii_uppercase s) ≡ full_name s
unfolding full_name
full_name-to_upper s = rw (upper_idem s) refl

prefix-starts : (s : List ℕ) → starts_with (keycode_prefix ++ s) keycode_prefix ≡ true
unfolding starts_with
prefix-starts s = refl

upper-prefix :
    (s : List ℕ) → to_ascii_uppercase (keycode_prefix ++ s) ≡ keycode_prefix ++ to_ascii_uppercase s
unfolding to_upper
upper-prefix s = refl

full_name-prefix :
    (s : List ℕ)
    → starts_with (to_ascii_uppercase s) keycode_prefix ≡ false
    → full_name (keycode_prefix ++ s) ≡ full_name s
unfolding full_name
full_name-prefix s e = rw (upper-prefix s, prefix-starts (to_ascii_uppercase s), e) refl

-- The accepted keycode.
abbrev pub accepted : Result KeycodeError ℕ → Option ℕ
accepted (ok n) = some n
accepted (err e) = none

module _ (env : Env) where
  accepted-by_name :
      (s t : List ℕ)
      → full_name s ≡ full_name t
      → accepted (by_name env s) ≡ accepted (by_name env t)
  unfolding by_name
  accepted-by_name s t e = elim (Option-cases (env.key_of_name (full_name t))) [
    | inl f ↦ rw (by_name, e, f) refl
    | inr (n, f) ↦ rw (by_name, e, f) refl
  ]

  -- The case of the letters does not matter: as typed and in upper case, the same keycode is
  -- accepted or both are refused.
  pub parse_keycode_case :
      (s : List ℕ)
      → accepted (parse_keycode env (to_ascii_uppercase s)) ≡ accepted (parse_keycode env s)
  unfolding parse_keycode
  parse_keycode_case s = elim (Option-cases (parse_i32 s)) [
    | inl e ↦
        rw (parse_keycode, parse_i32-to_upper s, e)
          (accepted-by_name (to_ascii_uppercase s) s (full_name-to_upper s))
    | inr (n, e) ↦ rw (parse_keycode, parse_i32-to_upper s, e) refl
  ]

  -- The prefix can be left out: what is neither a number nor has the prefix means the same with it.
  parse_keycode_prefix :
      (s : List ℕ)
      → parse_i32 s ≡ none
      → starts_with (to_ascii_uppercase s) keycode_prefix ≡ false
      → accepted (parse_keycode env (keycode_prefix ++ s)) ≡ accepted (parse_keycode env s)
  unfolding parse_keycode parse_i32 signed decimal_digit digits_loop
  parse_keycode_prefix s e f =
      rw (parse_keycode, e) (accepted-by_name (keycode_prefix ++ s) s (full_name-prefix s f))

  abbrev HasName : ℕ → Type 0
  HasName n = (text : String) × env.key_name n ≡ some text

  -- What holds of the numbers in range that have a name, and of those that a name gives, holds of
  -- every accepted keycode.
  module _ (G : ℕ → Type 0) (of_number : (n : ℕ) → IsI32 (pos n) → HasName n → G n)
      (of_name : (name : List ℕ) (n : ℕ) → env.key_of_name name ≡ some n → G n) where
    abbrev Good : Result KeycodeError ℕ → Type 0
    Good (ok n) = G n
    Good (err e) = Unit

    by_number-Good : (z : ℤ) → IsI32 z → Good (by_number env z)
    unfolding by_number try_from
    by_number-Good (negsuc k) h = tt
    by_number-Good (pos k) h = elim (Option-cases (env.key_name k)) [
      | inl f ↦ rw (by_number, f) tt
      | inr (text, f) ↦ rw (by_number, f) (of_number k h (text, f))
    ]

    by_name-Good : (s : List ℕ) → Good (by_name env s)
    unfolding by_name
    by_name-Good s = elim (Option-cases (env.key_of_name (full_name s))) [
      | inl f ↦ rw (by_name, f) tt
      | inr (k, f) ↦ rw (by_name, f) (of_name (full_name s) k f)
    ]

    parse_keycode-Good : (s : List ℕ) → Good (parse_keycode env s)
    unfolding parse_keycode
    parse_keycode-Good s = elim (Option-cases (parse_i32 s)) [
      | inl f ↦ rw (parse_keycode, f) (by_name-Good s)
      | inr (z, f) ↦ rw (parse_keycode, f) (by_number-Good z (parse_i32-IsI32 s z f))
    ]

  -- A keycode that is accepted has a name in the protocol's enum and is an i32, where the generated
  -- lookup by name gives only such numbers.
  parse_keycode_known :
      ((name : List ℕ) (n : ℕ)
        → env.key_of_name name ≡ some n
        → (n < 2 ^ 31) × ((text : String) × env.key_name n ≡ some text))
      → (s : List ℕ) (n : ℕ) → parse_keycode env s ≡ ok n
      → (n < 2 ^ 31) × ((text : String) × env.key_name n ≡ some text)
  parse_keycode_known known s n e =
      subst (Good (λ k. (k < 2 ^ 31) × HasName k) (λ k h named. (h, named)) known) e
        (parse_keycode-Good (λ k. (k < 2 ^ 31) × HasName k) (λ k h named. (h, named)) known s)

  -- The decimal text of a keycode that has a name is accepted as that keycode.
  pub parse_keycode-decimal :
      (n : ℕ) (text : String)
      → n < 2 ^ 31
      → env.key_name n ≡ some text
      → parse_keycode env (decimal n) ≡ ok n
  unfolding parse_keycode by_number try_from
  parse_keycode-decimal n text h e =
      rw (parse_keycode, parse_i32-i32_text (pos n) h, by_number, e) refl
