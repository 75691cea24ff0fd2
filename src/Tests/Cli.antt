-- ===== src/Tests/Cli.antt =====
-- cli.rs at keycodes, with an enum of one key.
use atv.Base.{
  ℕ, ◌≡◌, refl, Bool, true, false, ◌&&◌, ◌==◌, none, some, List, [], ◌∷◌, codes, arith,
  if◌then◌else◌,
}
use atv.Base.Exec.{ok, err}
use atv.World.{Env}
use atv.Cli.{
  parse_keycode, full_name, by_name, by_number, try_from, starts_with, to_upper, to_ascii_uppercase,
  unknown_number, pair, status, HostArgs, port, args,
}
use atv.Cli.Number.{negsuc, parse_i32, signed, digits_loop, decimal_digit}
use atv.Cli.Number.Decimal.{decimal}
use atv.Cli.Keycode.{accepted, parse_keycode_case, parse_keycode-decimal}
use atv.Tests.Fixture.{env_of}

same : List ℕ → List ℕ → Bool
same [] [] = true
same [] (d ∷ t) = false
same (c ∷ s) [] = false
same (c ∷ s) (d ∷ t) = c == d && same s t

keys : Env
unfolding env_of same
keys = record (env_of (λ _. [])) {
  key_name = λ n. if n == 26 then some "KEYCODE_POWER" else none;
  key_of_name = λ name. if same name (codes "KEYCODE_POWER") then some 26 else none;
}

-- As on the command line: a name in any case, with the prefix or without, or a number.
power_name : parse_keycode keys (codes "Power") ≡ ok 26
unfolding keys env_of same parse_keycode parse_i32 signed digits_loop decimal_digit by_name
    full_name starts_with to_upper
power_name = refl

power_full_name : parse_keycode keys (codes "keycode_POWER") ≡ ok 26
unfolding keys env_of same parse_keycode parse_i32 signed digits_loop decimal_digit by_name
    full_name starts_with to_upper
power_full_name = refl

power_number : parse_keycode keys (codes "26") ≡ ok 26
unfolding keys env_of same parse_keycode parse_i32 signed digits_loop decimal_digit by_number
    try_from
power_number = refl

no_negative : parse_keycode keys (codes "-26") ≡ err (unknown_number (negsuc 25))
unfolding keys env_of same parse_keycode parse_i32 signed digits_loop decimal_digit by_number
    try_from
no_negative = refl

too_large : parse_i32 (codes "2147483648") ≡ none
unfolding parse_i32 signed digits_loop decimal_digit
too_large = refl

abbrev target : HostArgs
target = record { host = "192.0.2.10"; port = none }

default_pairing : port (pair target) ≡ 6467
unfolding port args
default_pairing = refl

given_session : port (status (record target { port = some 7000 })) ≡ 7000
unfolding port args
given_session = refl

parse_keycode_case_example :
    accepted (parse_keycode keys (to_ascii_uppercase (codes "power")))
    ≡ accepted (parse_keycode keys (codes "power"))
parse_keycode_case_example = parse_keycode_case keys (codes "power")

parse_keycode-decimal_example : parse_keycode keys (decimal 26) ≡ ok 26
unfolding keys
parse_keycode-decimal_example = parse_keycode-decimal keys 26 "KEYCODE_POWER" (omega arith) refl
