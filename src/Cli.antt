-- ===== src/Cli.antt =====
-- cli.rs: the keycode argument, and the commands with their ports. What clap makes of the command
-- line is a `Cli`; a text is the list of its bytes.
pub mod Number
pub mod Keycode
use atv.Base.{
  ℕ, ◌-◌, Bool, true, false, ◌&&◌, Option, none, some, List, [], ◌∷◌, ◌++◌, map, leb, ◌==◌, codes,
  if◌then◌else◌,
}
use atv.Base.Exec.{Result, ok, err}
use atv.World.{Env, IpAddr}
use atv.Cli.Number.{ℤ, pos, negsuc, parse_i32}

-- `PAIRING_PORT`, `SESSION_PORT`
abbrev pub pairing_port : ℕ
pairing_port = 6467

abbrev pub session_port : ℕ
session_port = 6466

-- The two messages of `parse_keycode`, with the value that they show.
pub data KeycodeError : Type 0 where
  unknown_number : ℤ → KeycodeError
  unknown_name : List ℕ → KeycodeError

-- `to_ascii_uppercase`
unfoldable pub to_upper : ℕ → ℕ
to_upper c = if leb b'a' c && leb c b'z' then c - 32 else c

abbrev pub to_ascii_uppercase : List ℕ → List ℕ
to_ascii_uppercase = map to_upper

unfoldable pub starts_with : List ℕ → List ℕ → Bool
starts_with s [] = true
starts_with [] (p ∷ ps) = false
starts_with (c ∷ s) (p ∷ ps) = c == p && starts_with s ps

abbrev pub keycode_prefix : List ℕ
keycode_prefix = codes "KEYCODE_"

-- The name that is looked up.
unfoldable pub full_name : List ℕ → List ℕ
full_name s =
    let upper = to_ascii_uppercase s in
    if starts_with upper keycode_prefix then upper else keycode_prefix ++ upper

module _ (env : Env) where
  -- `RemoteKeyCode::try_from(n).map(|k| k as i32)`: the generated enum has no negative value.
  unfoldable pub try_from : ℤ → Option ℕ
  try_from (pos n) = elim (env.key_name n) [ some name ↦ some n | none ↦ none ]
  try_from (negsuc n) = none

  -- The branch on a number.
  unfoldable pub by_number : ℤ → Result KeycodeError ℕ
  by_number n = elim (try_from n) [ some code ↦ ok code | none ↦ err (unknown_number n) ]

  -- The branch on a name.
  unfoldable pub by_name : List ℕ → Result KeycodeError ℕ
  by_name s = elim (env.key_of_name (full_name s)) [
    | some code ↦ ok code
    | none ↦ err (unknown_name s)
  ]

  unfoldable pub parse_keycode : List ℕ → Result KeycodeError ℕ
  parse_keycode s = elim (parse_i32 s) [ some n ↦ by_number n | none ↦ by_name s ]

pub record HostArgs : Type 0 where
  pub host : IpAddr
  pub port : Option ℕ

pub record OnArgs : Type 0 where
  pub target : HostArgs
  pub mac : Option (List ℕ)

pub record KeyArgs : Type 0 where
  pub target : HostArgs
  pub keys : List ℕ

pub record LaunchArgs : Type 0 where
  pub target : HostArgs
  pub app_link : List ℕ

pub record DiscoverArgs : Type 0 where
  pub timeout : ℕ

pub data Command : Type 0 where
  pair status off : HostArgs → Command
  on : OnArgs → Command
  key : KeyArgs → Command
  launch : LaunchArgs → Command
  discover : DiscoverArgs → Command

-- `Command::args`
unfoldable pub args : Command → Option HostArgs
args (pair a) = some a
args (status a) = some a
args (off a) = some a
args (on o) = some o.target
args (key k) = some k.target
args (launch l) = some l.target
args (discover d) = none

abbrev pub default_port : Command → ℕ
default_port (pair a) = pairing_port
default_port _ = session_port

-- `self.args().and_then(|a| a.port)`
abbrev pub given_port : Option HostArgs → Option ℕ
given_port none = none
given_port (some a) = a.port

-- `Command::port`
unfoldable pub port : Command → ℕ
unfolding args
port c = elim (given_port (args c)) [ some p ↦ p | none ↦ default_port c ]

pub record Cli : Type 0 where
  pub command : Command
