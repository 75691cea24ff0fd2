-- ===== src/Main/Stdout.antt =====
-- What reaches stdout.
use atv.Base.{ℕ, ◌≡◌, String, List, [], ◌∷◌}
use atv.World.{IpAddr, World, Event, printed}
use atv.World.Closed.{IsFree}

-- The lines on stdout so far, the newest first.
abbrev pub stdout : List Event → List String
stdout [] = []
stdout (printed line ∷ log) = line ∷ stdout log
stdout (_ ∷ log) = stdout log

abbrev pub Lines : List String → World → Type 0
Lines sofar w = stdout w.log ≡ sofar

pub Lines-IsFree : {host : IpAddr} {port : ℕ} (sofar : List String) → IsFree host port (Lines sofar)
Lines-IsFree sofar = record {
  closed = record {
    on_read = λ w h. h;
    on_fault = λ w h. h;
    on_sent = λ w id bs h. h;
    on_connect = λ w ms h. h;
    on_sleep = λ w ms h. h;
    on_timeout = λ w ms h. h;
    on_clock = λ w h. h;
  };
  on_files = λ w files h. h;
  on_eprinted = λ w line h. h;
}
