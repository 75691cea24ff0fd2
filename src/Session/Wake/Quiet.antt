-- ===== src/Session/Wake/Quiet.antt =====
-- The datagrams sent so far. Talking to the TV sends none.
use atv.Base.{ℕ, ◌≡◌, List, [], ◌∷◌}
use atv.World.{IpAddr, World, Event, broadcast}
use atv.World.Closed.{IsClosed}

-- The datagrams broadcast so far, the newest first.
abbrev pub datagrams : List Event → List (List ℕ)
datagrams [] = []
datagrams (broadcast addr port bytes ∷ log) = bytes ∷ datagrams log
datagrams (_ ∷ log) = datagrams log

abbrev pub Quiet : List (List ℕ) → World → Type 0
Quiet sofar w = datagrams w.log ≡ sofar

pub Quiet-IsClosed :
    {host : IpAddr} {port : ℕ} (sofar : List (List ℕ)) → IsClosed host port (Quiet sofar)
Quiet-IsClosed sofar = record {
  on_read = λ w h. h;
  on_fault = λ w h. h;
  on_sent = λ w id bs h. h;
  on_connect = λ w ms h. h;
  on_sleep = λ w ms h. h;
  on_timeout = λ w ms h. h;
  on_clock = λ w h. h;
}
