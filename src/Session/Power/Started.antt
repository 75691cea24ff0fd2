-- ===== src/Session/Power/Started.antt =====
-- The TV's side of `read_power`: whatever it says before its power state, but an error.
use atv.Base.{
  ℕ, ◌≡◌, refl, sym, ap, ◌∙◌, Bool, true, false, none, some, is_some, List, [], ◌∷◌, ◌++◌, All,
  arith,
}
use atv.Base.Exec.{ok, returns}
use atv.Proto.Remote.{RemoteMessage, RemoteConfigure, RemotePingRequest, RemoteStart}
use atv.World.{Env, World, IpAddr}
use atv.World.Conn.{Conn}
use atv.World.Chat.{over, heard, reply_of, replies_to}
use atv.World.Speech.{Speaks, Carries, stream}
use atv.Session.Handshake.{SessionHandshake, new, handle}
use atv.Session.Power.{open_session}
use atv.Session.Power.Dialogue.{Talks, Reaches}

-- A message that `handle` answers or passes over: it has a `configure`, a `set_active` or a `ping`,
-- or neither the power state nor an error.
pub data IsOther (m : RemoteMessage) : Type 0 where
  configures : (c : RemoteConfigure) → m.remote_configure ≡ some c → IsOther m
  activates : m.remote_configure ≡ none → is_some m.remote_set_active ≡ true → IsOther m
  pings :
      (p : RemotePingRequest)
      → m.remote_configure ≡ none
      → is_some m.remote_set_active ≡ false
      → m.remote_ping_request ≡ some p
      → IsOther m
  passes :
      m.remote_configure ≡ none
      → is_some m.remote_set_active ≡ false
      → m.remote_ping_request ≡ none
      → m.remote_start ≡ none
      → is_some m.remote_error ≡ false
      → IsOther m

-- A message that tells the power state.
pub record IsStart (power : Bool) (m : RemoteMessage) : Type 0 where
  pub start : RemoteStart
  pub no_configure : m.remote_configure ≡ none
  pub no_set_active : is_some m.remote_set_active ≡ false
  pub no_ping : m.remote_ping_request ≡ none
  pub has_start : m.remote_start ≡ some start
  pub started : start.started ≡ power

handle-IsOther :
    (hs : SessionHandshake) (m : RemoteMessage)
    → IsOther m
    → hs.power ≡ none
    → ((handle hs m).0 ≡ ok (reply_of (handle hs m).0)) × ((handle hs m).1.power ≡ none)
unfolding handle
handle-IsOther hs m (configures c e) h = rw (e, handle) (refl, h)
handle-IsOther hs m (activates e f) h = rw (e, f, handle) (refl, h)
handle-IsOther hs m (pings p e f g) h = rw (e, f, g, handle) (refl, h)
handle-IsOther hs m (passes e f g k l) h = (ground arith, ground arith)

handle-IsStart :
    (hs : SessionHandshake) (power : Bool) (m : RemoteMessage)
    → IsStart power m
    → ((handle hs m).0 ≡ ok none) × ((handle hs m).1.power ≡ some power)
unfolding handle
handle-IsStart hs power m s = (ground arith, ground arith)

-- A TV that says any such messages and then its power state is talked to.
Talks-IsStart :
    (hs : SessionHandshake) (msgs : List RemoteMessage) (m : RemoteMessage) (power : Bool)
    → All IsOther msgs
    → IsStart power m
    → hs.power ≡ none
    → (last : SessionHandshake) × Talks hs
        (msgs ++ m ∷ [])
        (replies_to handle hs (msgs ++ m ∷ []))
        last
      × (last.power ≡ some power)
Talks-IsStart hs [] m power others s h =
    let (replied, known) = handle-IsStart hs power m s in
    (
      (handle hs m).1,
      heard hs _ m _ [] [] (ap (λ o. is_some o) h)
          (replied ∙ ap (λ r. ok (reply_of r)) (sym replied))
          (over (handle hs m).1 (ap (λ o. is_some o) known)),
      known,
    )
Talks-IsStart hs (x ∷ msgs) m power others s h =
    let (replied, unknown) = handle-IsOther hs x others.0 h in
    let (last, talk, known) = Talks-IsStart (handle hs x).1 msgs m power others.1 s unknown in
    (last, heard hs last x _ (msgs ++ m ∷ []) _ (ap (λ o. is_some o) h) replied talk, known)

module _ (env : Env) (conn : Conn) where
  -- The client reaches the TV as `conn`, leaving the world as `u`; the TV says `msgs`, which may be
  -- anything but an error or its power state, and then, with `m`, its power state.
  pub record Starts (host : IpAddr) (port : ℕ) (w u : World) (msgs : List RemoteMessage)
      (m : RemoteMessage) (power : Bool) : Type 0 where
    pub opens : open_session env host port w ≡ returns conn u
    pub others : All IsOther msgs
    pub starts : IsStart power m
    pub carried : All (Carries env.remote) (msgs ++ m ∷ [])
    pub spoken : Speaks env conn u.position (stream env.remote (msgs ++ m ∷ []))
    pub written : (n : ℕ) → env.write_fault n ≡ none

  pub Starts-Reaches :
      (host : IpAddr) (port : ℕ) (w u : World) (msgs : List RemoteMessage) (m : RemoteMessage)
      (power : Bool)
      → Starts host port w u msgs m power
      → (last : SessionHandshake) × Reaches env conn host port w u
          (msgs ++ m ∷ [])
          (replies_to handle new (msgs ++ m ∷ []))
          last
          power
  Starts-Reaches host port w u msgs m power s =
      let (last, talk, known) = Talks-IsStart new msgs m power s.others s.starts refl in
      (
        last,
        record {
          opens = s.opens;
          talks = talk;
          knows = known;
          carried = s.carried;
          spoken = s.spoken;
          written = s.written;
        },
      )
