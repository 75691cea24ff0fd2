-- ===== src/World/Speech.antt =====
-- A connection whose inbound stream is known for a while: what reading from it returns. And
-- writing, where no write fails.
use atv.Base.{ℕ, suc, ◌≤◌, ◌≡◌, refl, Option, none, some, List, [], ◌∷◌, ◌++◌, length}
use atv.Base.Exec.{ok, err, returns, fails, bind-fails}
use atv.Stream.{Yields, Codec, IoError}
use atv.Framing.{frame, max_frame, read_message, read_len, write_message}
use atv.Framing.RoundTrip.{read_message-frame}
use atv.World.{Env, World, Event, sent}
use atv.World.Conn.{Conn, reader, writer, reader-IsRead, conn_read, conn_write}

module _ (env : Env) (conn : Conn) where
  -- The bytes stand in the connection's inbound stream from a position on.
  abbrev pub Speaks : ℕ → List ℕ → Type 0
  Speaks p [] = Unit
  Speaks p (b ∷ bs) = (env.inbound conn.id p ≡ ok b) × Speaks (suc p) bs

abbrev pub behind : ℕ → List ℕ → ℕ
behind p [] = p
behind p (b ∷ bs) = behind (suc p) bs

abbrev pub moved : World → ℕ → World
moved w p = record w { position = p }

pub behind-append : (xs ys : List ℕ) (p : ℕ) → behind p (xs ++ ys) ≡ behind (behind p xs) ys
behind-append [] ys p = refl
behind-append (x ∷ xs) ys p = behind-append xs ys (suc p)

module _ {M : Type 0} (c : Codec M) where
  -- A message that its encoding decodes to, and that fits a frame.
  abbrev pub Carries : M → Type 0
  Carries msg = (c.decode (c.encode msg) ≡ ok msg) × (length (c.encode msg) ≤ max_frame)

  abbrev pub stream : List M → List ℕ
  stream [] = []
  stream (msg ∷ msgs) = frame c msg ++ stream msgs

  -- A message written, if there is one.
  abbrev pub answered : ℕ → Option M → World → World
  answered id none w = w
  answered id (some msg) w = record w { writes = suc w.writes; log = sent id (frame c msg) ∷ w.log }

  -- The answers are written in their order.
  abbrev pub told : ℕ → List (Option M) → List Event → List Event
  told id [] log = log
  told id (none ∷ answers) log = told id answers log
  told id (some msg ∷ answers) log = told id answers (sent id (frame c msg) ∷ log)

  pub answered-position :
      (id : ℕ) (answer : Option M) (w : World) → (answered id answer w).position ≡ w.position
  answered-position id none w = refl
  answered-position id (some msg) w = refl

  pub answered-readings :
      (id : ℕ) (answer : Option M) (w : World) → (answered id answer w).readings ≡ w.readings
  answered-readings id none w = refl
  answered-readings id (some msg) w = refl

  pub told-answered :
      (id : ℕ) (answer : Option M) (answers : List (Option M)) (w : World)
      → told id answers (answered id answer w).log ≡ told id (answer ∷ answers) w.log
  told-answered id none answers w = refl
  told-answered id (some msg) answers w = refl

module _ (env : Env) (conn : Conn) where
  Speaks-Yields :
      (bs : List ℕ) (w : World) (p : ℕ)
      → Speaks env conn p bs
      → Yields (reader env conn) (moved w p) bs (moved w (behind p bs))
  unfolding conn_read
  Speaks-Yields [] w p h = refl
  Speaks-Yields (b ∷ bs) w p h =
      (moved w (suc p), (rw (h.0, conn_read) refl), Speaks-Yields bs w (suc p) h.1)

  pub Speaks-append :
      (xs ys : List ℕ) (p : ℕ)
      → Speaks env conn p (xs ++ ys)
      → Speaks env conn p xs × Speaks env conn (behind p xs) ys
  Speaks-append [] ys p h = (tt, h)
  Speaks-append (x ∷ xs) ys p h =
      let (before, after) = Speaks-append xs ys (suc p) h.1 in ((h.0, before), after)

  conn_read-unread :
      (x : IoError) (w : World)
      → env.inbound conn.id w.position ≡ err x
      → conn_read env conn 1 w ≡ fails x w
  unfolding conn_read
  conn_read-unread x w e = rw (e, conn_read) refl

  module _ {M : Type 0} (c : Codec M) where
    -- A frame that stands in the stream is read as its message.
    pub read_message-said :
        (msg : M) (w : World)
        → Carries c msg
        → Speaks env conn w.position (frame c msg)
        → read_message (reader env conn) c w
          ≡ returns msg (moved w (behind w.position (frame c msg)))
    read_message-said msg w carries h =
        read_message-frame (reader env conn) (reader-IsRead env conn) c msg w
          (moved w (behind w.position (frame c msg))) carries.0 carries.1
          (Speaks-Yields (frame c msg) w w.position h)

    -- A stream that fails at its next byte yields no message.
    pub read_message-unread :
        (x : IoError) (w : World)
        → env.inbound conn.id w.position ≡ err x
        → read_message (reader env conn) c w ≡ fails x w
    unfolding read_message read_len
    read_message-unread x w e =
        bind-fails (read_len (reader env conn) 5 0 0) _ w w x
          (bind-fails (conn_read env conn 1) _ w w x (conn_read-unread x w e))

    module _ (writes : (n : ℕ) → env.write_fault n ≡ none) where
      pub write_message-written :
          (msg : M) (w : World)
          → write_message c (writer env conn) msg w ≡ returns tt (answered c conn.id (some msg) w)
      unfolding conn_write write_message
      write_message-written msg w = rw (writes w.writes, conn_write) refl
