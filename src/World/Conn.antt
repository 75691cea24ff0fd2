-- ===== src/World/Conn.antt =====
-- `tls::Conn`: a TLS stream over TCP, read from the inbound stream of its connection and written
-- to the log. The TLS handshake takes place within the first write or read, whose error it is.
use atv.Base.{ℕ, zero, suc, ◌≡◌, refl, none, some, List, [], ◌∷◌, length, arith}
use atv.Base.Exec.{Exec, ok, err, returns, fails, stuck}
use atv.Stream.{IoError, Read, Write, IsRead}
use atv.World.{Env, World, sent}

pub record Conn : Type 0 where
  pub id : ℕ

module _ (env : Env) (conn : Conn) where
  unfoldable pub conn_read : ℕ → Exec World IoError (List ℕ)
  conn_read zero w = returns [] w
  conn_read (suc n) w = elim (env.inbound conn.id w.position) [
    | err e ↦ fails e w
    | ok b ↦ elim (conn_read n (record w { position = suc w.position })) [
      | returns bs t ↦ returns (b ∷ bs) t
      | fails e t ↦ fails e t
      | stuck ↦ stuck
    ]
  ]

  -- A failed write may have delivered a part, which no caller counts as sent.
  unfoldable pub conn_write : List ℕ → Exec World IoError (Unit {0})
  conn_write bs w = elim (env.write_fault w.writes) [
    | some e ↦ fails e (record w { writes = suc w.writes })
    | none ↦ returns tt (record w { writes = suc w.writes; log = sent conn.id bs ∷ w.log })
  ]

  abbrev pub reader : Read
  reader = record { Source = World; read_exact = conn_read }

  abbrev pub writer : Write
  writer = record { Sink = World; write_all = conn_write }

  conn_suc :
      (n b : ℕ) (bs : List ℕ) (s t u : World)
      → conn_read 1 s ≡ returns (b ∷ []) t
      → conn_read n t ≡ returns bs u
      → conn_read (suc n) s ≡ returns (b ∷ bs) u
  unfolding conn_read
  conn_suc n b bs s t u h k = ground arith

  conn_length : (n : ℕ) (bs : List ℕ) (s t : World) → conn_read n s ≡ returns bs t → length bs ≡ n
  unfolding conn_read
  conn_length zero bs s t h = ground arith
  conn_length (suc n) [] s t h = ground arith
  conn_length (suc n) (x ∷ bs) s t h =
      ground (arith, conn_length n bs (record s { position = suc s.position }) t)

  conn_ends : (n : ℕ) (s : World) → ¬ (conn_read n s ≡ stuck)
  unfolding conn_read
  conn_ends zero s h = cc
  conn_ends (suc n) s h = ground (arith, conn_ends n (record s { position = suc s.position }))

  pub reader-IsRead : IsRead reader
  unfolding conn_read
  reader-IsRead = record {
    read_zero = λ s. refl;
    read_suc = conn_suc;
    read_length = conn_length;
    read_ends = conn_ends;
  }
