-- ===== src/World/Effects.antt =====
-- What reading from and writing to a connection changes.
use atv.Base.{ℕ, zero, suc, Option, none, some, List, ◌∷◌}
use atv.Base.Exec.{Run, Result, ok, err, returns, fails, stuck}
use atv.Base.Ends.{Ends, Keeps}
use atv.Stream.{IoError}
use atv.World.{Env, World, sent}
use atv.World.Conn.{Conn, conn_read, conn_write}

module _ {κ} (env : Env) (conn : Conn) (P : World → Type κ) where
  abbrev Both : {A : Type 0} → Run World IoError A → Type κ
  Both r = Ends (λ _ t. P t) (λ _ t. P t) r

  cons_byte :
      (b : ℕ) (r : Run World IoError (List ℕ))
      → Both r
      → Both (elim r [ returns bs t ↦ returns (b ∷ bs) t | fails e t ↦ fails e t | stuck ↦ stuck ])
  cons_byte b (returns bs t) h = h
  cons_byte b (fails e t) h = h
  cons_byte b stuck h = tt

  -- A read moves the position on, and nothing else.
  pub conn_read-Keeps :
      ((w : World) → P w → P (record w { position = suc w.position }))
      → (n : ℕ) → Keeps P (conn_read env conn n)
  unfolding conn_read
  conn_read-Keeps moves zero = record { at = λ w h. h }
  conn_read-Keeps moves (suc n) = record {
    at = λ w h. go (conn_read-Keeps moves n) w h (env.inbound conn.id w.position);
  }
    where
      go :
          Keeps P (conn_read env conn n)
          → (w : World) → P w
          → (r : Result IoError ℕ)
          → Both (elim r [
            | err e ↦ fails e w
            | ok b ↦ elim (conn_read env conn n (record w { position = suc w.position })) [
              | returns bs t ↦ returns (b ∷ bs) t
              | fails e t ↦ fails e t
              | stuck ↦ stuck
            ]
          ])
      go rest w h (err e) = h
      go rest w h (ok b) = cons_byte b _ (rest.at _ (moves w h))

  -- A write is counted, and logged unless it fails.
  pub conn_write-Keeps :
      (bs : List ℕ)
      → ((w : World) → P w → P (record w { writes = suc w.writes }))
      → ((w : World) → P w → P (record w { writes = suc w.writes; log = sent conn.id bs ∷ w.log }))
      → Keeps P (conn_write env conn bs)
  unfolding conn_write
  conn_write-Keeps bs fault done = record { at = λ w h. go w h (env.write_fault w.writes) }
    where
      go :
          (w : World)
          → P w
          → (f : Option IoError)
          → Both {A = Unit {0}} (elim f [
            | some e ↦ fails e (record w { writes = suc w.writes })
            | none ↦ returns tt (record w { writes = suc w.writes; log = sent conn.id bs ∷ w.log })
          ])
      go w h (some e) = fault w h
      go w h none = done w h
