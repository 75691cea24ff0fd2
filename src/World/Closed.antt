-- ===== src/World/Closed.antt =====
-- Predicates on the world that talking to the TV does not disturb.
use atv.Base.{ℕ, suc, String, Option, List, ◌∷◌}
use atv.World.{World, IpAddr, sent, slept, read_timeout, connecting, eprinted, FilePath, File}

-- One law for each change: a byte read, a write failed or done, a connection tried to that port of
-- that host, a pause, a timeout set, the clock read.
pub record IsClosed (host : IpAddr) (port : ℕ) (P : World → Type 0) : Type 0 where
  pub on_read : (w : World) → P w → P (record w { position = suc w.position })
  pub on_fault : (w : World) → P w → P (record w { writes = suc w.writes })
  pub on_sent :
      (w : World) (id : ℕ) (bs : List ℕ)
      → P w
      → P (record w { writes = suc w.writes; log = sent id bs ∷ w.log })
  pub on_connect :
      (w : World) (ms : ℕ)
      → P w
      → P (record w {
        connects = suc w.connects;
        position = 0;
        log = connecting host port ms ∷ w.log;
      })
  pub on_sleep : (w : World) (ms : ℕ) → P w → P (record w { log = slept ms ∷ w.log })
  pub on_timeout : (w : World) (ms : ℕ) → P w → P (record w { log = read_timeout ms ∷ w.log })
  pub on_clock : (w : World) → P w → P (record w { readings = suc w.readings })

-- And that pairing does not disturb, with its files and its prompt.
pub record IsFree (host : IpAddr) (port : ℕ) (P : World → Type 0) : Type 0 where
  pub closed : IsClosed host port P
  pub on_files : (w : World) (files : FilePath → Option File) → P w → P (record w { files = files })
  pub on_eprinted : (w : World) (line : String) → P w → P (record w { log = eprinted line ∷ w.log })
