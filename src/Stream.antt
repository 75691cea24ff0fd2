-- ===== src/Stream.antt =====
-- Rust's `io::Error`, `Read::read_exact` and `Write::write_all` as the code relies on them, and
-- the in-memory reader and writer, `Cursor<&[u8]>` and `Vec<u8>`.
pub mod Cursor
use atv.Base.{ℕ, suc, ◌<◌, ◌≡◌, String, List, [], ◌∷◌, ◌++◌, refl, length}
use atv.Base.Exec.{Exec, Result, returns, stuck}

-- `io::ErrorKind`, the kinds that the code tells apart.
pub data IoErrorKind : Type 0 where
  unexpected_eof timed_out would_block invalid_data other : IoErrorKind

-- `text` is what its `Display` shows.
pub record IoError : Type 0 where
  pub kind : IoErrorKind
  pub text : String

abbrev pub IsByte : ℕ → Type 0
IsByte b = b < 256

pub record Read : Type 1 where
  pub Source : Type 0
  pub read_exact : ℕ → Exec Source IoError (List ℕ)

pub record Write : Type 1 where
  pub Sink : Type 0
  pub write_all : List ℕ → Exec Sink IoError (Unit {0})

-- A generated message type: `Message::encode_to_vec` and `Message::decode`. The error is its text.
pub record Codec (M : Type 0) : Type 0 where
  pub encode : M → List ℕ
  pub decode : List ℕ → Result String M

module _ (R : Read) where
  open R use {Source, read_exact}

  -- What `read_exact` promises: the bytes asked for, in the order of the stream.
  pub record IsRead : Type 0 where
    pub read_zero : (s : Source) → read_exact 0 s ≡ returns [] s
    pub read_suc :
        (n b : ℕ) (bs : List ℕ) (s t u : Source)
        → read_exact 1 s ≡ returns (b ∷ []) t
        → read_exact n t ≡ returns bs u
        → read_exact (suc n) s ≡ returns (b ∷ bs) u
    pub read_length :
        (n : ℕ) (bs : List ℕ) (s t : Source) → read_exact n s ≡ returns bs t → length bs ≡ n
    pub read_ends : (n : ℕ) (s : Source) → ¬ (read_exact n s ≡ stuck)

  -- The stream at `s` goes on with `bs`, and stands at `u` behind them.
  abbrev pub Yields : Source → List ℕ → Source → Type 0
  Yields s [] u = s ≡ u
  Yields s (b ∷ bs) u = (t : Source) × (read_exact 1 s ≡ returns (b ∷ []) t) × Yields t bs u

  pub read_exact-Yields :
      IsRead
      → (bs : List ℕ) (s u : Source) → Yields s bs u
      → read_exact (length bs) s ≡ returns bs u
  read_exact-Yields L [] s u e = rw (← e) (L.read_zero s)
  read_exact-Yields L (b ∷ bs) s u (t, e, y) =
      L.read_suc (length bs) b bs s t u e (read_exact-Yields L bs t u y)

  pub Yields-append :
      (xs ys : List ℕ) (s u : Source)
      → Yields s (xs ++ ys) u
      → (t : Source) × Yields s xs t × Yields t ys u
  Yields-append [] ys s u y = (s, refl, y)
  Yields-append (x ∷ xs) ys s u (m, e, y) =
      let (t, before, after) = Yields-append xs ys m u y in (t, (m, e, before), after)
