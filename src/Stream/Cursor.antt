-- ===== src/Stream/Cursor.antt =====
-- `Cursor<&[u8]>` as a reader and `Vec<u8>` as a writer.
use atv.Base.{ℕ, zero, suc, ◌+◌, ◌≤◌, ◌≡◌, refl, List, [], ◌∷◌, ◌++◌, length, arith}
use atv.Base.Exec.{Exec, Run, returns, fails, stuck}
use atv.Base.Ends.{Ends}
use atv.Stream.{IoError, unexpected_eof, Read, Write, IsRead, Yields}

abbrev pub eof : IoError
eof = record { kind = unexpected_eof; text = "failed to fill whole buffer" }

-- What is left after a failure no caller looks at.
unfoldable pub cursor_read : ℕ → Exec (List ℕ) IoError (List ℕ)
cursor_read zero s = returns [] s
cursor_read (suc n) [] = fails eof []
cursor_read (suc n) (b ∷ s) = elim (cursor_read n s) [
  | returns bs t ↦ returns (b ∷ bs) t
  | fails e t ↦ fails e t
  | stuck ↦ stuck
]

abbrev pub cursor : Read
cursor = record { Source = List ℕ; read_exact = cursor_read }

-- Never fails: memory is not exhausted.
abbrev pub vec_writer : Write
vec_writer = record { Sink = List ℕ; write_all = λ bs sink. returns tt (sink ++ bs) }

cursor_suc :
    (n b : ℕ) (bs s t u : List ℕ)
    → cursor_read 1 s ≡ returns (b ∷ []) t
    → cursor_read n t ≡ returns bs u
    → cursor_read (suc n) s ≡ returns (b ∷ bs) u
unfolding cursor_read
cursor_suc n b bs [] t u h k = cc
cursor_suc n b bs (x ∷ s) t u h k = ground arith

cursor_length : (n : ℕ) (bs s t : List ℕ) → cursor_read n s ≡ returns bs t → length bs ≡ n
unfolding cursor_read
cursor_length zero bs s t h = ground arith
cursor_length (suc n) bs [] t h = cc
cursor_length (suc n) [] (b ∷ s) t h = ground arith
cursor_length (suc n) (x ∷ bs) (b ∷ s) t h = ground (arith, cursor_length n bs s t)

cursor_ends : (n : ℕ) (s : List ℕ) → ¬ (cursor_read n s ≡ stuck)
unfolding cursor_read
cursor_ends zero s h = cc
cursor_ends (suc n) [] h = cc
cursor_ends (suc n) (b ∷ s) h = ground (arith, cursor_ends n s)

pub cursor-IsRead : IsRead cursor
unfolding cursor_read
cursor-IsRead = record {
  read_zero = λ s. refl;
  read_suc = cursor_suc;
  read_length = cursor_length;
  read_ends = cursor_ends;
}

pub cursor-Yields : (bs rest : List ℕ) → Yields cursor (bs ++ rest) bs rest
unfolding cursor_read
cursor-Yields [] rest = refl
cursor-Yields (b ∷ bs) rest = (bs ++ rest, refl, cursor-Yields bs rest)

left_cons :
    (n b : ℕ) (s : List ℕ) (r : Run (List ℕ) IoError (List ℕ))
    → Ends (λ _ t. length s ≤ length t + n) (λ _ t. length s ≤ length t + n) r
    → Ends
        (λ _ t. suc (length s) ≤ length t + suc n)
        (λ _ t. suc (length s) ≤ length t + suc n)
        (elim r [ returns bs t ↦ returns (b ∷ bs) t | fails e t ↦ fails e t | stuck ↦ stuck ])
left_cons n b s (returns bs t) h = omega (arith, h)
left_cons n b s (fails e t) h = omega (arith, h)
left_cons n b s stuck h = tt

-- A read takes no more than it asks for.
pub cursor_read-left :
    (n : ℕ) (s : List ℕ)
    → Ends (λ _ t. length s ≤ length t + n) (λ _ t. length s ≤ length t + n) (cursor_read n s)
unfolding cursor_read
cursor_read-left zero s = omega arith
cursor_read-left (suc n) [] = omega arith
cursor_read-left (suc n) (b ∷ s) = left_cons n b s (cursor_read n s) (cursor_read-left n s)
