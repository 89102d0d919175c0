-- ===== src/Packet/Bytes.antt =====
-- What protocol.go uses of encoding/binary, bufio and io: big-endian words and reads from a stream.
-- A stream is the list of the bytes that arrive on it before its end.
use iip.Prelude.{
  ℕ, zero, suc, ◌+◌, ◌*◌, ◌/◌, ◌%◌, ◌^◌, ◌<◌, ◌≡◌, ◌≢◌, refl, List, [], ◌∷◌, ◌++◌, Option, none,
  some, ◌==◌, Bool-cases, inl, inr, if◌then◌else◌, length, All, arith, append_assoc,
}

abbrev pub IsByte : ℕ → Type 0
IsByte b = b < 256

-- binary.BigEndian.PutUint32 into four fresh bytes, of a number below 2 ^ 32.
unfoldable pub put_uint32 : ℕ → List ℕ
put_uint32 v = (v / 2 ^ 24 % 256) ∷ (v / 2 ^ 16 % 256) ∷ (v / 2 ^ 8 % 256) ∷ (v % 256) ∷ []

-- binary.BigEndian.Uint32, of a slice with at least four bytes.
unfoldable pub uint32 : List ℕ → ℕ
uint32 (a ∷ b ∷ c ∷ d ∷ _) = a * 2 ^ 24 + b * 2 ^ 16 + c * 2 ^ 8 + d
uint32 _ = 0

-- A read gives what it took and what is left, or none at the end of the stream.
abbrev pub ReadFull : Type 0
ReadFull = Option (List ℕ × List ℕ)

unfoldable pub read_byte : List ℕ → Option (ℕ × List ℕ)
read_byte [] = none
read_byte (b ∷ bs) = some (b, bs)

abbrev pub prepend : ℕ → ReadFull → ReadFull
prepend b none = none
prepend b (some (taken, left)) = some (b ∷ taken, left)

-- io.ReadFull into n bytes.
unfoldable pub read_full : ℕ → List ℕ → ReadFull
read_full zero input = some ([], input)
read_full (suc n) [] = none
read_full (suc n) (b ∷ bs) = prepend b (read_full n bs)

-- (*bufio.Reader).ReadSlice(0), less the delimiter: it fails if the stream ends, or the buffer of
-- `size` bytes fills up, with no NUL read.
unfoldable pub read_slice : ℕ → List ℕ → ReadFull
read_slice zero input = none
read_slice (suc size) [] = none
read_slice (suc size) (b ∷ bs) = if b == 0 then some ([], bs) else prepend b (read_slice size bs)

pub uint32-put_uint32 : (v : ℕ) → v < 2 ^ 32 → uint32 (put_uint32 v) ≡ v
unfolding uint32 put_uint32
uint32-put_uint32 v h = omega arith

pub put_uint32-uint32 :
    (a b c d : ℕ)
    → IsByte a
    → IsByte b
    → IsByte c
    → IsByte d
    → put_uint32 (uint32 (a ∷ b ∷ c ∷ d ∷ [])) ≡ a ∷ b ∷ c ∷ d ∷ []
unfolding uint32 put_uint32
put_uint32-uint32 a b c d ha hb hc hd = ground arith

pub uint32-lt :
    (a b c d : ℕ) → IsByte a → IsByte b → IsByte c → IsByte d → uint32 (a ∷ b ∷ c ∷ d ∷ []) < 2 ^ 32
unfolding uint32
uint32-lt a b c d ha hb hc hd = omega arith

-- A read of exactly the bytes at the front takes them and leaves the rest.
pub read_full-append : (xs rest : List ℕ) → read_full (length xs) (xs ++ rest) ≡ some (xs, rest)
unfolding read_full
read_full-append [] rest = refl
read_full-append (x ∷ xs) rest = rw (read_full-append xs rest)

-- No byte is NUL.
abbrev pub HasNoNul : List ℕ → Type 0
HasNoNul = All (λ b. b ≢ 0)

pub read_slice-append :
    (size : ℕ) (xs rest : List ℕ)
    → HasNoNul xs
    → length xs < size
    → read_slice size (xs ++ (0 ∷ rest)) ≡ some (xs, rest)
unfolding read_slice
read_slice-append zero xs rest h lt = absurd (omega arith)
read_slice-append (suc size) [] rest h lt = refl
read_slice-append (suc size) (x ∷ xs) rest h lt =
    ground (arith, read_slice-append size xs rest h.1 (omega arith))

prepend-eq_some :
    (b : ℕ) (r : ReadFull) {taken left : List ℕ}
    → prepend b r ≡ some (taken, left)
    → (t : List ℕ) × (r ≡ some (t, left)) × (taken ≡ b ∷ t)
prepend-eq_some b none e = cc
prepend-eq_some b (some (t, l)) e = (t, ground arith, ground arith)

-- What a successful read says of the stream.
pub read_full_parts :
    (n : ℕ) (xs : List ℕ) {taken left : List ℕ}
    → read_full n xs ≡ some (taken, left)
    → (taken ++ left ≡ xs) × (length taken ≡ n)
unfolding read_full
read_full_parts zero xs e = ground arith
read_full_parts (suc n) [] e = cc
read_full_parts (suc n) (x ∷ xs) e =
    let (t, got, shape) = prepend-eq_some x (read_full n xs) e in
    rw shape (ground (arith, read_full_parts n xs got))

pub read_slice_parts :
    (size : ℕ) (xs : List ℕ) {taken left : List ℕ}
    → read_slice size xs ≡ some (taken, left)
    → (taken ++ (0 ∷ left) ≡ xs) × HasNoNul taken × (length taken < size)
unfolding read_slice
read_slice_parts zero xs e = cc
read_slice_parts (suc size) [] e = cc
read_slice_parts (suc size) (x ∷ xs) {taken} {left} e = elim (Bool-cases (x == 0)) [
  | inl nul ↦
      let now : (taken ≡ []) × (left ≡ xs) × (x ≡ 0) = ground arith in
      rw (now.0, now.1, now.2) (refl, tt, omega arith)
  | inr more ↦
      let (t, got, shape) = prepend-eq_some x (read_slice size xs) (rw more at e) in
      rw shape (ground (arith, read_slice_parts size xs got))
]

-- More bytes behind do not change a read that succeeded.
pub read_full-append_some :
    (n : ℕ) (xs more : List ℕ) {taken left : List ℕ}
    → read_full n xs ≡ some (taken, left)
    → read_full n (xs ++ more) ≡ some (taken, left ++ more)
read_full-append_some n xs more {taken} {left} e =
    let (whole, size) = read_full_parts n xs e in
    rw (← whole, ← size, append_assoc) (read_full-append taken (left ++ more))

pub read_slice-append_some :
    (size : ℕ) (xs more : List ℕ) {taken left : List ℕ}
    → read_slice size xs ≡ some (taken, left)
    → read_slice size (xs ++ more) ≡ some (taken, left ++ more)
read_slice-append_some size xs more {taken} {left} e =
    let (whole, clean, fits) = read_slice_parts size xs e in
    rw (← whole, append_assoc) (read_slice-append size taken (left ++ more) clean fits)
