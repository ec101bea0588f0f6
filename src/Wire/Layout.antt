-- ===== src/Wire/Layout.antt =====
-- What the two loops do to the bytes, for any width and offset.
use native.Mathlib.Nat.{
  le_trans, pow-suc, one-le-pow, div-add-mod, div-div-eq-div-mul, mod-eq_of_lt,
}
use native.Mathlib.Numerals.{add-one}
use mathlib.Core.List.{append_assoc}
use hzl_silicon_switch_lab.Base.{
  ℕ, zero, suc, ◌+◌, ◌-◌, ◌*◌, ◌/◌, ◌%◌, ◌^◌, ◌≤◌, ◌<◌, bit_or, ◌≡◌, refl, ap, ◌∙◌, List, [], ◌∷◌,
  ◌++◌, some, arith, ltb-false, length, length-append, length-drop, get_or, set, drop, drop-cons,
  All, bit_or_fields, set-append,
}
use hzl_silicon_switch_lab.Wire.{IsByte, read_loop, read_big_endian, write_loop, write_big_endian}

-- The number that bytes stand for, highest first, after `value`.
abbrev pub be_value : ℕ → List ℕ → ℕ
be_value value [] = value
be_value value (b ∷ bs) = be_value (value * 256 + b) bs

-- The lowest `n` bytes of a number, highest first.
abbrev pub be_bytes : ℕ → ℕ → List ℕ
be_bytes zero value = []
be_bytes (suc n) value = (value / 256 ^ n % 256) ∷ be_bytes n value

pub length-be_bytes : (n value : ℕ) → length (be_bytes n value) ≡ n
length-be_bytes zero value = refl
length-be_bytes (suc n) value = ap suc (length-be_bytes n value)

pub be_bytes-IsByte : (n value : ℕ) → All IsByte (be_bytes n value)
be_bytes-IsByte zero value = tt
be_bytes-IsByte (suc n) value = (omega arith, be_bytes-IsByte n value)

shift_step :
    (size value b n : ℕ)
    → b < 256
    → (value + 1) * 256 ^ suc n ≤ 256 ^ size
    → bit_or (value * 2 ^ 8) b % 256 ^ size ≡ value * 256 + b
shift_step size value b n hb fits =
    rw (bit_or_fields 8 value b hb) (grind (arith, pow-suc 256 n, one-le-pow n 256))

mul_mono : (x y p : ℕ) → x ≤ y → x * p ≤ y * p
mul_mono x y p h = grind arith

fits_step :
    (value b n bound : ℕ)
    → b < 256
    → (value + 1) * 256 ^ suc n ≤ bound
    → (value * 256 + b + 1) * 256 ^ n ≤ bound
fits_step value b n bound h fits = omega (
  arith,
  mul_mono (value * 256 + b + 1) ((value + 1) * 256) (256 ^ n) (omega arith),
  ap (λ (t : ℕ). (value + 1) * t) (pow-suc 256 n),
)

read_loop-suc :
    (size : ℕ) (bytes : List ℕ) (remaining position value : ℕ)
    → read_loop size bytes (suc remaining) position value
      ≡ read_loop size bytes remaining
          (position + 1)
          (bit_or (value * 2 ^ 8) (get_or bytes position 0) % 256 ^ size)
unfolding read_loop
read_loop-suc size bytes remaining position value = refl

write_loop-suc :
    (value : ℕ) (bytes : List ℕ) (remaining position : ℕ)
    → write_loop value bytes (suc remaining) position
      ≡ write_loop value
          (set bytes position (value / 256 ^ remaining % 256))
          remaining
          (position + 1)
unfolding write_loop
write_loop-suc value bytes remaining position = refl

-- The loop reads the bytes that stand at its position.
pub read_loop-be_value :
    (size : ℕ) (bytes mid post : List ℕ) (position value : ℕ)
    → drop position bytes ≡ mid ++ post
    → All IsByte mid
    → (value + 1) * 256 ^ length mid ≤ 256 ^ size
    → read_loop size bytes (length mid) position value ≡ be_value value mid
read_loop-be_value size bytes [] post position value e h fits = unfold read_loop in refl
read_loop-be_value size bytes (b ∷ mid) post position value e h fits =
    let (here, later) = drop-cons bytes position 0 b (mid ++ post) e in
    rw (read_loop-suc, here, shift_step size value b (length mid) h.0 fits, add-one)
      (read_loop-be_value size bytes mid post (suc position) (value * 256 + b) later h.1
        (fits_step value b (length mid) (256 ^ size) h.0 fits))

pub within :
    (bytes mid post : List ℕ) (offset size : ℕ)
    → drop offset bytes ≡ mid ++ post
    → length mid ≡ size
    → 0 < size
    → (offset ≤ length bytes) × (size ≤ length bytes - offset)
within bytes mid post offset size e len pos =
    omega (arith, ap length e, length-drop offset bytes, length-append mid post)

-- A read gives the number that the bytes at its offset stand for.
pub read-be_value :
    (size : ℕ) (bytes mid post : List ℕ) (offset : ℕ)
    → drop offset bytes ≡ mid ++ post
    → length mid ≡ size
    → 0 < size
    → All IsByte mid
    → read_big_endian size bytes offset ≡ some (be_value 0 mid)
unfolding read_big_endian
read-be_value size bytes mid post offset e len pos h =
    let (a, b) = within bytes mid post offset size e len pos in
    rw (ltb-false (length bytes) offset a, ltb-false (length bytes - offset) size b, ← len)
      (ap some (read_loop-be_value (length mid) bytes mid post offset 0 e h (omega arith)))

-- The loop replaces the cells at its position by the bytes of the number.
write_loop-be_bytes :
    (value : ℕ) (pre old post : List ℕ)
    → write_loop value (pre ++ (old ++ post)) (length old) (length pre)
      ≡ pre ++ (be_bytes (length old) value ++ post)
write_loop-be_bytes value pre [] post = unfold write_loop in refl
write_loop-be_bytes value pre (x ∷ old) post =
    let v = value / 256 ^ length old % 256 in
    rw (write_loop-suc, set-append pre x v (old ++ post))
      (let e = write_loop-be_bytes value (pre ++ (v ∷ [])) old post in
        ground (
          arith,
          e,
          append_assoc pre (v ∷ []) (old ++ post),
          append_assoc pre (v ∷ []) (be_bytes (length old) value ++ post),
          length-append pre (v ∷ []),
        ))

-- A write inside the bytes replaces just the cells that it covers.
pub write-be_bytes :
    (size value : ℕ) (pre old post : List ℕ) (offset : ℕ)
    → length pre ≡ offset
    → length old ≡ size
    → write_big_endian size value (pre ++ (old ++ post)) offset
      ≡ some (pre ++ (be_bytes size value ++ post))
unfolding write_big_endian
write-be_bytes size value pre old post offset at len =
    let n = length-append pre (old ++ post) in
    let m = length-append old post in
    rw
      (
        ltb-false (length (pre ++ (old ++ post))) offset (omega arith),
        ltb-false (length (pre ++ (old ++ post)) - offset) size (omega arith),
        ← len,
        ← at,
      )
      (ap some (write_loop-be_bytes value pre old post))

digit_split : (v p k : ℕ) → v / p / 256 ≡ k → v ≡ p * 256 * k + v / p % 256 * p + v % p
digit_split v p k e = omega (
  arith,
  div-add-mod v p,
  ap (λ (t : ℕ). t * p) (div-add-mod (v / p) 256),
  ap (λ (t : ℕ). t * p) e,
)

fold_step : (v n : ℕ) → v / 256 ^ n % 256 * 256 ^ n + v % 256 ^ n ≡ v % 256 ^ suc n
fold_step v n =
    let p = 256 ^ n in
    rw (pow-suc 256 n) (
      omega (
        arith,
        digit_split v p (v / (p * 256)) (div-div-eq-div-mul v p 256),
        div-add-mod v (p * 256),
      ))

-- Reading the lowest bytes of a number gives it back, modulo the width.
pub be_value-be_bytes :
    (n value v : ℕ) → be_value value (be_bytes n v) ≡ value * 256 ^ n + v % 256 ^ n
be_value-be_bytes zero value v = omega arith
be_value-be_bytes (suc n) value v =
    be_value-be_bytes n (value * 256 + v / 256 ^ n % 256) v
    ∙ omega (arith, fold_step v n, ap (λ (t : ℕ). value * t) (pow-suc 256 n))

-- Bytes of a number that fits are told apart by it.
pub be_value-of_fit : (n v : ℕ) → v < 256 ^ n → be_value 0 (be_bytes n v) ≡ v
be_value-of_fit n v h = be_value-be_bytes n 0 v ∙ omega (arith, mod-eq_of_lt h)

be_value-div :
    (value : ℕ) (bs : List ℕ) → All IsByte bs → be_value value bs / 256 ^ length bs ≡ value
be_value-div value [] h = omega arith
be_value-div value (b ∷ bs) h =
    rw (pow-suc 256 (length bs), ← div-div-eq-div-mul, be_value-div (value * 256 + b) bs h.1)
      (omega arith)

-- And bytes are told apart by the number that they stand for.
pub be_bytes-be_value :
    (value : ℕ) (bs : List ℕ) → All IsByte bs → be_bytes (length bs) (be_value value bs) ≡ bs
be_bytes-be_value value [] h = refl
be_bytes-be_value value (b ∷ bs) h =
    rw (be_value-div (value * 256 + b) bs h.1, be_bytes-be_value (value * 256 + b) bs h.1)
      (ap (λ t. t ∷ bs) (omega arith))

pub be_value-lt :
    (value : ℕ) (bs : List ℕ) → All IsByte bs → be_value value bs < (value + 1) * 256 ^ length bs
be_value-lt value [] h = omega arith
be_value-lt value (b ∷ bs) h =
    le_trans (be_value-lt (value * 256 + b) bs h.1)
      (fits_step value b (length bs) ((value + 1) * 256 ^ suc (length bs)) h.0 (omega arith))

-- A write that fits is the loop.
pub write_fits :
    (size value : ℕ) (bytes : List ℕ) (offset : ℕ)
    → offset + size ≤ length bytes
    → write_big_endian size value bytes offset ≡ some (write_loop value bytes size offset)
unfolding write_big_endian
write_fits size value bytes offset h = rw (
  ltb-false (length bytes) offset (omega arith),
  ltb-false (length bytes - offset) size (omega arith),
)

-- A number that stands at the offset is read.
pub read-be_bytes :
    (size value : ℕ) (bytes post : List ℕ) (offset : ℕ)
    → drop offset bytes ≡ be_bytes size value ++ post
    → 0 < size
    → value < 256 ^ size
    → read_big_endian size bytes offset ≡ some value
read-be_bytes size value bytes post offset e pos h =
    read-be_value size bytes (be_bytes size value) post offset e (length-be_bytes size value) pos
      (be_bytes-IsByte size value)
    ∙ ap some (be_value-of_fit size value h)

-- A read that fits is the loop.
pub read_fits :
    (size : ℕ) (bytes : List ℕ) (offset : ℕ)
    → offset + size ≤ length bytes
    → read_big_endian size bytes offset ≡ some (read_loop size bytes size offset 0)
unfolding read_big_endian
read_fits size bytes offset h = rw (
  ltb-false (length bytes) offset (omega arith),
  ltb-false (length bytes - offset) size (omega arith),
)
