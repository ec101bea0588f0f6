-- ===== src/Network/Checksum/Sum.antt =====
-- What the loop computes: the sum of the 16-bit words, in one's complement arithmetic.
use hzl_silicon_switch_lab.Base.{
  ℕ, ◌+◌, ◌-◌, ◌*◌, ◌%◌, ◌^◌, ◌≤◌, ◌<◌, ◌≡◌, ◌∙◌, ap, ◌↔◌, List, [], ◌∷◌, ◌++◌, true, arith,
  All-append, ◌==◌, if◌then◌else◌, bit_or, bit_and_low, bit_or_fields, All,
}
use hzl_silicon_switch_lab.Wire.{IsByte}
use hzl_silicon_switch_lab.Wire.Layout.{be_bytes, be_bytes-IsByte}
use hzl_silicon_switch_lab.Network.Checksum.{
  fold_carry, sum_loop, compute_internet_checksum, has_valid_internet_checksum,
}

-- The plain sum of the words of a byte string; an odd last byte is a high byte.
unfoldable pub word_total : List ℕ → ℕ
word_total [] = 0
word_total (high ∷ []) = high * 256
word_total (high ∷ low ∷ bytes) = high * 256 + low + word_total bytes

-- A sum in one's complement: the carries go round, and only zero is zero.
unfoldable pub ones_complement : ℕ → ℕ
ones_complement total = if total == 0 then 0 else (total - 1) % 65535 + 1

ones_complement_le : (t : ℕ) → ones_complement t ≤ 65535
unfolding ones_complement
ones_complement_le t = ground arith

fold_carry_lem : (s : ℕ) → s ≤ 131070 → fold_carry s ≡ ones_complement s
unfolding fold_carry ones_complement
fold_carry_lem s h = ground (arith, bit_and_low 16 s)

ones_complement-add : (a b : ℕ) → ones_complement (ones_complement a + b) ≡ ones_complement (a + b)
unfolding ones_complement
ones_complement-add a b = ground arith

step_lem :
    (a w : ℕ) → w ≤ 65535 → fold_carry ((ones_complement a + w) % 2 ^ 32) ≡ ones_complement (a + w)
step_lem a w h =
    let small = ones_complement_le a in
    rw
      (
        mod_small (ones_complement a + w) (omega arith),
        fold_carry_lem (ones_complement a + w) (omega arith),
      )
      (ones_complement-add a w)
  where
    mod_small : (x : ℕ) → x < 2 ^ 32 → x % 2 ^ 32 ≡ x
    mod_small x k = omega arith

word_lem :
    (high low : ℕ)
    → IsByte high
    → IsByte low
    → bit_or (high * 2 ^ 8) low % 2 ^ 16 ≡ high * 256 + low
word_lem high low h l = rw (bit_or_fields 8 high low l) (omega arith)

sum_loop-word_total :
    (bytes : List ℕ) (a : ℕ)
    → All IsByte bytes
    → sum_loop bytes (ones_complement a) ≡ ones_complement (a + word_total bytes)
unfolding sum_loop word_total
sum_loop-word_total [] a h = ap ones_complement (omega arith)
sum_loop-word_total (high ∷ []) a h =
    ap (λ (t : ℕ). fold_carry ((ones_complement a + t) % 2 ^ 32)) (omega arith)
    ∙ step_lem a (high * 256) (omega arith)
sum_loop-word_total (high ∷ low ∷ bytes) a (h, (l, hs)) =
    ap (λ (t : ℕ). sum_loop bytes (fold_carry ((ones_complement a + t) % 2 ^ 32)))
      (word_lem high low h l)
    ∙ ap (sum_loop bytes) (step_lem a (high * 256 + low) (omega arith))
    ∙ sum_loop-word_total bytes (a + (high * 256 + low)) hs
    ∙ ap ones_complement (omega arith)

-- The checksum of any bytes is the complement of the one's complement sum of their 16-bit words, an
-- odd last byte being the high half of a word.
pub checksum-word_total :
    (bytes : List ℕ)
    → All IsByte bytes
    → compute_internet_checksum bytes ≡ 65535 - ones_complement (word_total bytes)
unfolding compute_internet_checksum
checksum-word_total bytes h =
    let t = word_total bytes in
    let small = ones_complement_le t in
    rw
      (
        start bytes h,
        fold_carry_lem (ones_complement t) (omega arith),
        ones_complement_idem t,
        bit_and_low 16 (0xffffffff - ones_complement t),
      )
      (omega arith)
  where
    start : (bs : List ℕ) → All IsByte bs → sum_loop bs 0 ≡ ones_complement (word_total bs)
    start bs k =
        unfold ones_complement in sum_loop-word_total bs 0 k ∙ ap ones_complement (omega arith)

    ones_complement_idem : (t : ℕ) → ones_complement (ones_complement t) ≡ ones_complement t
    ones_complement_idem t = unfold ones_complement in ground arith

-- Bytes pass the checksum test just when their words sum to a positive multiple of 65535.
pub has_valid_iff :
    (bytes : List ℕ)
    → All IsByte bytes
    → (has_valid_internet_checksum bytes ≡ true)
      ↔ ((0 < word_total bytes) × (word_total bytes % 65535 ≡ 0))
unfolding has_valid_internet_checksum
has_valid_iff [] h = (λ e. absurd (cc), λ p. absurd (unfold word_total in omega arith))
has_valid_iff (b ∷ bs) h =
    rw (checksum-word_total (b ∷ bs) h) (unfold ones_complement in ground arith)

-- A run of whole words.
abbrev pub IsEven : List ℕ → Type 0
IsEven [] = Unit {0}
IsEven (a ∷ []) = ⊥
IsEven (a ∷ b ∷ bytes) = IsEven bytes

pub word_total-append :
    (xs ys : List ℕ) → IsEven xs → word_total (xs ++ ys) ≡ word_total xs + word_total ys
unfolding word_total
word_total-append [] ys h = omega arith
word_total-append (a ∷ []) ys h = absurd h
word_total-append (a ∷ b ∷ xs) ys h = omega (arith, word_total-append xs ys h)

complement_total :
    (a b c total : ℕ)
    → c ≡ 65535 - ones_complement (a + b)
    → total ≡ a + (c + b)
    → (0 < total) × (total % 65535 ≡ 0)
unfolding ones_complement
complement_total a b c total e f = ground arith

zero_word :
    (pre post : List ℕ)
    → IsEven pre
    → word_total (pre ++ (0 ∷ 0 ∷ post)) ≡ word_total pre + word_total post
zero_word pre post h = word_total-append pre (0 ∷ 0 ∷ post) h ∙ unfold word_total in omega arith

checksum_word :
    (pre post : List ℕ) (c : ℕ)
    → IsEven pre
    → c ≤ 65535
    → word_total (pre ++ (be_bytes 2 c ++ post)) ≡ word_total pre + (c + word_total post)
checksum_word pre post c h fits =
    word_total-append pre (be_bytes 2 c ++ post) h ∙ unfold word_total in omega arith

-- Putting the checksum of a string of bytes into a zeroed word of it makes the string valid; the
-- word stands after an even number of bytes.
pub has_valid-checksum :
    (pre post : List ℕ)
    → IsEven pre
    → All IsByte pre
    → All IsByte post
    → has_valid_internet_checksum
        (pre ++ (be_bytes 2 (compute_internet_checksum (pre ++ (0 ∷ 0 ∷ post))) ++ post))
      ≡ true
has_valid-checksum pre post even h k =
    let c = compute_internet_checksum (pre ++ (0 ∷ 0 ∷ post)) in
    let sum =
      checksum-word_total (pre ++ (0 ∷ 0 ∷ post))
        (All-append IsByte pre (0 ∷ 0 ∷ post) h (omega arith, (omega arith, k))) in
    (has_valid_iff (pre ++ (be_bytes 2 c ++ post)) (
        All-append IsByte pre (be_bytes 2 c ++ post) h
          (All-append IsByte (be_bytes 2 c) post (be_bytes-IsByte 2 c) k))).1
      (complement_total (word_total pre) (word_total post) c
        (word_total (pre ++ (be_bytes 2 c ++ post)))
        (sum ∙ ap (λ (t : ℕ). 65535 - ones_complement t) (zero_word pre post even))
        (checksum_word pre post c even (rw sum (omega arith))))
