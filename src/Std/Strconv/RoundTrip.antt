-- ===== src/Std/Strconv/RoundTrip.antt =====
-- Atoi after Itoa.
use zookeeper_operator.Prelude.{
  ℕ, zero, suc, ◌+◌, ◌*◌, ◌/◌, ◌%◌, ◌≤◌, ◌<◌, ℤ, pos, negsuc, pos_part, neg_part, codes,
  codes-append, true, false, none, List, [], ◌∷◌, ◌++◌, ◌≡◌, refl, arith, Bool-cases, ltb, inl, inr,
  ◌∙◌, ap,
}
use mathlib.Core.List.{append_assoc, append-nil}
use zookeeper_operator.Std.Strconv.{
  digit, digits, itoa_ℕ, itoa, magnitude, scan, parse_uint, to_int, atoi_codes, atoi, max_u64,
  max_int,
}

-- A digit is one character.
codes-digit : (d : ℕ) → d < 10 → codes (digit d) ≡ (b'0' + d) ∷ []
unfolding digit
codes-digit zero h = refl
codes-digit (suc zero) h = refl
codes-digit (suc (suc zero)) h = refl
codes-digit (suc (suc (suc zero))) h = refl
codes-digit (suc (suc (suc (suc zero)))) h = refl
codes-digit (suc (suc (suc (suc (suc zero))))) h = refl
codes-digit (suc (suc (suc (suc (suc (suc zero)))))) h = refl
codes-digit (suc (suc (suc (suc (suc (suc (suc zero))))))) h = refl
codes-digit (suc (suc (suc (suc (suc (suc (suc (suc zero)))))))) h = refl
codes-digit (suc (suc (suc (suc (suc (suc (suc (suc (suc zero))))))))) h = refl
codes-digit (suc (suc (suc (suc (suc (suc (suc (suc (suc (suc d)))))))))) h = absurd (omega arith)

scan_digit :
    (d n : ℕ) (s : List ℕ)
    → d < 10
    → n * 10 + d ≤ max_u64
    → scan ((b'0' + d) ∷ s) n ≡ scan s (n * 10 + d)
unfolding scan
scan_digit d n s h k = ground arith

scan-digits :
    (f n : ℕ) (s : List ℕ) → n < f → n ≤ max_u64 → scan (codes (digits f n) ++ s) 0 ≡ scan s n
unfolding digits
scan-digits zero n s h k = elim h [ ]
scan-digits (suc f) n s h k = elim (Bool-cases (ltb n 10)) [
  | inl small ↦
      rw (small, codes-digit n (ground arith))
        (scan_digit n 0 s (ground arith) (omega arith) ∙ ap (scan s) (omega arith))
  | inr big ↦
      rw
        (
          big,
          codes-append (digits f (n / 10)) (digit (n % 10)),
          append_assoc,
          codes-digit (n % 10) (omega arith),
        )
        (scan-digits f (n / 10) ((b'0' + n % 10) ∷ s) (ground arith) (omega arith)
          ∙ (scan_digit (n % 10) (n / 10) s (omega arith) (omega arith)
              ∙ ap (scan s) (omega arith)))
]

-- A printed number begins with a digit.
digits_head :
    (f n : ℕ) → n < f → (d : ℕ) × (t : List ℕ) × (d < 10) × (codes (digits f n) ≡ (b'0' + d) ∷ t)
unfolding digits
digits_head zero n h = elim h [ ]
digits_head (suc f) n h = elim (Bool-cases (ltb n 10)) [
  | inl small ↦ (n, [], ground arith, rw (small, codes-digit n (ground arith)))
  | inr big ↦
      let (d, t, lt, e) = digits_head f (n / 10) (ground arith) in
      (
        d,
        t ++ codes (digit (n % 10)),
        lt,
        rw (big, codes-append (digits f (n / 10)) (digit (n % 10)), e),
      )
]

-- The characters stand at or above the digit 0, as no sign, dash or space does.
abbrev pub FromZero : List ℕ → Type 0
FromZero [] = Unit
FromZero (c ∷ s) = (b'0' ≤ c) × FromZero s

FromZero-append : (s t : List ℕ) → FromZero s → FromZero t → FromZero (s ++ t)
FromZero-append [] t h k = k
FromZero-append (c ∷ s) t (h, hs) k = (h, FromZero-append s t hs k)

digits-FromZero : (f n : ℕ) → n < f → FromZero (codes (digits f n))
unfolding digits
digits-FromZero zero n h = elim h [ ]
digits-FromZero (suc f) n h = elim (Bool-cases (ltb n 10)) [
  | inl small ↦ rw (small, codes-digit n (ground arith)) (omega arith)
  | inr big ↦
      rw (big, codes-append (digits f (n / 10)) (digit (n % 10)))
        (FromZero-append (codes (digits f (n / 10))) (codes (digit (n % 10)))
          (digits-FromZero f (n / 10) (ground arith))
          (rw (codes-digit (n % 10) (omega arith)) (omega arith)))
]

pub itoa-FromZero : (n : ℕ) → FromZero (codes (itoa (pos n)))
unfolding itoa itoa_ℕ
itoa-FromZero n = digits-FromZero (suc n) n (omega arith)

-- Appending nothing to a list changes nothing, so the scan ends with the number.
scan-itoa : (n : ℕ) → n ≤ max_u64 → scan (codes (itoa_ℕ n)) 0 ≡ magnitude n
unfolding itoa_ℕ scan
scan-itoa n h =
    rw (← append-nil (codes (digits (suc n) n))) (scan-digits (suc n) n [] (omega arith) h)

parse_uint-itoa : (n : ℕ) → n ≤ max_u64 → parse_uint (codes (itoa_ℕ n)) ≡ magnitude n
unfolding itoa_ℕ parse_uint
parse_uint-itoa n h =
    let (d, t, lt, e) = digits_head (suc n) n (omega arith) in rw e ((rw e at (scan-itoa n h)))

-- Where a text begins with a digit, Atoi reads no sign.
atoi_digit :
    (d : ℕ) (t : List ℕ)
    → d < 10
    → atoi_codes ((b'0' + d) ∷ t) ≡ to_int false (parse_uint ((b'0' + d) ∷ t))
unfolding atoi_codes
atoi_digit d t h = ground arith

-- The text of a natural number carries no sign.
atoi-itoa_ℕ : (n : ℕ) → n ≤ max_u64 → atoi_codes (codes (itoa_ℕ n)) ≡ to_int false (magnitude n)
unfolding itoa_ℕ
atoi-itoa_ℕ n h =
    let (d, t, lt, e) = digits_head (suc n) n (omega arith) in
    rw e (atoi_digit d t lt ∙ ap (to_int false) (rw e at (parse_uint-itoa n h)))

-- A dash before the digits is the sign.
atoi_dash : (t : List ℕ) → atoi_codes (b'-' ∷ t) ≡ to_int true (parse_uint t)
unfolding atoi_codes
atoi_dash t = refl

-- Atoi reads back, with no error, every int that Itoa prints.
pub atoi-itoa :
    (z : ℤ) → pos_part z ≤ max_int → neg_part z ≤ suc max_int → atoi (itoa z) ≡ (z, none)
unfolding atoi itoa to_int
atoi-itoa (pos n) h _ = rw (atoi-itoa_ℕ n (omega arith)) (ground arith)
atoi-itoa (negsuc n) _ h =
    rw (codes-append "-" (itoa_ℕ (suc n)))
      (rw (atoi_dash, parse_uint-itoa (suc n) (omega arith)) (ground arith))
