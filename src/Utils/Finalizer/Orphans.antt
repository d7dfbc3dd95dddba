-- ===== src/Utils/Finalizer/Orphans.antt =====
-- Which volume claims IsPVCOrphan names.
use zookeeper_operator.Prelude.{
  ℕ, ◌≤◌, ◌<◌, ℤ, pos, leb_ℤ, int32, int32-pos, String, codes, codes-append, ◌&◌, none, some, List,
  [], ◌∷◌, ◌++◌, ◌≡◌, refl, arith, ◌∙◌, ap, ◌^◌,
}
use zookeeper_operator.Std.Strconv.{itoa, atoi, atoi_codes, max_int}
use zookeeper_operator.Std.Strconv.RoundTrip.{atoi-itoa, FromZero, itoa-FromZero}
use zookeeper_operator.Utils.Finalizer.{after_last_dash, is_orphan_codes, is_pvc_orphan}

-- With no dash in the text behind it, a dash is the last one.
after_last_dash-append :
    (xs ys : List ℕ) → after_last_dash ys ≡ none → after_last_dash (xs ++ b'-' ∷ ys) ≡ some ys
unfolding after_last_dash
after_last_dash-append [] ys h = rw h
after_last_dash-append (x ∷ xs) ys h = rw (after_last_dash-append xs ys h)

after_last_dash_digits : (s : List ℕ) → FromZero s → after_last_dash s ≡ none
unfolding after_last_dash
after_last_dash_digits [] h = refl
after_last_dash_digits (c ∷ s) (h, hs) = rw (after_last_dash_digits s hs) (ground arith)

atoi_codes-itoa : (n : ℕ) → n ≤ max_int → atoi_codes (codes (itoa (pos n))) ≡ (pos n, none)
unfolding atoi
atoi_codes-itoa n h = atoi-itoa (pos n) h (omega arith)

orphan_of_number :
    (s : List ℕ) (n : ℕ) (replicas : ℤ)
    → atoi_codes s ≡ (pos n, none)
    → is_orphan_codes (some s) replicas ≡ leb_ℤ replicas (int32 (pos n))
unfolding is_orphan_codes
orphan_of_number s n replicas h = rw h

-- For a volume claim named by the StatefulSet controller, `<template>-<set>-<ordinal>`, with an
-- ordinal that an int can hold: IsPVCOrphan tells whether the ordinal, converted to 32 bits, is at
-- or above the number of replicas. The name before the ordinal plays no part, dashes included.
pub orphan_of_ordinal :
    (name : String) (ordinal : ℕ) (replicas : ℤ)
    → ordinal ≤ max_int
    → is_pvc_orphan (name & "-" & itoa (pos ordinal)) replicas
      ≡ leb_ℤ replicas (int32 (pos ordinal))
unfolding is_pvc_orphan
orphan_of_ordinal name ordinal replicas h =
    rw
      (
        codes-append name ("-" & itoa (pos ordinal)),
        codes-append "-" (itoa (pos ordinal)),
        after_last_dash-append (codes name) (codes (itoa (pos ordinal)))
            (after_last_dash_digits _ (itoa-FromZero ordinal)),
      )
      (orphan_of_number (codes (itoa (pos ordinal))) ordinal replicas (atoi_codes-itoa ordinal h))

-- For a volume claim named `<name>-<ordinal>`, with an ordinal below 2^31, IsPVCOrphan tells
-- exactly whether the ordinal is at or above the number of replicas. The name before the ordinal
-- plays no part, dashes included.
pub orphan_exact :
    (name : String) (ordinal : ℕ) (replicas : ℤ)
    → ordinal < 2 ^ 31
    → is_pvc_orphan (name & "-" & itoa (pos ordinal)) replicas ≡ leb_ℤ replicas (pos ordinal)
orphan_exact name ordinal replicas h =
    orphan_of_ordinal name ordinal replicas (omega arith)
    ∙ ap (leb_ℤ replicas) (int32-pos ordinal h)
