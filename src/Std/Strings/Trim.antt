-- ===== src/Std/Strings/Trim.antt =====
-- TrimSpace of a word between blanks.
use Prim.Native.Char.{Char, code}
use Prim.Native.String as S
use text.Mathlib.TextLemmas.{nil-append, cons-append}
use zookeeper_operator.Prelude.{String, ◌&◌, Bool, true, false, ◌&&◌, ◌||◌, or_false, ◌≡◌, refl}
use zookeeper_operator.Std.Strings.{is_space, trim_left, trim_right, keep_char, trim_space}

-- nothing but white space
unfoldable pub is_blank : String → Bool
is_blank S.[] = true
is_blank (S.◌∷◌ c s) = is_space (code c) && is_blank s

unfoldable pub has_space : String → Bool
has_space S.[] = false
has_space (S.◌∷◌ c s) = is_space (code c) || has_space s

pub and_true : (a b : Bool) → (a && b) ≡ true → (a ≡ true) × (b ≡ true)
and_true true b h = (refl, h)
and_true false b h = cc

trim_left-append :
    (before s : String) → is_blank before ≡ true → trim_left (before & s) ≡ trim_left s
unfolding trim_left is_blank has_space
trim_left-append S.[] s h = rw nil-append
trim_left-append (S.◌∷◌ c before) s h =
    let (first, others) = and_true (is_space (code c)) (is_blank before) h in
    rw (cons-append, first, trim_left-append before s others)

trim_left_blank : (s : String) → is_blank s ≡ true → trim_left s ≡ ""
unfolding trim_left is_blank has_space
trim_left_blank S.[] h = refl
trim_left_blank (S.◌∷◌ c s) h =
    let (first, others) = and_true (is_space (code c)) (is_blank s) h in
    rw (first, trim_left_blank s others)

trim_right_blank : (s : String) → is_blank s ≡ true → trim_right s ≡ ""
unfolding trim_right keep_char is_blank
trim_right_blank S.[] h = refl
trim_right_blank (S.◌∷◌ c s) h =
    let (first, others) = and_true (is_space (code c)) (is_blank s) h in
    rw (trim_right_blank s others, first)

-- A character that is no space is kept.
keep_char_word : (c : Char) (s : String) → is_space (code c) ≡ false → keep_char c s ≡ S.◌∷◌ c s
unfolding keep_char
keep_char_word c S.[] h = rw h
keep_char_word c (S.◌∷◌ d s) h = refl

trim_right-append :
    (word after : String)
    → has_space word ≡ false
    → is_blank after ≡ true
    → trim_right (word & after) ≡ word
unfolding trim_right has_space
trim_right-append S.[] after h k = rw (nil-append, trim_right_blank after k)
trim_right-append (S.◌∷◌ c word) after h k =
    let (first, others) = or_false (is_space (code c)) (has_space word) h in
    rw (cons-append, trim_right-append word after others k, keep_char_word c word first)

-- The word is kept whole, with what stands behind it.
trim_left_word :
    (word after : String)
    → has_space word ≡ false
    → is_blank after ≡ true
    → trim_right (trim_left (word & after)) ≡ word
unfolding trim_left is_blank has_space
trim_left_word S.[] after h k = rw (nil-append, trim_left_blank after k) (unfold trim_right in refl)
trim_left_word (S.◌∷◌ c word) after h k =
    let (first, others) = or_false (is_space (code c)) (has_space word) h in
    rw (cons-append, first) (rw cons-append at (trim_right-append (S.◌∷◌ c word) after h k))

pub trim_space_padded :
    (before word after : String)
    → is_blank before ≡ true
    → has_space word ≡ false
    → is_blank after ≡ true
    → trim_space (before & word & after) ≡ word
unfolding trim_space
trim_space_padded before word after b h a =
    rw (trim_left-append before (word & after) b) (trim_left_word word after h a)
