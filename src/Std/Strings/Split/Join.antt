-- ===== src/Std/Strings/Split/Join.antt =====
-- Split after joining.
use Prim.Native.Char.{Char, code}
use text.Mathlib.TextLemmas.{nil-append, cons-append}
use zookeeper_operator.Prelude.{
  ℕ, ◌==◌, String, ◌&◌, Bool, false, ◌||◌, or_false, true, [], ◌∷◌, ◌≡◌, refl, arith,
}
use zookeeper_operator.Std.Strings.Split.{split}

abbrev pub has_char : ℕ → String → Bool
has_char sep String.[] = false
has_char sep (String.◌∷◌ c s) = (code c == sep) || has_char sep s

pub has_char-append : (c : ℕ) (s t : String) → has_char c (s & t) ≡ (has_char c s || has_char c t)
has_char-append c String.[] t = rw nil-append
has_char-append c (String.◌∷◌ d s) t = rw (cons-append, has_char-append c s t) (ground arith)

module _ (sep : ℕ) where
  -- a text of one part
  pub split_part : (s : String) → has_char sep s ≡ false → split sep s ≡ s ∷ []
  unfolding split
  split_part String.[] h = refl
  split_part (String.◌∷◌ c s) h =
      let (first, others) = or_false (code c == sep) (has_char sep s) h in
      rw (first, split_part s others)

  -- the first part, behind which the separator stands
  pub split-append :
      (c : Char) (mark s t : String)
      → mark ≡ String.◌∷◌ c ""
      → (code c == sep) ≡ true
      → has_char sep s ≡ false
      → split sep (s & mark & t) ≡ s ∷ split sep t
  unfolding split
  split-append c mark String.[] t m e h = rw (nil-append, m, cons-append, nil-append, e)
  split-append c mark (String.◌∷◌ d s) t m e h =
      let (first, others) = or_false (code d == sep) (has_char sep s) h in
      rw (cons-append, first, split-append c mark s t m e others)
