-- ===== src/Std/Strings.antt =====
-- What the program uses of Go's package strings, over the characters of a text.
pub mod Split
pub mod Trim
use Prim.Native.Char.{Char, code}
use zookeeper_operator.Prelude.{
  ℕ, ◌+◌, String, codes, Bool, true, false, ◌&&◌, ◌||◌, List, [], ◌∷◌, leb, ◌==◌, if◌then◌else◌,
}

-- a letter of the Latin alphabet in lower case
lower : ℕ → ℕ
lower c = if leb b'A' c && leb c b'Z' then c + 32 else c

fold_codes : List ℕ → List ℕ → Bool
fold_codes [] [] = true
fold_codes (a ∷ s) (b ∷ t) = lower a == lower b && fold_codes s t
fold_codes _ _ = false

-- strings.EqualFold. The program compares with "ephemeral" alone, whose letters fold with no
-- character outside the Latin alphabet.
unfoldable pub equal_fold : String → String → Bool
unfolding fold_codes lower
equal_fold s t = fold_codes (codes s) (codes t)

-- unicode.IsSpace: the characters with the property White_Space
unfoldable pub is_space : ℕ → Bool
is_space c =
    (leb 9 c && leb c 13)
    || c == 0x20
    || c == 0x85
    || c == 0xa0
    || c == 0x1680
    || (leb 0x2000 c && leb c 0x200a)
    || c == 0x2028
    || c == 0x2029
    || c == 0x202f
    || c == 0x205f
    || c == 0x3000

trim_left : String → String
trim_left String.[] = ""
trim_left (String.◌∷◌ c s) =
    let rest = trim_left s in if is_space (code c) then rest else String.◌∷◌ c s

-- a space is dropped where nothing is kept behind it
keep_char : Char → String → String
keep_char c String.[] = if is_space (code c) then "" else String.◌∷◌ c ""
keep_char c (String.◌∷◌ d s) = String.◌∷◌ c (String.◌∷◌ d s)

trim_right : String → String
trim_right String.[] = ""
trim_right (String.◌∷◌ c s) = keep_char c (trim_right s)

-- strings.TrimSpace, over the characters of a text in UTF-8
unfoldable pub trim_space : String → String
unfolding trim_left trim_right is_space keep_char
trim_space s = trim_right (trim_left s)

eq_codes : List ℕ → List ℕ → Bool
eq_codes [] [] = true
eq_codes (a ∷ s) (b ∷ t) = a == b && eq_codes s t
eq_codes _ _ = false

ends_with : List ℕ → List ℕ → Bool
ends_with [] t = eq_codes [] t
ends_with (c ∷ s) t = eq_codes (c ∷ s) t || ends_with s t

-- strings.HasSuffix
unfoldable pub has_suffix : String → String → Bool
unfolding ends_with eq_codes
has_suffix s t = ends_with (codes s) (codes t)
