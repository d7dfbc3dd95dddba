-- ===== src/Zk/Config/Reader.antt =====
-- A reader of the files that MakeConfigMap writes, as ZooKeeper and the shell read them: each line
-- with a `=` is a setting, and a line without one is passed over.
use Prim.Native.Char.{code}
use Prim.Native.String as S
use text.Mathlib.TextLemmas.{nil-append, cons-append, append_assoc}
use zookeeper_operator.Prelude.{
  ◌==◌, ℤ, pos, negsuc, suc, String, ◌&◌, codes, false, or_false, Option, none, some, List, [], ◌∷◌,
  ◌≡◌, refl, ◌∙◌, ap, arith, if◌then◌else◌,
}
use zookeeper_operator.Prelude.Dict.{Dict}
use zookeeper_operator.Std.Strconv.{itoa}
use zookeeper_operator.Std.Strconv.RoundTrip.{FromZero, itoa-FromZero}
use zookeeper_operator.Std.Strings.Split.{split}
use zookeeper_operator.Std.Strings.Split.Join.{has_char, has_char-append, split-append}
use zookeeper_operator.Zk.Config.{line, additional_lines}

-- the text in front of the first `=`, and the text behind it
abbrev cut_line : String → Option (String × String)
cut_line S.[] = none
cut_line (S.◌∷◌ c s) =
    let rest = cut_line s in
    if code c == b'='
    then some ("", s)
    else elim rest [ none ↦ none | some (key, value) ↦ some (S.◌∷◌ c key, value) ]

abbrev settings : List String → Dict
settings [] = []
settings (l ∷ ls) = elim (cut_line l) [ none ↦ settings ls | some entry ↦ entry ∷ settings ls ]

settings_entry :
    (l : String) (entry : String × String) (ls : List String)
    → cut_line l ≡ some entry
    → settings (l ∷ ls) ≡ entry ∷ settings ls
settings_entry l entry ls h = rw (settings, h)

unfoldable pub read_settings : String → Dict
read_settings s = settings (split b'\n' s)

-- An entry that can stand on a line: the key holds no `=`, and neither part holds a newline.
pub record FitsLine (key value : String) : Type 0 where
  pub key_has_no_equals : has_char b'=' key ≡ false
  pub key_is_one_line : has_char b'\n' key ≡ false
  pub value_is_one_line : has_char b'\n' value ≡ false

abbrev pub FitLines : Dict → Type 0
FitLines [] = Unit
FitLines ((key, value) ∷ m) = FitsLine key value × FitLines m

cut_line-append :
    (key value : String)
    → has_char b'=' key ≡ false
    → cut_line (key & "=" & value) ≡ some (key, value)
cut_line-append S.[] value h = rw (nil-append, cons-append, nil-append)
cut_line-append (S.◌∷◌ c key) value h =
    let (first, others) = or_false (code c == b'=') (has_char b'=' key) h in
    rw (cons-append, first, cut_line-append key value others)

has_char-FromZero : (s : String) → FromZero (codes s) → has_char b'\n' s ≡ false
has_char-FromZero S.[] h = refl
has_char-FromZero (S.◌∷◌ c s) (h, k) = rw (has_char-FromZero s k) (ground arith)

-- A printed number stands on one line.
pub has_char-itoa : (z : ℤ) → has_char b'\n' (itoa z) ≡ false
has_char-itoa (pos n) = has_char-FromZero (itoa (pos n)) (itoa-FromZero n)
has_char-itoa (negsuc n) =
    unfold itoa in rw (has_char-append b'\n' "-") (has_char-FromZero _ (itoa-FromZero (suc n)))

line-append : (key value s : String) → line key value & s ≡ (key & "=" & value) & "\n" & s
line-append key value s = rw (append_assoc, append_assoc, append_assoc, append_assoc, append_assoc)

entry_is_one_line :
    (key value : String) → FitsLine key value → has_char b'\n' (key & "=" & value) ≡ false
entry_is_one_line key value h =
    rw
      (has_char-append b'\n' key, h.key_is_one_line, has_char-append b'\n' "=", h.value_is_one_line)

read_settings-line :
    (key value s : String)
    → FitsLine key value
    → read_settings (line key value & s) ≡ (key, value) ∷ read_settings s
unfolding read_settings
read_settings-line key value s h =
    rw (line-append, split-append b'\n' "\n" "\n" _ s refl refl (entry_is_one_line key value h))
      (settings_entry (key & "=" & value) (key, value) (split b'\n' s)
        (cut_line-append key value h.key_has_no_equals))

-- What is read of a list of lines is the list.
pub read_settings-lines : (m : Dict) → FitLines m → read_settings (additional_lines m) ≡ m
unfolding additional_lines
read_settings-lines [] h = unfold read_settings split in refl
read_settings-lines ((key, value) ∷ m) (h, hs) =
    read_settings-line key value (additional_lines m) h
    ∙ ap (λ n. (key, value) ∷ n) (read_settings-lines m hs)
