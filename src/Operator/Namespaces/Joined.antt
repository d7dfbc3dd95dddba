-- ===== src/Operator/Namespaces/Joined.antt =====
-- The namespaces of a list that is joined by commas.
use Prim.Native.Char.{code}
use Prim.Native.String as S
use zookeeper_operator.Prelude.{
  ℕ, ◌==◌, ap, sym, ◌∙◌, ◌≢◌, String, ◌&◌, str_eq, eq_iff, true, false, Bool-cases, inl, inr, List,
  [], ◌∷◌, map, ◌≡◌, refl, arith,
}
use zookeeper_operator.Std.Strings.{is_space, trim_space}
use zookeeper_operator.Std.Strings.Split.{split}
use zookeeper_operator.Std.Strings.Split.Join.{has_char, has_char-append, split_part, split-append}
use zookeeper_operator.Std.Strings.Trim.{is_blank, has_space, and_true, trim_space_padded}
use zookeeper_operator.Operator.Namespaces.{manager_namespaces}

-- a name, with the white space around it
pub record Item : Type 0 where
  pub before : String
  pub name : String
  pub after : String

pub record IsItem (x : Item) : Type 0 where
  pub blank_before : is_blank x.before ≡ true
  pub is_word : has_space x.name ≡ false
  pub has_no_comma : has_char b',' x.name ≡ false
  pub blank_after : is_blank x.after ≡ true

abbrev pub AreItems : List Item → Type 0
AreItems [] = Unit
AreItems (x ∷ xs) = IsItem x × AreItems xs

abbrev pub spelled : Item → String
spelled x = x.before & x.name & x.after

abbrev pub joined : List Item → String
joined [] = ""
joined (x ∷ []) = spelled x
joined (x ∷ (y ∷ ys)) = spelled x & "," & joined (y ∷ ys)

equal_codes : (c : ℕ) → (c == b',') ≡ true → c ≡ b','
equal_codes c h = ground arith

-- A comma is no white space.
space_no_comma : (c : ℕ) → is_space c ≡ true → (c == b',') ≡ false
unfolding is_space
space_no_comma c h = elim (Bool-cases (c == b',')) [
  | inl e ↦ let k : is_space b',' ≡ true = ap is_space (sym (equal_codes c e)) ∙ h in cc
  | inr e ↦ e
]

has_char_blank : (s : String) → is_blank s ≡ true → has_char b',' s ≡ false
unfolding is_blank
has_char_blank S.[] h = refl
has_char_blank (S.◌∷◌ c s) h =
    let (first, others) = and_true (is_space (code c)) (is_blank s) h in
    rw (space_no_comma (code c) first, has_char_blank s others)

has_char-spelled : (x : Item) → IsItem x → has_char b',' (spelled x) ≡ false
has_char-spelled x i =
    rw
      (
        has_char-append b',' x.before,
        has_char-append b',' x.name,
        has_char_blank x.before i.blank_before,
        i.has_no_comma,
      )
      (has_char_blank x.after i.blank_after)

split-joined :
    (x : Item) (xs : List Item)
    → AreItems (x ∷ xs)
    → split b',' (joined (x ∷ xs)) ≡ map spelled (x ∷ xs)
split-joined x [] (i, is) = split_part b',' (spelled x) (has_char-spelled x i)
split-joined x (y ∷ ys) (i, is) = rw (
  split-append b',' "," "," (spelled x) (joined (y ∷ ys)) refl refl (has_char-spelled x i),
  split-joined y ys is,
)

trim-spelled :
    (xs : List Item) → AreItems xs → map trim_space (map spelled xs) ≡ map (λ x. x.name) xs
trim-spelled [] is = refl
trim-spelled (x ∷ xs) (i, is) = rw (
  trim_space_padded x.before x.name x.after i.blank_before i.is_word i.blank_after,
  trim-spelled xs is,
)

-- Where names without white space and without a comma are joined by commas, with any white space
-- around each of them, and the whole is not empty: the manager is given exactly these names, in
-- their order.
pub manager_namespaces-joined :
    (xs : List Item)
    → AreItems xs
    → joined xs ≢ ""
    → manager_namespaces (joined xs) ≡ map (λ x. x.name) xs
unfolding manager_namespaces
manager_namespaces-joined [] is h = absurd (h refl)
manager_namespaces-joined (x ∷ xs) is h = elim (Bool-cases (str_eq (joined (x ∷ xs)) "")) [
  | inl e ↦ absurd (h ((eq_iff (joined (x ∷ xs)) "").0 e))
  | inr e ↦ rw (e, split-joined x xs is) (trim-spelled (x ∷ xs) is)
]
