-- ===== src/Scenarios/Texts.antt =====
-- Tests of the conversions and of the functions on texts.
use zookeeper_operator.Prelude.{
  int32, pos, negsuc, codes, true, false, none, some, [], ◌∷◌, ◌≡◌, refl,
}
use zookeeper_operator.Std.Strconv.{itoa, atoi, atoi_codes, max_int, syntax, range}
use zookeeper_operator.Std.Strings.{equal_fold, trim_space, has_suffix}
use zookeeper_operator.Utils.Finalizer.{is_pvc_orphan}

orphan_some :
    (is_pvc_orphan "data-zk-3" (pos 3) ≡ true)
    × (is_pvc_orphan "data-zk-2" (pos 3) ≡ false)
    × (is_pvc_orphan "data" (pos 0) ≡ false)
    × (is_pvc_orphan "data-zk" (pos 0) ≡ false)
unfolding is_pvc_orphan atoi_codes int32
orphan_some = (refl, refl, refl, refl)

itoa_some : (itoa (pos 0) ≡ "0") × (itoa (pos 2181) ≡ "2181") × (itoa (negsuc 41) ≡ "-42")
unfolding itoa
itoa_some = (refl, refl, refl)

atoi-some :
    (atoi "2181" ≡ (pos 2181, none))
    × (atoi "-42" ≡ (negsuc 41, none))
    × (atoi "12a" ≡ (pos 0, some syntax))
    × (atoi "" ≡ (pos 0, some syntax))
    × (atoi "99999999999999999999x" ≡ (pos max_int, some range))
unfolding atoi
atoi-some = (refl, refl, refl, refl, refl)

newline : codes "=\n" ≡ b'=' ∷ 10 ∷ []
newline = refl

equal_fold_some :
    (equal_fold "Ephemeral" "ephemeral" ≡ true) × (equal_fold "ephemera" "ephemeral" ≡ false)
unfolding equal_fold
equal_fold_some = (refl, refl)

trim_some :
    (trim_space " a b. " ≡ "a b.")
    × (trim_space "\u{a0}a\u{3000}" ≡ "a")
    × (has_suffix "a.b." "." ≡ true)
    × (has_suffix "a.b" "." ≡ false)
    × (has_suffix "" "." ≡ false)
unfolding trim_space has_suffix
trim_some = (refl, refl, refl, refl, refl)
