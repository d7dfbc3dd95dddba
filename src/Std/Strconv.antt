-- ===== src/Std/Strconv.antt =====
-- strconv.Itoa and strconv.Atoi, which utils, pkg/zk and the controller call on 64-bit `int`.
pub mod RoundTrip
use zookeeper_operator.Prelude.{
  ℕ, zero, suc, ◌+◌, ◌-◌, ◌*◌, ◌/◌, ◌%◌, ◌^◌, ℤ, pos, negsuc, String, codes, ◌&◌, Bool, true, false,
  ◌||◌, Option, none, some, List, [], ◌∷◌, ltb, leb, ◌==◌, if◌then◌else◌, ◌≡◌, refl,
}

abbrev pub max_u64 : ℕ
max_u64 = 18446744073709551615

abbrev pub max_int : ℕ
max_int = 9223372036854775807

-- one decimal digit
digit : ℕ → String
digit zero = "0"
digit (suc zero) = "1"
digit (suc (suc zero)) = "2"
digit (suc (suc (suc zero))) = "3"
digit (suc (suc (suc (suc zero)))) = "4"
digit (suc (suc (suc (suc (suc zero))))) = "5"
digit (suc (suc (suc (suc (suc (suc zero)))))) = "6"
digit (suc (suc (suc (suc (suc (suc (suc zero))))))) = "7"
digit (suc (suc (suc (suc (suc (suc (suc (suc zero)))))))) = "8"
digit _ = "9"

-- the decimal digits of a number, the highest first; the fuel is above the number
digits : ℕ → ℕ → String
unfolding digit
digits zero n = ""
digits (suc fuel) n =
    let higher = digits fuel (n / 10) & digit (n % 10) in if ltb n 10 then digit n else higher

unfoldable pub itoa_ℕ : ℕ → String
unfolding digits
itoa_ℕ n = digits (suc n) n

-- strconv.Itoa
unfoldable pub itoa : ℤ → String
unfolding itoa_ℕ
itoa (pos n) = itoa_ℕ n
itoa (negsuc n) = "-" & itoa_ℕ (suc n)

-- strconv.ErrSyntax and strconv.ErrRange
pub data NumError : Type 0 where
  syntax range : NumError

-- what strconv.ParseUint finds in a text of digits
pub data Magnitude : Type 0 where
  magnitude : ℕ → Magnitude
  bad : NumError → Magnitude

-- the loop of strconv.ParseUint at base 10, which stops at the first character that is no digit
-- and as soon as the number passes 64 bits
pub scan : List ℕ → ℕ → Magnitude
scan [] n = magnitude n
scan (c ∷ s) n =
    let rest = scan s (n * 10 + (c - b'0')) in
    if ltb c b'0' || ltb b'9' c
    then bad syntax
    else if ltb max_u64 (n * 10 + (c - b'0'))
    then bad range
    else rest

pub parse_uint : List ℕ → Magnitude
unfolding scan
parse_uint [] = bad syntax
parse_uint (c ∷ s) = scan (c ∷ s) 0

-- the bounds of a signed integer; on an error the value is 0 or the nearest bound
pub to_int : Bool → Magnitude → ℤ × Option NumError
to_int neg (bad syntax) = (pos 0, some syntax)
to_int false (bad range) = (pos max_int, some range)
to_int true (bad range) = (negsuc max_int, some range)
to_int false (magnitude n) = if ltb max_int n then (pos max_int, some range) else (pos n, none)
to_int true (magnitude zero) = (pos 0, none)
to_int true (magnitude (suc n)) =
    if ltb max_int n then (negsuc max_int, some range) else (negsuc n, none)

-- the optional sign
unfoldable pub atoi_codes : List ℕ → ℤ × Option NumError
unfolding parse_uint to_int
atoi_codes [] = (pos 0, some syntax)
atoi_codes (c ∷ s) =
    if c == b'-'
    then to_int true (parse_uint s)
    else if c == b'+'
    then to_int false (parse_uint s)
    else to_int false (parse_uint (c ∷ s))

-- strconv.Atoi: the value and the error
unfoldable pub atoi : String → ℤ × Option NumError
unfolding atoi_codes
atoi s = atoi_codes (codes s)

-- strconv.FormatBool
unfoldable pub format_bool : Bool → String
format_bool true = "true"
format_bool false = "false"
