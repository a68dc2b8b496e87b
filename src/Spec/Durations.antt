-- ===== src/Spec/Durations.antt =====
-- extensions-controller/api/v1alpha1/protection_policy_template.go: VAST durations such as "15m".
-- A text is read by its code points; `vastDurationRe` admits ASCII only, so they are its bytes.
pub mod Laws
pub mod Pattern
use Prim.Native.Char.{code}
use vast_csi.Prelude.{
  ℕ, ◌+◌, ◌-◌, ◌*◌, ◌%◌, ◌^◌, String, Bool, true, false, ◌&&◌, ◌||◌, List, [], ◌∷◌, Result, ok, err,
  leb, ◌==◌, if◌then◌else◌,
}

abbrev pub codes : String → List ℕ
codes String.[] = []
codes (String.◌∷◌ c s) = code c ∷ codes s

-- int64 arithmetic, on bit patterns.
abbrev pub i64 : ℕ → ℕ
i64 n = n % 2 ^ 64

unfoldable pub is_digit : ℕ → Bool
is_digit c = leb b'0' c && leb c b'9'

-- The class `[sSmMhHdDwWyY]`.
unfoldable pub is_unit : ℕ → Bool
is_unit c =
    c == b's'
    || c == b'S'
    || c == b'm'
    || c == b'M'
    || c == b'h'
    || c == b'H'
    || c == b'd'
    || c == b'D'
    || c == b'w'
    || c == b'W'
    || c == b'y'
    || c == b'Y'

abbrev pub is_nil : List ℕ → Bool
is_nil [] = true
is_nil (_ ∷ _) = false

-- What `\d*[unit]$` matches.
unfoldable pub match_tail : List ℕ → Bool
match_tail [] = false
match_tail (c ∷ cs) = is_digit c && match_tail cs || is_unit c && is_nil cs

-- `vastDurationRe.MatchString`
unfoldable pub match_duration : List ℕ → Bool
match_duration [] = false
match_duration (c ∷ cs) = is_digit c && match_tail cs

pub data DurationError : Type 0 where
  invalid_duration unsupported_unit : DurationError

-- The loop that reads the digits.
unfoldable pub amount_from : ℕ → List ℕ → ℕ
amount_from amount [] = amount
amount_from amount (ch ∷ s) =
    amount_from (if is_digit ch then i64 (amount * 10 + (ch - b'0')) else amount) s

-- `s[len(s)-1]`; the empty text never comes here.
unfoldable pub last_byte : List ℕ → ℕ
last_byte [] = 0
last_byte (c ∷ []) = c
last_byte (_ ∷ c ∷ cs) = last_byte (c ∷ cs)

unfoldable pub scale : ℕ → ℕ → Result DurationError ℕ
scale unit amount =
    if unit == b's' || unit == b'S'
    then ok amount
    else if unit == b'm'
    then ok (i64 (amount * 60))
    else if unit == b'h' || unit == b'H'
    then ok (i64 (amount * 3600))
    else if unit == b'd' || unit == b'D'
    then ok (i64 (amount * 86400))
    else if unit == b'w' || unit == b'W'
    then ok (i64 (i64 (amount * 7) * 86400))
    else if unit == b'M'
    then ok (i64 (i64 (amount * 30) * 86400))
    else if unit == b'y' || unit == b'Y'
    then ok (i64 (i64 (amount * 365) * 86400))
    else err unsupported_unit

unfoldable pub parse_every_to_seconds : List ℕ → Result DurationError ℕ
parse_every_to_seconds s =
    if match_duration s then scale (last_byte s) (amount_from 0 s) else err invalid_duration
