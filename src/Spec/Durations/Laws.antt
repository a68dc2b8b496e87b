-- ===== src/Spec/Durations/Laws.antt =====
-- What `ParseEveryToSeconds` returns, for every text.
use vast_csi.Prelude.{
  ℕ, zero, suc, ◌+◌, ◌-◌, ◌*◌, ◌^◌, ◌<◌, ◌≡◌, ◌∙◌, refl, sym, ap, List, [], ◌∷◌, ◌++◌, Result, ok,
  err, ◌≢◌, ◌↔◌, true, false, arith, length, All, if◌then◌else◌, ◌==◌, ◌||◌,
}
use native.Mathlib.Nat.{pow-suc, pow-succ'}
use vast_csi.Spec.Durations.{
  i64, is_digit, is_unit, match_tail, match_duration, amount_from, last_byte, scale,
  parse_every_to_seconds, DurationError, invalid_duration, unsupported_unit,
}

-- The number that decimal digits denote, by place value.
unfoldable pub value : List ℕ → ℕ
value [] = 0
value (c ∷ cs) = (c - b'0') * 10 ^ length cs + value cs

-- Seconds in one unit.
abbrev pub seconds_in : ℕ → ℕ
seconds_in u =
    if u == b's' || u == b'S'
    then 1
    else if u == b'm'
    then 60
    else if u == b'h' || u == b'H'
    then 3600
    else if u == b'd' || u == b'D'
    then 86400
    else if u == b'w' || u == b'W'
    then 604800
    else if u == b'M'
    then 2592000
    else 31536000

last_byte-concat : (cs : List ℕ) (u : ℕ) → last_byte (cs ++ u ∷ []) ≡ u
unfolding last_byte
last_byte-concat [] u = refl
last_byte-concat (c ∷ []) u = refl
last_byte-concat (c ∷ d ∷ cs) u = last_byte-concat (d ∷ cs) u

pow10-pos : (n : ℕ) → (q : ℕ) × (10 ^ n ≡ suc q)
pow10-pos zero = (0, refl)
pow10-pos (suc n) = let (q, e) = pow10-pos n in (q * 10 + 9, pow-suc 10 n ∙ omega (arith, e))

-- Reading one digit more stays below the bound of the whole number.
step_bounded :
    (a d p v : ℕ) (q : ℕ)
    → p ≡ suc q
    → a * (10 * p) + (d * p + v) < 2 ^ 63
    → (a * 10 + d < 2 ^ 63) × ((a * 10 + d) * p + v < 2 ^ 63)
step_bounded a d p v q e h = let k = rw e at h in rw e (omega (arith, k), omega (arith, k))

regroup : (a d p v : ℕ) → (a * 10 + d) * p + v ≡ a * (10 * p) + (d * p + v)
regroup a d p v = omega arith

amount_from-digit :
    (a c : ℕ) (s : List ℕ)
    → is_digit c ≡ true
    → amount_from a (c ∷ s) ≡ amount_from (i64 (a * 10 + (c - b'0'))) s
unfolding amount_from
amount_from-digit a c s h = ground arith

amount_from-nondigit : (a u : ℕ) → is_digit u ≡ false → amount_from a (u ∷ []) ≡ a
unfolding amount_from
amount_from-nondigit a u h = ground arith

amount_from-lem :
    (a : ℕ) (ds : List ℕ) (u : ℕ)
    → All (λ c. is_digit c ≡ true) ds
    → is_digit u ≡ false
    → a < 2 ^ 63
    → a * 10 ^ length ds + value ds < 2 ^ 63
    → amount_from a (ds ++ u ∷ []) ≡ a * 10 ^ length ds + value ds
unfolding value
amount_from-lem a [] u h n l b = amount_from-nondigit a u n ∙ omega arith
amount_from-lem a (c ∷ ds) u (h, hs) n l b =
    let d = c - b'0' in
    let p = 10 ^ length ds in
    let (q, e) = pow10-pos (length ds) in
    let k : a * (10 * p) + (d * p + value ds) < 2 ^ 63 = rw pow-succ' at b in
    let (l', b') = step_bounded a d p (value ds) q e k in
    let exact : i64 (a * 10 + d) ≡ a * 10 + d = omega arith in
    let rest = amount_from-lem (a * 10 + d) ds u hs n l' b' in
    amount_from-digit a c (ds ++ u ∷ []) h
    ∙ ap (λ x. amount_from x (ds ++ u ∷ [])) exact
    ∙ rest
    ∙ regroup a d p (value ds)
    ∙ ap (λ x. a * x + (d * p + value ds)) (sym (pow-succ' 10 (length ds)))

-- The texts that `vastDurationRe` matches: some digits and one unit.
pub match_tail_iff :
    (ds : List ℕ) (u : ℕ)
    → All (λ c. is_digit c ≡ true) ds
    → is_unit u ≡ true
    → match_tail (ds ++ u ∷ []) ≡ true
unfolding match_tail
match_tail_iff [] u h k = ground arith
match_tail_iff (c ∷ ds) u (h, hs) k = ground (arith, match_tail_iff ds u hs k)

unit-not-digit : (u : ℕ) → is_unit u ≡ true → is_digit u ≡ false
unfolding is_unit is_digit
unit-not-digit u h = ground arith

scale-lem :
    (u n : ℕ) → is_unit u ≡ true → n * seconds_in u < 2 ^ 63 → scale u n ≡ ok (n * seconds_in u)
unfolding is_unit scale
scale-lem u n h b = ground arith

-- Some digits and a unit denote that many seconds, as long as they fit an int64.
pub parse_every_to_seconds-value :
    (c : ℕ) (ds : List ℕ) (u : ℕ)
    → All (λ d. is_digit d ≡ true) (c ∷ ds)
    → is_unit u ≡ true
    → value (c ∷ ds) < 2 ^ 63
    → value (c ∷ ds) * seconds_in u < 2 ^ 63
    → parse_every_to_seconds (c ∷ ds ++ u ∷ []) ≡ ok (value (c ∷ ds) * seconds_in u)
unfolding parse_every_to_seconds match_duration
parse_every_to_seconds-value c ds u (h, hs) k l b = ground (
  arith,
  match_tail_iff ds u hs k,
  last_byte-concat (c ∷ ds) u,
  amount_from-lem 0 (c ∷ ds) u (h, hs) (unit-not-digit u k),
  scale-lem u (value (c ∷ ds)) k b,
)

match_tail-last : (c : ℕ) (s : List ℕ) → match_tail s ≡ true → is_unit (last_byte (c ∷ s)) ≡ true
unfolding match_tail last_byte
match_tail-last c [] h = cc
match_tail-last c (d ∷ []) h = ground arith
match_tail-last c (d ∷ e ∷ s) h = ground (arith, match_tail-last d (e ∷ s))

match_duration-last : (s : List ℕ) → match_duration s ≡ true → is_unit (last_byte s) ≡ true
unfolding match_duration
match_duration-last [] h = cc
match_duration-last (c ∷ s) h = match_tail-last c s (ground arith)

scale_total : (u n : ℕ) → is_unit u ≡ true → scale u n ≢ err unsupported_unit
unfolding is_unit scale
scale_total u n h = ground arith

scale_valid : (u n : ℕ) → scale u n ≢ err invalid_duration
unfolding scale
scale_valid u n h = ground arith

-- Every text that the pattern admits has a unit that the `switch` knows, so its default is never
-- reached, and every other text is refused as an invalid duration.
pub parse_every_to_seconds_errors :
    (s : List ℕ)
    → (parse_every_to_seconds s ≢ err unsupported_unit)
      × ((parse_every_to_seconds s ≡ err invalid_duration) ↔ (match_duration s ≡ false))
unfolding parse_every_to_seconds
parse_every_to_seconds_errors s = (
  λ h. ground (arith, supported, scale_total (last_byte s) (amount_from 0 s)),
  (λ h. ground (arith, scale_valid (last_byte s) (amount_from 0 s)), λ h. ground arith),
)
  where
    supported : match_duration s ≡ true → is_unit (last_byte s) ≡ true
    supported = match_duration-last s

-- A text that the pattern admits is a number of seconds.
pub parse_every_to_seconds_total :
    (s : List ℕ) → match_duration s ≡ true → (n : ℕ) × (parse_every_to_seconds s ≡ ok n)
parse_every_to_seconds_total s h = go (parse_every_to_seconds s) refl
  where
    go :
        (r : Result DurationError ℕ)
        → parse_every_to_seconds s ≡ r
        → (n : ℕ) × (parse_every_to_seconds s ≡ ok n)
    go (ok n) e = (n, e)
    go (err invalid_duration) e = cc ((parse_every_to_seconds_errors s).1.0 e)
    go (err unsupported_unit) e = absurd ((parse_every_to_seconds_errors s).0 e)
