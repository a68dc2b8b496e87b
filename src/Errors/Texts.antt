-- ===== src/Errors/Texts.antt =====
-- Substrings, and the decimal text of a count.
use vast_csi.Prelude.{
  ℕ, zero, suc, ◌+◌, ◌-◌, ◌*◌, ◌/◌, ◌%◌, ◌^◌, ◌<◌, ◌≡◌, refl, sym, ap, ◌∙◌, true, false, ◌&&◌, ◌==◌,
  List, [], ◌∷◌, ◌++◌, some, All, arith, length, Bool-cases, inl, inr, if◌then◌else◌,
}
use native.Mathlib.Nat.{pow-suc}
use vast_csi.Spec.Durations.{is_nil, is_digit}
use vast_csi.Spec.Durations.Laws.{value}
use vast_csi.Errors.{is_prefix, contains, trim_newlines, itoa_loop, itoa}

is_prefix-append : (sub s more : List ℕ) → is_prefix sub s ≡ true → is_prefix sub (s ++ more) ≡ true
unfolding is_prefix
is_prefix-append [] s more h = refl
is_prefix-append (c ∷ sub) [] more h = absurd (ground arith)
is_prefix-append (c ∷ sub) (d ∷ s) more h = ground (arith, is_prefix-append sub s more)

is_prefix-contains : (sub s : List ℕ) → is_prefix sub s ≡ true → contains sub s ≡ true
unfolding is_prefix contains
is_prefix-contains [] [] h = refl
is_prefix-contains (c ∷ sub) [] h = absurd (ground arith)
is_prefix-contains sub (d ∷ s) h = ground arith

pub contains-prepend :
    (sub more s : List ℕ) → contains sub s ≡ true → contains sub (more ++ s) ≡ true
unfolding contains
contains-prepend sub [] s h = h
contains-prepend sub (c ∷ more) s h = ground (arith, contains-prepend sub more s h)

pub contains-append :
    (sub s more : List ℕ) → contains sub s ≡ true → contains sub (s ++ more) ≡ true
unfolding contains is_prefix
contains-append [] [] more h = is_prefix-contains [] more refl
contains-append (c ∷ sub) [] more h = absurd (ground arith)
contains-append sub (d ∷ s) more h =
    ground (arith, is_prefix-append sub (d ∷ s) more, contains-append sub s more)

-- A text without newlines at a place stays there.
abbrev pub NoNewline : List ℕ → Type 0
NoNewline sub = All (λ c. (c == 10) ≡ false) sub

trim_newlines-kept :
    (c : ℕ) (s : List ℕ) → (c == 10) ≡ false → trim_newlines (c ∷ s) ≡ c ∷ trim_newlines s
unfolding trim_newlines
trim_newlines-kept c s h = rw h refl

is_prefix-trim_newlines :
    (sub s : List ℕ)
    → NoNewline sub
    → is_prefix sub s ≡ true
    → is_prefix sub (trim_newlines s) ≡ true
unfolding is_prefix
is_prefix-trim_newlines [] s h p = refl
is_prefix-trim_newlines (c ∷ sub) [] h p = absurd (ground arith)
is_prefix-trim_newlines (c ∷ sub) (d ∷ s) (h, hs) p =
    let rest = is_prefix-trim_newlines sub s hs in
    let same : c ≡ d = ground arith in
    rw (trim_newlines-kept d s (ground arith)) (ground (arith, rest))

-- The step of the trimming, whatever is left of the tail.
contains-cut :
    (sub : List ℕ) (c : ℕ) (rest : List ℕ)
    → contains sub rest ≡ true
    → contains sub (if c == 10 && is_nil rest then [] else c ∷ rest) ≡ true
unfolding contains
contains-cut sub c [] h = elim (Bool-cases (c == 10)) [
  | inl e ↦ rw e h
  | inr e ↦ rw e (contains-prepend sub (c ∷ []) [] h)
]
contains-cut sub c (d ∷ rest) h = elim (Bool-cases (c == 10)) [
  | inl e ↦ rw e (contains-prepend sub (c ∷ []) (d ∷ rest) h)
  | inr e ↦ rw e (contains-prepend sub (c ∷ []) (d ∷ rest) h)
]

pub contains-trim_newlines :
    (sub s : List ℕ) → NoNewline sub → contains sub s ≡ true → contains sub (trim_newlines s) ≡ true
unfolding contains trim_newlines
contains-trim_newlines sub [] h p = p
contains-trim_newlines sub (c ∷ s) h p = elim (Bool-cases (is_prefix sub (c ∷ s))) [
  | inl e ↦ is_prefix-contains sub (trim_newlines (c ∷ s)) (is_prefix-trim_newlines sub (c ∷ s) h e)
  | inr e ↦ contains-cut sub c (trim_newlines s) (contains-trim_newlines sub s h (ground arith))
]

div10-bounded : (n p : ℕ) → n < p * 10 → n / 10 < p
div10-bounded n p h = omega arith

-- One digit more in front of a text.
digit-value : (n p v : ℕ) → n / 10 * (p * 10) + (((b'0' + n % 10) - b'0') * p + v) ≡ n * p + v
digit-value n p v =
    let digit : (b'0' + n % 10) - b'0' ≡ n % 10 = omega arith in
    let split : n / 10 * 10 + n % 10 ≡ n = omega arith in
    rw digit (shift (n / 10) (n % 10) p v ∙ ap (λ m. m * p + v) split)
  where
    shift : (q r p v : ℕ) → q * (p * 10) + (r * p + v) ≡ (q * 10 + r) * p + v
    shift q r p v = omega arith

digit-is_digit : (n : ℕ) → is_digit (b'0' + n % 10) ≡ true
unfolding is_digit
digit-is_digit n = let small : n % 10 < 10 = omega arith in ground arith

abbrev pub AreDigits : List ℕ → Type 0
AreDigits text = All (λ c. is_digit c ≡ true) text

zero_of : (n : ℕ) → (n == 0) ≡ true → n ≡ 0
zero_of n h = ground arith

-- The loop writes the digits of the number before the text, if the buffer has the places.
itoa_loop-value :
    (pos n : ℕ) (text : List ℕ)
    → n < 10 ^ pos
    → AreDigits text
    → (ds : List ℕ) × (itoa_loop pos n text ≡ some ds)
      × (value ds ≡ n * 10 ^ length text + value text)
      × AreDigits ds
unfolding itoa_loop value
itoa_loop-value zero n text h t =
    let none_left : n ≡ 0 = omega (arith, h) in rw none_left (text, refl, omega arith, t)
itoa_loop-value (suc pos) n text h t = elim (Bool-cases (n == 0)) [
  | inl e ↦ rw (zero_of n e) (text, refl, omega arith, t)
  | inr e ↦
      let small = div10-bounded n (10 ^ pos) (rw pow-suc at h) in
      let (ds, l, v, d) =
        itoa_loop-value pos (n / 10) ((b'0' + n % 10) ∷ text) small (digit-is_digit n, t) in
      (
        ds,
        rw e l,
        v ∙ rw (pow-suc 10 (length text)) (digit-value n (10 ^ length text) (value text)),
        d,
      )
]

-- For a count below 2^63, itoa stays inside its buffer of 20 bytes and writes decimal digits that denote the count.
pub itoa-value :
    (n : ℕ)
    → n < 2 ^ 63
    → (text : List ℕ) × (itoa n ≡ some text) × (value text ≡ n) × AreDigits text
unfolding itoa value is_digit
itoa-value n h = elim (Bool-cases (n == 0)) [
  | inl e ↦ (b'0' ∷ [], rw e refl, sym (zero_of n e), (refl, tt))
  | inr e ↦
      let (ds, l, v, d) = itoa_loop-value 20 n [] (omega (arith, h)) tt in
      (ds, rw e l, v ∙ omega arith, d)
]
