-- ===== src/Errors/Collected.antt =====
-- What a DeferredError is taken for, from what is taken for its members.
use vast_csi.Prelude.{
  ℕ, suc, ◌≡◌, refl, sym, ap, subst, ◌∙◌, ◌⊎◌, true, false, ◌==◌, List, [], ◌∷◌, ◌++◌, Option, none,
  some, All, Among, any, arith, Bool-cases, inl, inr,
}
use vast_csi.Spec.Durations.{codes}
use vast_csi.Errors.{
  Failure, Failures, no_more, failure_then, deferred, contains, message, deferred_message, lines,
  line, headline, failure_count, merge, add, err_of, find_retryable, find_retryable_in, first_found,
  wraps_network, wraps_network_in, network_err_substrings, is_network_error, is_permanent_error,
}
use vast_csi.Errors.Texts.{contains-append, contains-prepend, contains-trim_newlines, NoNewline}

-- The errors that a loop has met, in order, where none is an iteration without an error.
unfoldable pub collect : Failures → List (Option Failure) → Failures
collect fs [] = fs
collect fs (e ∷ es) = collect (add fs e) es

abbrev pub Holds : Failures → Failure → Type 0
Holds no_more f = ⊥
Holds (failure_then g fs) f = (g ≡ f) ⊎ Holds fs f

contains-line :
    (sub : List ℕ) (f : Failure)
    → contains sub (message f) ≡ true
    → contains sub (line (message f)) ≡ true
contains-line sub f h =
    contains-prepend sub (codes "  - ") (message f ++ 10 ∷ [])
      (contains-append sub (message f) (10 ∷ []) h)

contains-lines :
    (sub : List ℕ) (fs : Failures) (f : Failure)
    → Holds fs f
    → contains sub (message f) ≡ true
    → contains sub (lines fs) ≡ true
unfolding message
contains-lines sub no_more f q h = absurd q
contains-lines sub (failure_then g fs) f (inl e) h =
    contains-append sub (line (message g)) (lines fs)
      (contains-line sub g (ap (λ x. contains sub (message x)) e ∙ h))
contains-lines sub (failure_then g fs) f (inr q) h =
    contains-prepend sub (line (message g)) (lines fs) (contains-lines sub fs f q h)

-- A text without newlines in the message of a member is in the message of the whole.
contains-deferred :
    (sub : List ℕ) (fs : Failures) (f : Failure)
    → NoNewline sub
    → Holds fs f
    → contains sub (message f) ≡ true
    → contains sub (deferred_message fs) ≡ true
unfolding message
contains-deferred sub no_more f n q h = absurd q
contains-deferred sub (failure_then g no_more) f n (inl e) h =
    ap (λ x. contains sub (message x)) e ∙ h
contains-deferred sub (failure_then g no_more) f n (inr q) h = absurd q
contains-deferred sub (failure_then g (failure_then k fs)) f n q h =
    let whole = lines (failure_then g (failure_then k fs)) in
    let top = headline (suc (suc (failure_count fs))) in
    contains-trim_newlines sub (top ++ whole) n (
      contains-prepend sub top whole
        (contains-lines sub (failure_then g (failure_then k fs)) f q h))

substrings-deferred :
    (subs : List (List ℕ)) (fs : Failures) (f : Failure)
    → All NoNewline subs
    → Holds fs f
    → any (λ sub. contains sub (message f)) subs ≡ true
    → any (λ sub. contains sub (message (deferred fs))) subs ≡ true
unfolding message
substrings-deferred [] fs f n q h = h
substrings-deferred (sub ∷ subs) fs f (n, ns) q h = elim (Bool-cases (contains sub (message f))) [
  | inl e ↦ let whole = contains-deferred sub fs f n q e in ground (arith, whole)
  | inr e ↦
      let rest = substrings-deferred subs fs f ns q (ground (arith, e)) in ground (arith, rest)
]

wraps_network-held :
    (fs : Failures) (f : Failure) → Holds fs f → wraps_network f ≡ true → wraps_network_in fs ≡ true
unfolding wraps_network
wraps_network-held no_more f q h = absurd q
wraps_network-held (failure_then g fs) f (inl e) h = let same = ap wraps_network e in ground arith
wraps_network-held (failure_then g fs) f (inr q) h =
    let rest = wraps_network-held fs f q h in ground arith

first_found-none : (a b : Option (Option ℕ)) → first_found a b ≡ none → (a ≡ none) × (b ≡ none)
first_found-none none b h = (refl, h)
first_found-none (some a) b h = absurd cc

find_retryable-held :
    (fs : Failures) (f : Failure)
    → Holds fs f
    → find_retryable_in fs ≡ none
    → find_retryable f ≡ none
unfolding find_retryable
find_retryable-held no_more f q h = absurd q
find_retryable-held (failure_then g fs) f (inl e) h =
    ap find_retryable (sym e) ∙ (first_found-none (find_retryable g) (find_retryable_in fs) h).0
find_retryable-held (failure_then g fs) f (inr q) h =
    find_retryable-held fs f q (first_found-none (find_retryable g) (find_retryable_in fs) h).1

no_newlines-All : (sub : List ℕ) → any (λ c. c == 10) sub ≡ false → NoNewline sub
no_newlines-All [] h = tt
no_newlines-All (c ∷ sub) h = (ground arith, no_newlines-All sub (ground arith))

each_lacks_newlines :
    (subs : List (List ℕ)) → any (any (λ c. c == 10)) subs ≡ false → All NoNewline subs
each_lacks_newlines [] h = tt
each_lacks_newlines (sub ∷ subs) h =
    (no_newlines-All sub (ground arith), each_lacks_newlines subs (ground arith))

lacks_newlines : All NoNewline network_err_substrings
unfolding network_err_substrings
lacks_newlines = each_lacks_newlines network_err_substrings refl

-- A member that a test finds is found in the whole.
network-deferred :
    (fs : Failures) (f : Failure)
    → Holds fs f
    → is_network_error (some f) ≡ true
    → is_network_error (some (deferred fs)) ≡ true
unfolding is_network_error wraps_network
network-deferred fs f q h = elim (Bool-cases (wraps_network f)) [
  | inl e ↦ let whole = wraps_network-held fs f q e in ground arith
  | inr e ↦
      let whole = substrings-deferred network_err_substrings fs f lacks_newlines q (ground arith) in
      ground arith
]

is_permanent :
    (f : Failure) (o : Option (Option ℕ))
    → find_retryable f ≡ o
    → is_permanent_error (some f) ≡ true
    → (is_network_error (some f) ≡ false) × (find_retryable f ≡ none)
unfolding is_permanent_error
is_permanent f none at h = (ground arith, at)
is_permanent f (some delay) at h = absurd (let k = rw at at h in ground arith)

permanent_of :
    (f : Failure)
    → is_network_error (some f) ≡ false
    → find_retryable f ≡ none
    → is_permanent_error (some f) ≡ true
unfolding is_permanent_error
permanent_of f n r = rw (n, r) refl

permanent-held :
    (fs : Failures) (f : Failure)
    → Holds fs f
    → is_permanent_error (some (deferred fs)) ≡ true
    → is_permanent_error (some f) ≡ true
unfolding find_retryable
permanent-held fs f q h =
    let (calm, unmatched) = is_permanent (deferred fs) (find_retryable (deferred fs)) refl h in
    let loud = network-deferred fs f q in
    permanent_of f (ground arith) (find_retryable-held fs f q unmatched)

Holds-merge : (fs others : Failures) (f : Failure) → Holds fs f → Holds (merge fs others) f
unfolding merge
Holds-merge no_more others f q = absurd q
Holds-merge (failure_then g fs) others f (inl e) = inl e
Holds-merge (failure_then g fs) others f (inr q) = inr (Holds-merge fs others f q)

Holds-merge_right :
    (fs others : Failures) (f : Failure) → Holds others f → Holds (merge fs others) f
unfolding merge
Holds-merge_right no_more others f q = q
Holds-merge_right (failure_then g fs) others f q = inr (Holds-merge_right fs others f q)

Holds-add : (fs : Failures) (e : Option Failure) (f : Failure) → Holds fs f → Holds (add fs e) f
unfolding add
Holds-add fs none f q = q
Holds-add fs (some g) f q = Holds-merge fs (failure_then g no_more) f q

Holds-collect :
    (fs : Failures) (es : List (Option Failure)) (f : Failure)
    → Holds fs f
    → Holds (collect fs es) f
unfolding collect
Holds-collect fs [] f q = q
Holds-collect fs (e ∷ es) f q = Holds-collect (add fs e) es f (Holds-add fs e f q)

collect-Holds :
    (fs : Failures) (es : List (Option Failure)) (f : Failure)
    → Among (some f) es
    → Holds (collect fs es) f
unfolding collect add
collect-Holds fs [] f q = absurd q
collect-Holds fs (e ∷ es) f (inl same) = Holds-collect (add fs e) es f (
    subst (λ o. Holds (add fs o) f) (sym same)
      (Holds-merge_right fs (failure_then f no_more) f (inl refl)))
collect-Holds fs (e ∷ es) f (inr q) = collect-Holds (add fs e) es f q

err_of-some : (fs : Failures) (e : Failure) → err_of fs ≡ some e → deferred fs ≡ e
unfolding err_of
err_of-some no_more e h = absurd cc
err_of-some (failure_then f fs) e h = cc

-- Where a loop adds its errors to a DeferredError, one by one, and returns its Err, an error that
-- isPermanentError takes for permanent has only members that it takes for permanent. One member that
-- is a network error or that asks for a retry is enough that the whole is not permanent.
pub is_permanent_error-collect :
    (es : List (Option Failure)) (e f : Failure)
    → err_of (collect no_more es) ≡ some e
    → is_permanent_error (some e) ≡ true
    → Among (some f) es
    → is_permanent_error (some f) ≡ true
is_permanent_error-collect es e f made permanent q =
    permanent-held (collect no_more es) f (collect-Holds no_more es f q) (
      subst (λ x. is_permanent_error (some x) ≡ true)
        (sym (err_of-some (collect no_more es) e made)) permanent)
