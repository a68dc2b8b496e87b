-- ===== src/Errors.antt =====
-- extensions-controller/internal/common/errors/errors.go and errors.go beside it, internal/controller/errors.go
-- and maybeBackoffRetry of reconciler.go. A message is the list of its bytes.
pub mod Texts
pub mod Collected
use vast_csi.Prelude.{
  ℕ, zero, suc, ◌+◌, ◌/◌, ◌%◌, String, Bool, true, false, not, ◌&&◌, ◌||◌, ◌==◌, List, [], ◌∷◌,
  ◌++◌, Option, none, some, any, if◌then◌else◌,
}
use vast_csi.Spec.Durations.{codes, is_nil}

-- An error. `plain` stands for those that wrap nothing and that no test looks for; `wrapped` is
-- `fmt.Errorf` with a text before a `%w`.
mutual
  pub data Failure : Type 0 where
    plain op_error validation : List ℕ → Failure
    deadline_exceeded : Failure
    retry_after : Failure → ℕ → Failure
    wrapped : List ℕ → Failure → Failure
    deferred : Failures → Failure

  pub data Failures : Type 0 where
    no_more : Failures
    failure_then : Failure → Failures → Failures

-- `strings.HasPrefix` and `strings.Contains`
unfoldable pub is_prefix : List ℕ → List ℕ → Bool
is_prefix [] s = true
is_prefix (c ∷ sub) [] = false
is_prefix (c ∷ sub) (d ∷ s) = c == d && is_prefix sub s

unfoldable pub contains : List ℕ → List ℕ → Bool
contains sub [] = is_nil sub
contains sub (c ∷ s) = is_prefix sub (c ∷ s) || contains sub s

-- `strings.TrimRight(s, "\n")`
unfoldable pub trim_newlines : List ℕ → List ℕ
trim_newlines [] = []
trim_newlines (c ∷ s) =
    let rest = trim_newlines s in if c == 10 && is_nil rest then [] else c ∷ rest

-- The first of two answers that there is.
abbrev pub first_found {ℓ} : {A : Type ℓ} → Option A → Option A → Option A
first_found none other = other
first_found (some a) other = some a

-- The loop of itoa. `pos` is the next free place of the buffer; `none` is an index out of its range.
unfoldable pub itoa_loop : ℕ → ℕ → List ℕ → Option (List ℕ)
itoa_loop zero n text = if n == 0 then some text else none
itoa_loop (suc pos) n text =
    let rest = itoa_loop pos (n / 10) ((b'0' + n % 10) ∷ text) in if n == 0 then some text else rest

unfoldable pub itoa : ℕ → Option (List ℕ)
itoa n = if n == 0 then some (b'0' ∷ []) else itoa_loop 20 n []

unfoldable pub failure_count : Failures → ℕ
failure_count no_more = 0
failure_count (failure_then f fs) = suc (failure_count fs)

-- The first line of a DeferredError.
unfoldable pub headline : ℕ → List ℕ
headline n =
    (elim (itoa n) [ none ↦ [] | some text ↦ text ]) ++ codes " errors occurred:" ++ 10 ∷ []

-- The line of one error.
abbrev pub line : List ℕ → List ℕ
line text = codes "  - " ++ (text ++ 10 ∷ [])

unfoldable mutual
  -- `Error`
  pub message : Failure → List ℕ
  message (plain text) = text
  message (op_error text) = text
  message (validation text) = text
  message deadline_exceeded = codes "context deadline exceeded"
  message (retry_after f delay) = message f
  message (wrapped prefix f) = prefix ++ message f
  message (deferred fs) = deferred_message fs

  pub deferred_message : Failures → List ℕ
  deferred_message no_more = trim_newlines (headline 0)
  deferred_message (failure_then f no_more) = message f
  deferred_message (failure_then f (failure_then g fs)) =
      let more = line (message g) ++ lines fs in
      trim_newlines (headline (suc (suc (failure_count fs))) ++ (line (message f) ++ more))

  pub lines : Failures → List ℕ
  lines no_more = []
  lines (failure_then f fs) = line (message f) ++ lines fs

-- `Add`, `Merge` and `Err` of a DeferredError; a nil error is `none`.
unfoldable pub merge : Failures → Failures → Failures
merge no_more others = others
merge (failure_then f fs) others = failure_then f (merge fs others)

unfoldable pub add : Failures → Option Failure → Failures
add fs none = fs
add fs (some f) = merge fs (failure_then f no_more)

unfoldable pub err_of : Failures → Option Failure
err_of no_more = none
err_of (failure_then f fs) = some (deferred (failure_then f fs))

unfoldable mutual
  -- `errors.As(err, &retryable)`, depth first: what RetryAfter of the first match returns.
  pub find_retryable : Failure → Option (Option ℕ)
  find_retryable (plain text) = none
  find_retryable (op_error text) = none
  find_retryable (validation text) = none
  find_retryable deadline_exceeded = none
  find_retryable (retry_after f delay) = some (some delay)
  find_retryable (wrapped prefix f) = find_retryable f
  find_retryable (deferred fs) = find_retryable_in fs

  pub find_retryable_in : Failures → Option (Option ℕ)
  find_retryable_in no_more = none
  find_retryable_in (failure_then f fs) = first_found (find_retryable f) (find_retryable_in fs)

unfoldable mutual
  -- `errors.Is(err, context.DeadlineExceeded)` or `errors.As(err, &netErr)`
  pub wraps_network : Failure → Bool
  wraps_network (plain text) = false
  wraps_network (op_error text) = true
  wraps_network (validation text) = false
  wraps_network deadline_exceeded = true
  wraps_network (retry_after f delay) = wraps_network f
  wraps_network (wrapped prefix f) = wraps_network f
  wraps_network (deferred fs) = wraps_network_in fs

  pub wraps_network_in : Failures → Bool
  wraps_network_in no_more = false
  wraps_network_in (failure_then f fs) = wraps_network f || wraps_network_in fs

unfoldable pub network_err_substrings : List (List ℕ)
network_err_substrings =
    codes "dial tcp"
    ∷ codes "i/o timeout"
    ∷ codes "connection refused"
    ∷ codes "connection reset"
    ∷ codes "no route to host"
    ∷ codes "network is unreachable"
    ∷ codes "connection timed out"
    ∷ codes "context deadline exceeded"
    ∷ codes "timed out after"
    ∷ codes "EOF"
    ∷ []

unfoldable pub is_network_error : Option Failure → Bool
is_network_error none = false
is_network_error (some f) =
    wraps_network f || any (λ sub. contains sub (message f)) network_err_substrings

unfoldable pub is_permanent_error : Option Failure → Bool
is_permanent_error none = false
is_permanent_error (some f) =
    not (is_network_error (some f))
    && (elim (find_retryable f) [ none ↦ true | some delay ↦ false ])

-- What maybeBackoffRetry returns: the delay of the result and the error. `crashed` is a call on nil.
pub data RetryResult : Type 0 where
  requeue_after : ℕ → RetryResult
  returned : Option Failure → RetryResult
  crashed : RetryResult

module _ {W : Type 0} (next : W → ℕ × W) where
  unfoldable pub next_delay : W → RetryResult × W
  next_delay w = let (delay, w') = next w in (requeue_after delay, w')

  unfoldable pub retry_in : Option W → Option ℕ → RetryResult × Option W
  retry_in bo (some delay) = (requeue_after delay, bo)
  retry_in none none = (crashed, none)
  retry_in (some w) none = let (r, w') = next_delay w in (r, some w')

  unfoldable pub retry_unmatched : Option W → Option Failure → RetryResult × Option W
  retry_unmatched (some w) (some f) = let (r, w') = next_delay w in (r, some w')
  retry_unmatched none e = (returned e, none)
  retry_unmatched (some w) none = (returned none, some w)

  -- `bo` is the backoff of the object, with none for nil.
  unfoldable pub maybe_backoff_retry : Option W → Option Failure → RetryResult × Option W
  maybe_backoff_retry bo none = retry_unmatched bo none
  maybe_backoff_retry bo (some f) = elim (find_retryable f) [
    | some delay ↦ retry_in bo delay
    | none ↦ retry_unmatched bo (some f)
  ]
