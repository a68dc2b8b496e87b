-- ===== src/Scenarios/Failed.antt =====
-- The theorems about errors, on a loop with two errors, and on a count.
use vast_csi.Prelude.{◌≡◌, ℕ, true, refl, Option, none, some, List, [], ◌∷◌, inl, inr, arith}
use vast_csi.Spec.Durations.{codes}
use vast_csi.Spec.Durations.Laws.{value}
use vast_csi.Errors.{
  Failure, no_more, failure_then, plain, validation, wrapped, deferred, contains, is_prefix,
  message, headline, itoa, itoa_loop, trim_newlines, failure_count, merge, add, err_of,
  find_retryable, wraps_network, network_err_substrings, is_network_error, is_permanent_error,
}
use vast_csi.Errors.Texts.{itoa-value, AreDigits}
use vast_csi.Errors.Collected.{collect, is_permanent_error-collect}

abbrev no_path : Failure
no_path = wrapped (codes "sync: ") (validation (codes "no path"))

abbrev met : List (Option Failure)
met = some (plain (codes "quota")) ∷ none ∷ some no_path ∷ []

abbrev both : Failure
both = deferred (failure_then (plain (codes "quota")) (failure_then no_path no_more))

is_permanent_error-collect_example : is_permanent_error (some no_path) ≡ true
unfolding collect add merge err_of is_permanent_error is_network_error find_retryable wraps_network
    network_err_substrings contains is_prefix message headline itoa itoa_loop trim_newlines
    failure_count
is_permanent_error-collect_example =
    is_permanent_error-collect met both no_path refl refl (inr (inr (inl refl)))

itoa-value_example : (text : List ℕ) × (itoa 207 ≡ some text) × (value text ≡ 207) × AreDigits text
itoa-value_example = itoa-value 207 (omega arith)
