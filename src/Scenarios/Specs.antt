-- ===== src/Scenarios/Specs.antt =====
-- The theorems about specs, on concrete ones.
use vast_csi.Prelude.{
  ℕ, String, true, false, ◌≡◌, refl, ◌≢◌, ◌↔◌, List, [], ◌∷◌, ok, err, All, any, has, keep_if,
  Pairwise, arith, str_eq, str_lt, IsSorted,
}
use vast_csi.Spec.Durations.{
  is_digit, is_unit, match_duration, match_tail, parse_every_to_seconds, invalid_duration,
  unsupported_unit,
}
use vast_csi.Spec.Durations.Laws.{
  value, parse_every_to_seconds-value, parse_every_to_seconds_errors,
}
use vast_csi.Spec.Templates.{
  validate_template, validate_frames, validate_frame, effective_sync_interval_seconds,
}
use vast_csi.Spec.Templates.Laws.{
  IsValidFrame, validate_template_iff, effective_sync_interval_total,
}
use vast_csi.Spec.Classes.{all_storage_classes, all_storage_classes_primary_first, targets_for}
use vast_csi.Spec.Classes.Laws.{
  touches, all_storage_classes-IsSorted, all_storage_classes_primary_first_lem, IsOriented,
  targets_for-IsOriented,
}
use vast_csi.Spec.Validation.{validate_vscr, validate_vvr}
use vast_csi.Spec.Validation.Laws.{validate_vscr_iff, validate_vvr_iff, IsCompleteMesh}
use vast_csi.Spec.Validation.Pairs.{IsProperTopology}
use vast_csi.Scenarios.{triangle, hourly, gold_vscr, gold_vvr, no_layout}

parse_every_to_seconds-value_example : parse_every_to_seconds (b'1' ∷ b'5' ∷ b'm' ∷ []) ≡ ok 900
unfolding is_digit is_unit value
parse_every_to_seconds-value_example =
    parse_every_to_seconds-value b'1' (b'5' ∷ []) b'm' (refl, (refl, tt)) refl (omega arith)
      (omega arith)

parse_every_to_seconds_errors_example :
    (parse_every_to_seconds (b'x' ∷ []) ≢ err unsupported_unit)
    × ((parse_every_to_seconds (b'x' ∷ []) ≡ err invalid_duration)
        ↔ (match_duration (b'x' ∷ []) ≡ false))
parse_every_to_seconds_errors_example = parse_every_to_seconds_errors (b'x' ∷ [])

validate_template_iff_example :
    (validate_template no_layout hourly ≡ ok tt)
    ↔ ((hourly.params ≢ []) × All (IsValidFrame no_layout) hourly.params)
validate_template_iff_example = validate_template_iff no_layout hourly

effective_sync_interval_total_example : (n : ℕ) × (effective_sync_interval_seconds 0 hourly ≡ ok n)
unfolding validate_template validate_frames validate_frame match_duration match_tail is_digit
    is_unit str_eq
effective_sync_interval_total_example = effective_sync_interval_total no_layout 0 hourly refl

all_storage_classes-IsSorted_example :
    IsSorted str_lt (all_storage_classes triangle)
    × ((k : String) → has k (all_storage_classes triangle) ≡ any (touches k) triangle)
all_storage_classes-IsSorted_example = all_storage_classes-IsSorted triangle

all_storage_classes_primary_first_lem_example :
    (rest : List String) × (all_storage_classes_primary_first "gold" triangle ≡ "gold" ∷ rest)
    × IsSorted str_lt rest
    × (has "gold" rest ≡ false)
    × ((k : String) → has k ("gold" ∷ rest) ≡ any (touches k) triangle)
unfolding str_eq
all_storage_classes_primary_first_lem_example =
    all_storage_classes_primary_first_lem "gold" triangle refl

targets_for-IsOriented_example :
    Pairwise (IsOriented "gold") (keep_if (touches "gold") triangle) (targets_for "gold" triangle)
targets_for-IsOriented_example = targets_for-IsOriented "gold" triangle

validate_vscr_iff_example : (validate_vscr no_layout gold_vscr ≡ ok tt) ↔ (
    (gold_vscr.primary_storage_class ≢ "")
    × (validate_template no_layout hourly ≡ ok tt)
    × (false ≡ true → true ≡ true)
    × IsProperTopology triangle
    × (any (touches "gold") triangle ≡ true))
validate_vscr_iff_example = validate_vscr_iff no_layout gold_vscr

validate_vvr_iff_example : (validate_vvr no_layout gold_vvr ≡ ok tt) ↔ (
    (gold_vvr.volume_name ≢ "")
    × (gold_vvr.primary_storage_class ≢ "")
    × (validate_template no_layout hourly ≡ ok tt)
    × IsProperTopology triangle
    × (any (touches "gold") triangle ≡ true)
    × IsCompleteMesh triangle)
validate_vvr_iff_example = validate_vvr_iff no_layout gold_vvr
