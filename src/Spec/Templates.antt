-- ===== src/Spec/Templates.antt =====
-- extensions-controller/api/v1alpha1/protection_policy_template.go: schedule frames, and the sync
-- interval that the specs derive from them. `time.Parse` is the argument `time_parse`: the layout,
-- the text, and whether the text has that layout.
pub mod Laws
use vast_csi.Prelude.{
  ℕ, suc, ◌+◌, ◌^◌, String, Bool, true, false, not, ◌&&◌, ◌||◌, List, [], ◌∷◌, Result, ok, err,
  ◌>>=◌, ◌>>◌, reject_if, ltb, str_eq, if◌then◌else◌,
}
use vast_csi.Spec.Types.{ProtectionPolicyFrame, ProtectionPolicyTemplate}
use vast_csi.Spec.Durations.{codes, match_duration, DurationError, parse_every_to_seconds}

pub data FrameError : Type 0 where
  every_empty every_invalid keep_local_invalid keep_remote_invalid start_at_invalid : FrameError

pub data TemplateError : Type 0 where
  no_params : TemplateError
  frame : ℕ → FrameError → TemplateError

-- `vastDurationRe.MatchString(s)`
abbrev pub is_vast_duration : String → Bool
is_vast_duration s = match_duration (codes s)

module _ (time_parse : String → String → Bool) where
  unfoldable pub validate_start_at : String → Result FrameError (Unit {0})
  validate_start_at s =
      if time_parse "2006-01-02 15:04:05" s
      then ok tt
      else if time_parse "15:04" s
      then ok tt
      else if time_parse "2006-01-02T15:04:05Z07:00" s
      then ok tt
      else err start_at_invalid

  unfoldable pub validate_frame : ProtectionPolicyFrame → Result FrameError (Unit {0})
  validate_frame f = do
    reject_if (str_eq f.every "") every_empty
    reject_if (not (is_vast_duration f.every)) every_invalid
    reject_if (not (str_eq f.keep_local "") && not (is_vast_duration f.keep_local))
        keep_local_invalid
    reject_if (not (str_eq f.keep_remote "") && not (is_vast_duration f.keep_remote))
        keep_remote_invalid
    if str_eq f.start_at "" then ok tt else validate_start_at f.start_at

  -- The loop over `t.Params`, from index `i`.
  unfoldable pub validate_frames : ℕ → List ProtectionPolicyFrame → Result TemplateError (Unit {0})
  validate_frames i [] = ok tt
  validate_frames i (f ∷ fs) = elim (validate_frame f) [
    | err e ↦ err (frame i e)
    | ok _ ↦ validate_frames (suc i) fs
  ]

  unfoldable pub validate_template : ProtectionPolicyTemplate → Result TemplateError (Unit {0})
  validate_template t = elim t.params [ [] ↦ err no_params | f ∷ fs ↦ validate_frames 0 (f ∷ fs) ]

pub data IntervalError : Type 0 where
  no_interval : IntervalError
  bad_every : DurationError → IntervalError

-- int64 `n > 0`, on the bit pattern.
abbrev pub is_positive : ℕ → Bool
is_positive n = ltb 0 n && ltb n (2 ^ 63)

-- `EffectiveSyncIntervalSeconds` of both specs.
unfoldable pub effective_sync_interval_seconds :
    ℕ → ProtectionPolicyTemplate → Result IntervalError ℕ
effective_sync_interval_seconds seconds t =
    if is_positive seconds then ok seconds else elim t.params [
      | [] ↦ err no_interval
      | f ∷ _ ↦ elim (parse_every_to_seconds (codes f.every)) [
        | ok n ↦ ok n
        | err e ↦ err (bad_every e)
      ]
    ]
