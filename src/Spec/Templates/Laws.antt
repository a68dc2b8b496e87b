-- ===== src/Spec/Templates/Laws.antt =====
-- What a validated template guarantees.
use vast_csi.Prelude.{
  ℕ, suc, String, Bool, true, ◌≡◌, refl, ◌≢◌, ◌⊎◌, ◌↔◌, List, [], ◌∷◌, ok, arith, All, str_eq_iff,
  inl, inr, if◌then◌else◌,
}
use vast_csi.Spec.Types.{ProtectionPolicyFrame, ProtectionPolicyTemplate}
use vast_csi.Spec.Durations.{codes, match_duration}
use vast_csi.Spec.Durations.Laws.{parse_every_to_seconds_total}
use vast_csi.Spec.Durations.Pattern.{IsDurationText, match_duration-IsDurationText}
use vast_csi.Spec.Templates.{
  is_vast_duration, is_positive, validate_start_at, validate_frame, validate_frames,
  validate_template, effective_sync_interval_seconds,
}

-- Some digits and the letter of a unit.
abbrev pub IsVastDuration : String → Type 0
IsVastDuration s = IsDurationText (codes s)

duration_iff : (s : String) → (is_vast_duration s ≡ true) ↔ IsVastDuration s
duration_iff s = match_duration-IsDurationText (codes s)

every_not_empty : (s : String) → is_vast_duration s ≡ true → s ≢ ""
unfolding match_duration
every_not_empty s h e = cc

module _ (time_parse : String → String → Bool) where
  -- One of the three layouts: date and time, a time of the day, or RFC 3339.
  abbrev pub IsStart : String → Type 0
  IsStart s =
      (time_parse "2006-01-02 15:04:05" s ≡ true)
      ⊎ (time_parse "15:04" s ≡ true)
      ⊎ (time_parse "2006-01-02T15:04:05Z07:00" s ≡ true)

  -- The fields of a frame, as the comment above `Validate` describes them.
  pub record IsValidFrame (f : ProtectionPolicyFrame) : Type 0 where
    pub every_valid : IsVastDuration f.every
    pub keep_local_valid : (f.keep_local ≡ "") ⊎ IsVastDuration f.keep_local
    pub keep_remote_valid : (f.keep_remote ≡ "") ⊎ IsVastDuration f.keep_remote
    pub start_at_valid : (f.start_at ≡ "") ⊎ IsStart f.start_at

  validate_start_at-IsStart : (s : String) → (validate_start_at time_parse s ≡ ok tt) ↔ IsStart s
  unfolding validate_start_at
  validate_start_at-IsStart s = (λ h. ground arith, λ h. ground arith)

  optional : (s : String) → ((s ≡ "") ⊎ (is_vast_duration s ≡ true)) ↔ ((s ≡ "") ⊎ IsVastDuration s)
  optional s = (
    λ h. elim h [ inl e ↦ inl e | inr d ↦ inr ((duration_iff s).0 d) ],
    λ h. elim h [ inl e ↦ inl e | inr d ↦ inr ((duration_iff s).1 d) ],
  )

  optional-IsStart :
      (s : String) → ((s ≡ "") ⊎ (validate_start_at time_parse s ≡ ok tt)) ↔ ((s ≡ "") ⊎ IsStart s)
  optional-IsStart s = (
    λ h. elim h [ inl e ↦ inl e | inr d ↦ inr ((validate_start_at-IsStart s).0 d) ],
    λ h. elim h [ inl e ↦ inl e | inr d ↦ inr ((validate_start_at-IsStart s).1 d) ],
  )

  -- What the tests of `Validate` say, before they are read as above.
  passes_iff :
      (f : ProtectionPolicyFrame)
      → (validate_frame time_parse f ≡ ok tt) ↔ (
          (is_vast_duration f.every ≡ true)
          × ((f.keep_local ≡ "") ⊎ (is_vast_duration f.keep_local ≡ true))
          × ((f.keep_remote ≡ "") ⊎ (is_vast_duration f.keep_remote ≡ true))
          × ((f.start_at ≡ "") ⊎ (validate_start_at time_parse f.start_at ≡ ok tt)))
  unfolding validate_frame
  passes_iff f = (
    λ h. (
      ground arith,
      ground (arith, str_eq_iff f.keep_local ""),
      ground (arith, str_eq_iff f.keep_remote ""),
      ground (arith, str_eq_iff f.start_at ""),
    ),
    λ (e, l, r, s). ground (
      arith,
      str_eq_iff f.every "",
      every_not_empty f.every e,
      str_eq_iff f.keep_local "",
      str_eq_iff f.keep_remote "",
      str_eq_iff f.start_at "",
    ),
  )

  validate_frame_iff :
      (f : ProtectionPolicyFrame) → (validate_frame time_parse f ≡ ok tt) ↔ IsValidFrame f
  validate_frame_iff f = (
    λ h.
        let (e, l, r, s) = (passes_iff f).0 h in
        record {
          every_valid = (duration_iff f.every).0 e;
          keep_local_valid = (optional f.keep_local).0 l;
          keep_remote_valid = (optional f.keep_remote).0 r;
          start_at_valid = (optional-IsStart f.start_at).0 s;
        },
    λ v. (passes_iff f).1 (
      (duration_iff f.every).1 v.every_valid,
      (optional f.keep_local).1 v.keep_local_valid,
      (optional f.keep_remote).1 v.keep_remote_valid,
      (optional-IsStart f.start_at).1 v.start_at_valid,
    ),
  )

  validate_frames_iff :
      (i : ℕ) (fs : List ProtectionPolicyFrame)
      → (validate_frames time_parse i fs ≡ ok tt) ↔ All IsValidFrame fs
  unfolding validate_frames
  validate_frames_iff i [] = (λ _. tt, λ _. refl)
  validate_frames_iff i (f ∷ fs) =
      let (to, from) = validate_frame_iff f in
      let (to', from') = validate_frames_iff (suc i) fs in
      (λ h. (to (ground arith), to' (ground arith)), λ (v, vs). ground (arith, from v, from' vs))

  -- A template is accepted exactly when it has a frame and, in every frame, `every` is a duration (some
  -- digits and the letter of a unit), `keepLocal` and `keepRemote` are empty or durations, and `startAt`
  -- is empty or has one of the three layouts.
  pub validate_template_iff :
      (t : ProtectionPolicyTemplate)
      → (validate_template time_parse t ≡ ok tt) ↔ ((t.params ≢ []) × All IsValidFrame t.params)
  unfolding validate_template
  validate_template_iff t = go t.params
    where
      go :
          (ps : List ProtectionPolicyFrame)
          → (validate_template time_parse (record { params = ps }) ≡ ok tt)
            ↔ ((ps ≢ []) × All IsValidFrame ps)
      go [] = (λ h. cc, λ v. absurd (v.0 refl))
      go (f ∷ fs) =
          let (to, from) = validate_frames_iff 0 (f ∷ fs) in (λ h. ((λ e. cc), to h), λ v. from v.1)

  -- A validated template gives every spec a sync interval, whatever `syncIntervalSeconds` says.
  pub effective_sync_interval_total :
      (seconds : ℕ) (t : ProtectionPolicyTemplate)
      → validate_template time_parse t ≡ ok tt
      → (n : ℕ) × (effective_sync_interval_seconds seconds t ≡ ok n)
  unfolding effective_sync_interval_seconds
  effective_sync_interval_total seconds t h = go t.params ((validate_template_iff t).0 h)
    where
      go :
          (ps : List ProtectionPolicyFrame)
          → (ps ≢ []) × All IsValidFrame ps
          → (n : ℕ) × (effective_sync_interval_seconds seconds (record { params = ps }) ≡ ok n)
      go [] v = absurd (v.0 refl)
      go (f ∷ fs) (_, (v, vs)) =
          let (n, e) =
            parse_every_to_seconds_total (codes f.every) ((duration_iff f.every).1 v.every_valid) in
          (if is_positive seconds then seconds else n, ground (arith, e))
