-- ===== src/Controller/Objects/Names.antt =====
-- The two names of the VRC of a StorageClass.
use Prim.Native.Char.{code}
use vast_csi.Prelude.{
  ℕ, String, ◌<>◌, ◌≡◌, ◌↔◌, refl, sym, ap, subst, Bool, false, ◌||◌, ◌==◌, dots_to_dashes, arith,
  Bool-cases, inl, inr, if◌then◌else◌,
}
use text.Mathlib.TextLemmas.{append_cancel_left}
use vast_csi.Controller.Objects.{ParentCr}
use vast_csi.Controller.Objects.Touch.{touched_name}
use vast_csi.Controller.Remap.Reconcile.{vgr_name_for_sc}

abbrev pub has_dot : String → Bool
has_dot String.[] = false
has_dot (String.◌∷◌ c s) = code c == b'.' || has_dot s

first_code : String → ℕ
first_code String.[] = 0
first_code (String.◌∷◌ c s) = code c

rest_of : String → String
rest_of String.[] = ""
rest_of (String.◌∷◌ c s) = s

no_dots : (s : String) → has_dot s ≡ false → dots_to_dashes s ≡ s
unfolding dots_to_dashes
no_dots String.[] h = refl
no_dots (String.◌∷◌ c s) h =
    let dot : (code c == b'.') ≡ false = ground arith in rw (dot, no_dots s (ground arith)) refl

dots : (s : String) → dots_to_dashes s ≡ s → has_dot s ≡ false
unfolding dots_to_dashes first_code rest_of
dots String.[] h = refl
dots (String.◌∷◌ c s) h = elim (Bool-cases (code c == b'.')) [
  | inl e ↦
      let same : code (if code c == b'.' then "-" else c) ≡ code c = ap first_code h in
      let dash = subst (λ b. code (if b then "-" else c) ≡ code c) e same in absurd (ground arith)
  | inr e ↦ let rest = dots s (ap rest_of h) in rw e rest
]

-- `TouchSecondaryVRCs` and `TouchConstellationVRCs` look for the VRC of a StorageClass under the name
-- that its group has exactly when the name of the StorageClass has no dot.
pub touched_name_iff :
    (vscr : ParentCr) (sc_name : String)
    → (touched_name vscr sc_name ≡ vgr_name_for_sc vscr.name sc_name) ↔ (has_dot sc_name ≡ false)
unfolding touched_name vgr_name_for_sc
touched_name_iff vscr sc_name = (
  λ e. dots sc_name (
      sym (
        append_cancel_left "-" sc_name (dots_to_dashes sc_name)
          (append_cancel_left vscr.name ("-" <> sc_name) ("-" <> dots_to_dashes sc_name) e))),
  λ h. ap (λ s. vscr.name <> ("-" <> s)) (sym (no_dots sc_name h)),
)
