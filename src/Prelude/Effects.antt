-- ===== src/Prelude/Effects.antt =====
-- Go code that calls services: each call changes the world outside and returns a value or an error.
use mathlib.Core.Path.{◌≡◌, refl}
use vast_csi.Prelude.Results.{Result, ok, err}

abbrev pub Io : Type 0 → Type 0 → Type 0 → Type 0
Io W E A = W → W × Result E A

module _ {W E A B : Type 0} where
  abbrev pub resume : (A → Io W E B) → W × Result E A → W × Result E B
  resume f (w, ok a) = f a w
  resume f (w, err e) = (w, err e)

  infixl 5 ◌>>=◌
  abbrev pub ◌>>=◌ : Io W E A → (A → Io W E B) → Io W E B
  (m >>= f) w = resume f (m w)

  -- A successful chain ran its first part to the end.
  pub resume-ok :
      (f : A → Io W E B) (r : W × Result E A) (w' : W) (b : B)
      → resume f r ≡ (w', ok b)
      → (w : W) × (a : A) × (r ≡ (w, ok a)) × (f a w ≡ (w', ok b))
  resume-ok f (w, ok a) w' b h = (w, a, refl, h)
  resume-ok f (w, err e) w' b h = absurd cc

module _ {W E : Type 0} where
  infixl 5 ◌>>◌
  abbrev pub ◌>>◌ : {B : Type 0} → Io W E (Unit {0}) → Io W E B → Io W E B
  m >> k = m >>= λ _. k

  abbrev pub done : {A : Type 0} → A → Io W E A
  done a w = (w, ok a)

  abbrev pub fail : {A : Type 0} → E → Io W E A
  fail e w = (w, err e)

  -- A pure result inside such code.
  abbrev pub lift : {A : Type 0} → Result E A → Io W E A
  lift r w = (w, r)

module _ {W E F A : Type 0} where
  abbrev pub wrap_result : (E → F) → W × Result E A → W × Result F A
  wrap_result f (w, ok a) = (w, ok a)
  wrap_result f (w, err e) = (w, err (f e))

  -- `fmt.Errorf("...: %w", err)`: the error of a call under the caller's own.
  abbrev pub wrap : (E → F) → Io W E A → Io W F A
  wrap f m w = wrap_result f (m w)
