-- ===== src/Prelude/Triples.antt =====
-- Conditions on the world before and after a call: a call that starts where `P` holds ends where `Q`
-- holds if it succeeds, and where `R` holds if it fails.
use vast_csi.Prelude.Results.{Result, ok, err}
use vast_csi.Prelude.Effects.{Io, resume, ◌>>=◌, ◌>>◌, wrap_result}

abbrev pub Outcome : {W E A : Type 0} → (A → W → Type 0) → (W → Type 0) → W × Result E A → Type 0
Outcome Q R (w, ok a) = Q a w
Outcome Q R (w, err e) = R w

abbrev pub Triple :
    {W E A : Type 0} → (W → Type 0) → Io W E A → (A → W → Type 0) → (W → Type 0) → Type 0
Triple {W} P m Q R = (w : W) → P w → Outcome Q R (m w)

-- The call keeps `P`, however it ends.
abbrev pub Keeps : {W E A : Type 0} → (W → Type 0) → Io W E A → Type 0
Keeps P m = Triple P m (λ _. P) P

-- Conditions through a chain.
module _ {W E A B : Type 0} (P R : W → Type 0) (Q : A → W → Type 0) (S : B → W → Type 0)
    (m : Io W E A) (f : A → Io W E B) where
  pub Triple->>= : Triple P m Q R → ((a : A) → Triple (Q a) (f a) S R) → Triple P (m >>= f) S R
  Triple->>= first next w p = go (m w) (first w p)
    where
      go : (r : W × Result E A) → Outcome Q R r → Outcome S R (resume f r)
      go (w, ok a) q = next a w q
      go (w, err e) q = q

pub Outcome-wrap_result :
    {W E F A : Type 0} (Q : A → W → Type 0) (R : W → Type 0) (f : E → F) (r : W × Result E A)
    → Outcome Q R r
    → Outcome Q R (wrap_result f r)
Outcome-wrap_result Q R f (w, ok a) q = q
Outcome-wrap_result Q R f (w, err e) q = q

module _ {W E A : Type 0} (P : W → Type 0) where
  pub Keeps->>= :
      {B : Type 0} (m : Io W E A) (f : A → Io W E B)
      → Keeps P m
      → ((a : A) → Keeps P (f a))
      → Keeps P (m >>= f)
  Keeps->>= m f first next = Triple->>= P P (λ _. P) (λ _. P) m f first next

  pub Keeps->> : (m : Io W E (Unit {0})) (k : Io W E A) → Keeps P m → Keeps P k → Keeps P (m >> k)
  Keeps->> m k first next = Triple->>= P P (λ _. P) (λ _. P) m (λ _. k) first (λ _. next)

-- A condition on the world alone.
pub Outcome-kept :
    {W E A : Type 0} (P : W → Type 0) (r : W × Result E A) → P r.0 → Outcome (λ _. P) P r
Outcome-kept P (w, ok a) p = p
Outcome-kept P (w, err e) p = p

pub Outcome-weaken :
    {W E A : Type 0} (P Q : W → Type 0) (r : W × Result E A)
    → ((w : W) → P w → Q w)
    → Outcome (λ _. P) P r
    → Outcome (λ _. Q) Q r
Outcome-weaken P Q (w, ok a) f p = f w p
Outcome-weaken P Q (w, err e) f p = f w p
