-- ===== src/Vms/Wait/Kept.antt =====
-- A condition through the polling loop.
use vast_csi.Prelude.{ℕ, zero, suc, Bool, true, false, Result, ok, err, ltb, Bool-cases, inl, inr}
use vast_csi.Prelude.Effects.{Io}
use vast_csi.Prelude.Triples.{Outcome, Triple}
use vast_csi.Vms.Wait.{WaitError, Clock, after_check, poll, wait_resource}

-- What one call of `checkFn` leaves: `Q` where it is done, `P` otherwise.
abbrev pub Checked : {W : Type 0} → (W → Type 0) → (W → Type 0) → Bool → W → Type 0
Checked P Q true w = Q w
Checked P Q false w = P w

module _ {W E : Type 0} (P Q : W → Type 0) (clock : Clock W)
    (sleeps : (d : ℕ) (w : W) → P w → P (clock.sleep d w)) where
  after_check-Outcome :
      (deadline sleep : ℕ) (again : Io W (WaitError E) (Unit {0}))
      → Triple P again (λ _. Q) P
      → (r : W × Result E Bool) → Outcome (Checked P Q) P r
      → Outcome (λ _. Q) P (after_check clock deadline sleep again r)
  unfolding after_check
  after_check-Outcome deadline sleep again t (w, err e) o = o
  after_check-Outcome deadline sleep again t (w, ok true) o = o
  after_check-Outcome deadline sleep again t (w, ok false) o =
      elim (Bool-cases (ltb deadline (clock.now w))) [
        | inl e ↦ rw e o
        | inr e ↦ rw e (t (clock.sleep sleep w) (sleeps sleep w o))
      ]

  module _ (check_fn : Io W E Bool) (checks : Triple P check_fn (Checked P Q) P) where
    poll-Triple :
        (fuel deadline sleep : ℕ) → Triple P (poll clock check_fn fuel deadline sleep) (λ _. Q) P
    unfolding poll
    poll-Triple zero deadline sleep w p = p
    poll-Triple (suc fuel) deadline sleep w p =
        after_check-Outcome deadline sleep (poll clock check_fn fuel deadline sleep)
          (poll-Triple fuel deadline sleep) (check_fn w) (checks w p)

    pub wait_resource-Triple :
        (timeout sleep : ℕ) → Triple P (wait_resource clock check_fn timeout sleep) (λ _. Q) P
    unfolding wait_resource
    wait_resource-Triple timeout sleep w p = poll-Triple _ _ sleep w p
