-- ===== src/Vms/Wait/Laws.antt =====
-- `WaitResource` ends, and what its three results say.
use vast_csi.Prelude.{
  ℕ, zero, suc, ◌+◌, ◌*◌, ◌/◌, ◌≤◌, ◌<◌, Bool, true, false, ◌≡◌, refl, subst, Result, ok, err, ltb,
  arith, Bool-cases, inl, inr,
}
use native.Mathlib.Omega.{div_any}
use native.Mathlib.Nat.{mod-lt}
use vast_csi.Prelude.Effects.{Io}
use vast_csi.Vms.Wait.{WaitError, timed_out, check_failed, Clock, after_check, poll, wait_resource}

-- How the loop ended in the world `w`: the last call of `checkFn` and the error that belongs to it.
pub data IsEnd {W E : Type 0} (clock : Clock W) (check_fn : Io W E Bool) (deadline : ℕ)
    : W × Result (WaitError E) (Unit {0}) → Type 0 where
  ready : (w w' : W) → check_fn w' ≡ (w, ok true) → IsEnd clock check_fn deadline (w, ok tt)
  failed :
      (w w' : W) (e : E)
      → check_fn w' ≡ (w, err e)
      → IsEnd clock check_fn deadline (w, err (check_failed e))
  late :
      (w w' : W)
      → check_fn w' ≡ (w, ok false)
      → deadline < clock.now w
      → IsEnd clock check_fn deadline (w, err timed_out)

module _ {W E : Type 0} (clock : Clock W) (check_fn : Io W E Bool)
    (check_takes_time : (w : W) → clock.now w ≤ clock.now (check_fn w).0)
    (sleeps : (d : ℕ) (w : W) → clock.now w + d ≤ clock.now (clock.sleep d w)) where
  round-IsEnd :
      (deadline sleep : ℕ) (again : W → W × Result (WaitError E) (Unit {0})) (w : W)
      → ((w' : W)
          → clock.now w ≤ clock.now w'
          → clock.now w' ≤ deadline
          → IsEnd clock check_fn deadline (again (clock.sleep sleep w')))
      → IsEnd clock check_fn deadline (after_check clock deadline sleep again (check_fn w))
  unfolding after_check
  round-IsEnd deadline sleep again w h = round (check_fn w) refl
    where
      round :
          (r : W × Result E Bool)
          → check_fn w ≡ r
          → IsEnd clock check_fn deadline (after_check clock deadline sleep again r)
      round (w', err x) e = failed w' w x e
      round (w', ok true) e = ready w' w e
      round (w', ok false) e =
          let later = subst (λ r. clock.now w ≤ clock.now r.0) e (check_takes_time w) in
          elim (Bool-cases (ltb deadline (clock.now w'))) [
            | inl over ↦ rw over (late w' w e (ground arith))
            | inr under ↦ rw under (h w' later (ground arith))
          ]

  poll-IsEnd :
      (n deadline sleep : ℕ) (w : W)
      → deadline < clock.now w + n * sleep
      → IsEnd clock check_fn deadline (poll clock check_fn (suc n) deadline sleep w)
  unfolding poll
  poll-IsEnd zero deadline sleep w h =
      round-IsEnd deadline sleep _ w (λ w' l e. absurd (omega arith))
  poll-IsEnd (suc m) deadline sleep w h = round-IsEnd deadline sleep _ w (λ w' l e.
      let slept = sleeps sleep w' in
      poll-IsEnd m deadline sleep (clock.sleep sleep w') (grind arith))

  -- The polling ends: it never needs more rounds than the model has, and it ends in one of three
  -- ways. It succeeds where the last call of `checkFn` did, it returns the error of that call, or it
  -- reports a timeout where that call returned false after the deadline. It is stated for a clock
  -- that a call does not turn back, a sleep that lasts as long as it was asked to, and an interval
  -- above 0.
  pub wait_resource-IsEnd :
      (timeout sleep : ℕ) (w : W)
      → 0 < sleep
      → IsEnd clock check_fn (clock.now w + timeout) (wait_resource clock check_fn timeout sleep w)
  unfolding wait_resource
  wait_resource-IsEnd timeout sleep w pos =
      poll-IsEnd (suc (timeout / sleep)) (clock.now w + timeout) sleep w
        (let whole = div_any timeout sleep in let small = mod-lt timeout pos in grind arith)
