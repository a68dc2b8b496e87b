-- ===== src/Vms/Wait.antt =====
-- extensions-controller/internal/common/vmsrest/wait.go: polling. The clock and the resource are
-- arguments; time is in the units of `now`.
pub mod Laws
pub mod Kept
use vast_csi.Prelude.{
  ℕ, zero, suc, ◌+◌, ◌/◌, Bool, true, false, not, Result, ok, err, ltb, if◌then◌else◌,
}
use vast_csi.Prelude.Effects.{Io, ◌>>=◌, done, fail, wrap}

pub data WaitCondition : Type 0 where
  present absent : WaitCondition

pub data WaitError (E : Type 0) : Type 0 where
  timed_out out_of_fuel : WaitError E
  check_failed : E → WaitError E

-- What the code reads of the clock.
pub record Clock (W : Type 0) : Type 0 where
  pub now : W → ℕ
  pub sleep : ℕ → W → W

-- One round of the loop once `checkFn` has returned; `again` is the rest of the loop.
unfoldable pub after_check :
    {W E : Type 0}
    → Clock W
    → ℕ
    → ℕ
    → (W → W × Result (WaitError E) (Unit {0}))
    → W × Result E Bool
    → W × Result (WaitError E) (Unit {0})
after_check clock deadline sleep again (w, err e) = (w, err (check_failed e))
after_check clock deadline sleep again (w, ok true) = (w, ok tt)
after_check clock deadline sleep again (w, ok false) =
    if ltb deadline (clock.now w) then (w, err timed_out) else again (clock.sleep sleep w)

module _ {W E : Type 0} (clock : Clock W) (check_fn : Io W E Bool) where
  -- The loop of `WaitResource`.
  unfoldable pub poll : ℕ → ℕ → ℕ → Io W (WaitError E) (Unit {0})
  poll zero deadline sleep w = (w, err out_of_fuel)
  poll (suc fuel) deadline sleep w =
      after_check clock deadline sleep (poll fuel deadline sleep) (check_fn w)

  -- One round for each `sleep` that fits into the timeout, and two for its ends.
  unfoldable pub wait_resource : ℕ → ℕ → Io W (WaitError E) (Unit {0})
  wait_resource timeout sleep w = poll (suc (suc (timeout / sleep))) (clock.now w + timeout) sleep w

-- The answer of `Exists` against the condition.
abbrev pub meets : WaitCondition → Bool → Bool
meets present exists = exists
meets absent exists = not exists

unfoldable pub wait_for_resource :
    {W E : Type 0} → Clock W → Io W E Bool → WaitCondition → ℕ → ℕ → Io W (WaitError E) (Unit {0})
wait_for_resource clock exists condition timeout sleep =
    wait_resource clock (exists >>= λ found. done (meets condition found)) timeout sleep
