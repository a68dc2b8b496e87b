-- ===== src/Scenarios/Locks.antt =====
-- The theorem about `KeyLocker`, on a schedule of two threads.
use vast_csi.Prelude.{ℕ, ◌≡◌, refl, some, List, [], ◌∷◌}
use vast_csi.Controller.KeyLocker.{start, load, acquire, act, step, run, at_start}
use vast_csi.Controller.KeyLocker.Laws.{run-Reachable, Reachable-exclusive}

-- Thread 0 is inside, and thread 1 waits for the same mutex.
abbrev one_waits : List ℕ
one_waits = 0 ∷ 1 ∷ 0 ∷ 1 ∷ 0 ∷ 1 ∷ []

Reachable-exclusive_example : ((run one_waits start).owner 0 ≡ some 0) × ◌≡◌ {A = ℕ} 0 0
unfolding run step act load acquire
Reachable-exclusive_example =
    Reachable-exclusive (run one_waits start) 0 0 0 (run-Reachable one_waits start at_start) refl
      refl
