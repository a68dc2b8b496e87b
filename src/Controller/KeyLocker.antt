-- ===== src/Controller/KeyLocker.antt =====
-- extensions-controller/internal/controller/key_locker.go: `Lock` and the function that it returns, one
-- atomic action at a time, for one key. A thread is a number, and so is a `refLock`: its address.
pub mod Laws
use vast_csi.Prelude.{
  ℕ, suc, ◌+◌, ◌-◌, Bool, true, false, Option, none, some, List, [], ◌∷◌, ◌==◌, if◌then◌else◌,
}

-- Where a thread is, with the lock that it has loaded.
pub data Place : Type 0 where
  outside deleting : Place
  loaded counted holding released : ℕ → Place

-- `slot` is the key's entry in `locks`; `ref` and `owner` are those of each lock; `fresh` is the address
-- of the next one. A counter is an int32, which no run here brings near its bounds.
pub record State : Type 0 where
  pub slot : Option ℕ
  pub fresh : ℕ
  pub ref : ℕ → ℕ
  pub owner : ℕ → Option ℕ
  pub place : ℕ → Place

abbrev pub set {ℓ} : {A : Type ℓ} → ℕ → A → (ℕ → A) → ℕ → A
set k v f j = if k == j then v else f j

abbrev pub start : State
start = record { slot = none; fresh = 0; ref = λ l. 0; owner = λ l. none; place = λ t. outside }

-- `LoadOrStore`: the lock in the map, or a new one.
unfoldable pub load : ℕ → Option ℕ → State → State
load t (some l) s = record s { place = set t (loaded l) s.place }
load t none s = record s {
  slot = some s.fresh;
  fresh = suc s.fresh;
  place = set t (loaded s.fresh) s.place;
}

-- `lock.mu.Lock()`: nothing happens while the mutex is taken.
unfoldable pub acquire : ℕ → ℕ → Option ℕ → State → State
acquire t l (some u) s = s
acquire t l none s = record s { owner = set l (some t) s.owner; place = set t (holding l) s.place }

-- The next action of thread `t`, by where it is.
unfoldable pub act : ℕ → Place → State → State
act t outside s = load t s.slot s
act t (loaded l) s = record s { ref = set l (s.ref l + 1) s.ref; place = set t (counted l) s.place }
act t (counted l) s = acquire t l (s.owner l) s
act t (holding l) s = record s { owner = set l none s.owner; place = set t (released l) s.place }
act t (released l) s = record s {
  ref = set l (s.ref l - 1) s.ref;
  place = set t (if s.ref l - 1 == 0 then deleting else outside) s.place;
}
act t deleting s = record s { slot = none; place = set t outside s.place }

unfoldable pub step : ℕ → State → State
step t s = act t (s.place t) s

-- The threads act in the order of the list.
unfoldable pub run : List ℕ → State → State
run [] s = s
run (t ∷ ts) s = run ts (step t s)

-- The states that some schedule leads to.
pub data Reachable : State → Type 0 where
  at_start : Reachable start
  after : (t : ℕ) (s : State) → Reachable s → Reachable (step t s)

-- The thread is between `Lock` and the function that it returned.
abbrev pub is_inside : Place → Bool
is_inside outside = false
is_inside deleting = false
is_inside (loaded l) = false
is_inside (counted l) = false
is_inside (holding l) = true
is_inside (released l) = false
