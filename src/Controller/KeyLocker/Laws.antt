-- ===== src/Controller/KeyLocker/Laws.antt =====
-- What `KeyLocker` excludes, and what it does not.
use vast_csi.Prelude.{
  ℕ, ◌-◌, if◌then◌else◌, Bool, true, false, ◌≡◌, refl, ap, Option, none, some, List, [], ◌∷◌, ◌==◌,
  arith, Bool-cases, inl, inr,
}
use vast_csi.Controller.KeyLocker.{
  Place, outside, deleting, loaded, counted, holding, released, State, set, start, load, acquire,
  act, step, run, Reachable, at_start, after, is_inside,
}

-- A thread that is inside with a lock owns its mutex.
abbrev Owned : State → Type 0
Owned s = (t l : ℕ) → s.place t ≡ holding l → s.owner l ≡ some t

-- A thread that has moved to another place than inside: the threads inside were there before.
stays :
    (t u l : ℕ) (q : Place) (f : ℕ → Place)
    → is_inside q ≡ false
    → set t q f u ≡ holding l
    → ((t == u) ≡ false) × (f u ≡ holding l)
stays t u l q f n k = elim (Bool-cases (t == u)) [
  | inl e ↦ let there : q ≡ holding l = ground arith in let inside = ap is_inside there in absurd cc
  | inr e ↦ (e, ground arith)
]

load-Owned : (t : ℕ) (o : Option ℕ) (s : State) → Owned s → Owned (load t o s)
unfolding load
load-Owned t (some m) s h u l k = h u l (stays t u l (loaded m) s.place refl k).1
load-Owned t none s h u l k = h u l (stays t u l (loaded s.fresh) s.place refl k).1

acquire-Owned :
    (t m : ℕ) (o : Option ℕ) (s : State) → s.owner m ≡ o → Owned s → Owned (acquire t m o s)
unfolding acquire
acquire-Owned t m (some v) s e h u l k = h u l k
acquire-Owned t m none s e h u l k = elim (Bool-cases (t == u)) [
  | inl same ↦ let mine : holding m ≡ holding l = ground arith in ground arith
  | inr other ↦
      let before : s.place u ≡ holding l = ground arith in let its = h u l before in ground arith
]

leaving_outside : (b : Bool) → is_inside (if b then deleting else outside) ≡ false
leaving_outside true = refl
leaving_outside false = refl

act-Owned : (t : ℕ) (p : Place) (s : State) → s.place t ≡ p → Owned s → Owned (act t p s)
unfolding act
act-Owned t outside s e h u l k = load-Owned t s.slot s h u l k
act-Owned t (loaded m) s e h u l k = h u l (stays t u l (counted m) s.place refl k).1
act-Owned t (counted m) s e h u l k = acquire-Owned t m (s.owner m) s refl h u l k
act-Owned t (holding m) s e h u l k =
    let (other, inside) = stays t u l (released m) s.place refl k in
    let mine = h t m e in let its = h u l inside in ground arith
act-Owned t (released m) s e h u l k =
    h u l
      (stays t u l (if s.ref m - 1 == 0 then deleting else outside) s.place
        (leaving_outside (s.ref m - 1 == 0)) k).1
act-Owned t deleting s e h u l k = h u l (stays t u l outside s.place refl k).1

Reachable-Owned : (s : State) → Reachable s → Owned s
unfolding step
Reachable-Owned s at_start t l k = absurd cc
Reachable-Owned s (after v s' r) t l k =
    act-Owned v (s'.place v) s' refl (Reachable-Owned s' r) t l k

-- In every state that the threads can reach, the thread that is inside with a `refLock` owns its mutex,
-- and no other thread is inside with the same one.
pub Reachable-exclusive :
    (s : State) (t u l : ℕ)
    → Reachable s
    → s.place t ≡ holding l
    → s.place u ≡ holding l
    → (s.owner l ≡ some t) × (t ≡ u)
Reachable-exclusive s t u l r h k =
    let first = Reachable-Owned s r t l h in let second = Reachable-Owned s r u l k in (first, cc)

pub run-Reachable : (ts : List ℕ) (s : State) → Reachable s → Reachable (run ts s)
unfolding run
run-Reachable [] s r = r
run-Reachable (t ∷ ts) s r = run-Reachable ts (step t s) (after t s r)

-- It is not so that in every reachable state at most one thread is inside with the key.
pub key_not_exclusive : ¬ (
    (s : State) (t u : ℕ)
    → Reachable s
    → is_inside (s.place t) ≡ true
    → is_inside (s.place u) ≡ true
    → t ≡ u)
unfolding run step act load acquire
key_not_exclusive h =
    let schedule : List ℕ = 0 ∷ 0 ∷ 0 ∷ 1 ∷ 0 ∷ 0 ∷ 0 ∷ 1 ∷ 1 ∷ 2 ∷ 2 ∷ 2 ∷ [] in
    let same : ◌≡◌ {A = ℕ} 1 2 =
      h (run schedule start) 1 2 (run-Reachable schedule start at_start) refl refl in
    absurd (omega arith)
