-- ===== src/Spec/Validation/Pairs.antt =====
-- Unordered pairs, and what the loop over the topology has collected when it ends.
use vast_csi.Prelude.{
  ℕ, suc, String, Bool, true, false, ◌&&◌, ◌||◌, ◌≡◌, refl, ◌∙◌, ◌≢◌, ◌↔◌, List, [], ◌∷◌, ok, arith,
  any, is_ok, str_eq_comm, All, str_eq, str_eq_iff, str_lt_total, str_lt_asym, add,
}
use vast_csi.Spec.Types.{ReplicationTarget}
use vast_csi.Spec.Classes.{collect_classes}
use vast_csi.Spec.Validation.{UnorderedPair, norm_pair, pair_eq, has_pair, check_entries}

-- The entry connects `a` and `b`, in either direction.
abbrev pub joins : String → String → ReplicationTarget → Bool
joins a b t =
    str_eq t.source a && str_eq t.destination b || str_eq t.source b && str_eq t.destination a

pair_eq-lem :
    (a b c d : String)
    → pair_eq (norm_pair c d) (norm_pair a b)
      ≡ (str_eq c a && str_eq d b || str_eq c b && str_eq d a)
unfolding norm_pair
pair_eq-lem a b c d = ground (
  arith,
  str_eq_iff c a,
  str_eq_iff d b,
  str_eq_iff c b,
  str_eq_iff d a,
  str_eq_iff a b,
  str_lt_total a b,
  str_lt_asym a b,
)

-- Normalised pairs are equal exactly when the entry connects the two names.
pub pair_eq-norm_pair :
    (a b : String) (t : ReplicationTarget)
    → pair_eq (norm_pair t.source t.destination) (norm_pair a b) ≡ joins a b t
pair_eq-norm_pair a b t = pair_eq-lem a b t.source t.destination

-- No two entries connect the same StorageClasses, and every entry has two different, named ends.
abbrev pub IsProperTopology : List ReplicationTarget → Type 0
IsProperTopology [] = Unit
IsProperTopology (t ∷ ts) =
    (t.source ≢ "")
    × (t.destination ≢ "")
    × (t.source ≢ t.destination)
    × (any (joins t.source t.destination) ts ≡ false)
    × IsProperTopology ts

-- The pairs of these entries are not among those seen before.
abbrev pub IsFresh : List UnorderedPair → List ReplicationTarget → Type 0
IsFresh seen ts = All (λ t. has_pair (norm_pair t.source t.destination) seen ≡ false) ts

pair_eq-joins :
    (t u : ReplicationTarget)
    → pair_eq (norm_pair t.source t.destination) (norm_pair u.source u.destination)
      ≡ joins t.source t.destination u
pair_eq-joins t u = ground (
  arith,
  pair_eq-norm_pair u.source u.destination t,
  str_eq_comm u.source t.source,
  str_eq_comm u.source t.destination,
  str_eq_comm u.destination t.source,
  str_eq_comm u.destination t.destination,
)

-- Freshness for one more pair is freshness before, and that no entry repeats that pair.
IsFresh-cons :
    (t : ReplicationTarget) (seen : List UnorderedPair) (ts : List ReplicationTarget)
    → IsFresh (norm_pair t.source t.destination ∷ seen) ts
      ↔ (IsFresh seen ts × (any (joins t.source t.destination) ts ≡ false))
unfolding has_pair
IsFresh-cons t seen [] = (λ _. (tt, refl), λ _. tt)
IsFresh-cons t seen (u ∷ us) =
    let (to, from) = IsFresh-cons t seen us in
    let same = pair_eq-joins t u in
    (
      λ (h, hs). let (f, n) = to hs in ((ground arith, f), ground arith),
      λ ((f, fs), n). let hs = from (fs, ground arith) in (ground arith, hs),
    )

-- The loop succeeds exactly when the entries are proper and repeat no pair seen before.
pub check_entries_iff :
    (i : ℕ) (seen : List UnorderedPair) (classes : List String) (ts : List ReplicationTarget)
    → (is_ok (check_entries i seen classes ts) ≡ true) ↔ (IsProperTopology ts × IsFresh seen ts)
unfolding check_entries
check_entries_iff i seen classes [] = (λ _. (tt, tt), λ _. refl)
check_entries_iff i seen classes (t ∷ ts) =
    let (to, from) =
      check_entries_iff (suc i) (norm_pair t.source t.destination ∷ seen)
        (add t.destination (add t.source classes)) ts in
    let (split, join) = IsFresh-cons t seen ts in
    let source_named = str_eq_iff t.source "" in
    let destination_named = str_eq_iff t.destination "" in
    let ends_differ = str_eq_iff t.source t.destination in
    (
      λ h.
          let (proper, fresh) = to (ground arith) in
          let (fresh', single) = split fresh in
          ((ground arith, ground arith, ground arith, single, proper), (ground arith, fresh')),
      λ ((s, d, n, single, proper), (f, fs)).
          let rest = from (proper, join (fs, single)) in ground arith,
    )

has_pair-entry :
    (a b : String) (t : ReplicationTarget) (seen : List UnorderedPair) (later : Bool)
    → (has_pair (norm_pair a b) (norm_pair t.source t.destination ∷ seen) || later)
      ≡ (has_pair (norm_pair a b) seen || (joins a b t || later))
unfolding has_pair
has_pair-entry a b t seen later = ground (arith, pair_eq-norm_pair a b t)

-- What a successful loop has collected: the StorageClasses, and a pair for each entry.
pub check_entries-found :
    (i : ℕ) (seen : List UnorderedPair) (classes : List String) (ts : List ReplicationTarget)
    (r : List UnorderedPair × List String)
    → check_entries i seen classes ts ≡ ok r
    → (r.1 ≡ collect_classes classes ts)
      × ((a b : String)
          → has_pair (norm_pair a b) r.0 ≡ (has_pair (norm_pair a b) seen || any (joins a b) ts))
unfolding check_entries collect_classes
check_entries-found i seen classes [] r h = (ground arith, λ a b. ground arith)
check_entries-found i seen classes (t ∷ ts) r h =
    let (classes_found, pairs_found) =
      check_entries-found (suc i) (norm_pair t.source t.destination ∷ seen)
        (add t.destination (add t.source classes)) ts r (ground arith) in
    (classes_found, λ a b. pairs_found a b ∙ has_pair-entry a b t seen (any (joins a b) ts))
