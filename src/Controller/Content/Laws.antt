-- ===== src/Controller/Content/Laws.antt =====
-- The objects of a constellation wait for each other.
use vast_csi.Prelude.{
  if◌then◌else◌, String, Bool, true, false, not, ◌&&◌, ◌≡◌, refl, sym, ap, subst, ◌∙◌, Option, none,
  some, List, [], ◌∷◌, All, All-map, arith, str_eq, str_eq_iff, str_eq_refl, Bool-cases, inl, inr,
}
use vast_csi.Controller.Content.{
  Content, Answers, gone, Store, put, parent_is_fully_gone, parent_is_gone_or_terminating,
  all_vcrs_deleted, listed_names, clean, release, release_cleaned, self_destruct, reconcile,
  Reachable, created, reconciled, deleted_elsewhere,
}

abbrev Done : Store → String → Type 0
Done s j = (s j).cleanup_done ≡ true

-- Where an object has lost its finalizer, it is done and so are all others.
abbrev Waited : List String → Store → Type 0
Waited names s = (k : String) → (s k).finalizer ≡ false → Done s k × All (Done s) names

-- A new value for one object, which keeps what was done.
put-Done :
    (name : String) (v : Content) (s : Store)
    → (Done s name → v.cleanup_done ≡ true)
    → (j : String) → Done s j
    → Done (put name v s) j
put-Done name v s h j d = elim (Bool-cases (str_eq name j)) [
  | inl e ↦
      let same = (str_eq_iff name j).0 e in
      let before = subst (λ z. Done s z) (sym same) d in rw e (h before)
  | inr e ↦ rw e d
]

put-finalizer :
    (name : String) (v : Content) (s : Store)
    → v.finalizer ≡ (s name).finalizer
    → (k : String) → (s k).finalizer ≡ (put name v s k).finalizer
put-finalizer name v s f k = elim (Bool-cases (str_eq name k)) [
  | inl e ↦ let same = ap (λ z. (s z).finalizer) ((str_eq_iff name k).0 e) in rw e (sym (f ∙ same))
  | inr e ↦ rw e refl
]

-- It keeps its finalizer.
put-Waited :
    (names : List String) (name : String) (v : Content) (s : Store)
    → (Done s name → v.cleanup_done ≡ true)
    → v.finalizer ≡ (s name).finalizer
    → Waited names s
    → Waited names (put name v s)
put-Waited names name v s h f w k e =
    let before = put-finalizer name v s f k ∙ e in
    let (own, all) = w k before in
    (put-Done name v s h k own, All-map names (put-Done name v s h) all)

all_vcrs_deleted-All :
    (rest names : List String) (name : String) (s : Store)
    → Waited names s
    → Done s name
    → all_vcrs_deleted name s (listed_names s rest) ≡ true
    → All (Done s) rest
unfolding all_vcrs_deleted listed_names
all_vcrs_deleted-All [] names name s w d h = tt
all_vcrs_deleted-All (j ∷ rest) names name s w d h = elim (Bool-cases (s j).finalizer) [
  | inl e ↦
      let all = shown e h in
      let self = λ (q : str_eq j name ≡ true). subst (Done s) (sym ((str_eq_iff j name).0 q)) d in
      let this : Done s j = elim (Bool-cases (str_eq j name)) [
        | inl q ↦ self q
        | inr q ↦ ground arith
      ] in
      (this, all_vcrs_deleted-All rest names name s w d (ground arith))
  | inr e ↦ ((w j e).0, all_vcrs_deleted-All rest names name s w d (hidden e h))
]
  where
    shown :
        (s j).finalizer ≡ true
        → all_vcrs_deleted name s (listed_names s (j ∷ rest)) ≡ true
        → all_vcrs_deleted name s (j ∷ listed_names s rest) ≡ true
    shown e h =
        subst
          (λ b.
            all_vcrs_deleted name s (if b then j ∷ listed_names s rest else listed_names s rest)
            ≡ true)
          e h

    hidden :
        (s j).finalizer ≡ false
        → all_vcrs_deleted name s (listed_names s (j ∷ rest)) ≡ true
        → all_vcrs_deleted name s (listed_names s rest) ≡ true
    hidden e h =
        subst
          (λ b.
            all_vcrs_deleted name s (if b then j ∷ listed_names s rest else listed_names s rest)
            ≡ true)
          e h

clean-keeps :
    (a : Answers) (v v' : Content)
    → clean a v ≡ some v'
    → (v'.cleanup_done ≡ true) × (v'.finalizer ≡ v.finalizer)
unfolding clean
clean-keeps a v v' h = elim (Bool-cases v.cleanup_done) [
  | inl e ↦
      let same : v ≡ v' = ground arith in
      (sym (ap (λ z. z.cleanup_done) same) ∙ e, sym (ap (λ z. z.finalizer) same))
  | inr e ↦ elim (Bool-cases (parent_is_fully_gone a.parent && a.cleaned && a.annotated)) [
    | inl f ↦
        let same : record v { cleanup_done = true } ≡ v' = ground arith in
        (sym (ap (λ z. z.cleanup_done) same), sym (ap (λ z. z.finalizer) same))
    | inr f ↦ absurd (ground arith)
  ]
]

release-Waited :
    (names : List String) (a : Answers) (name : String) (s : Store)
    → Done s name
    → Waited names s
    → Waited names (release names a name s)
unfolding release
release-Waited names a name s d w =
    elim (Bool-cases
      (a.listed && all_vcrs_deleted name s (listed_names s names) && a.finalizer_removed)) [
        | inl e ↦
            let all = all_vcrs_deleted-All names names name s w d (ground arith) in
            let keep = put-Done name (record (s name) { finalizer = false }) s (λ q. q) in
            rw e (λ k f. (keep k (own k f), All-map names keep all))
        | inr e ↦ rw e w
      ]
  where
    own :
        (k : String)
        → (put name (record (s name) { finalizer = false }) s k).finalizer ≡ false
        → Done s k
    own k f = elim (Bool-cases (str_eq name k)) [
      | inl q ↦ subst (Done s) ((str_eq_iff name k).0 q) d
      | inr q ↦ let there : (s k).finalizer ≡ false = ground arith in (w k there).0
    ]

release_cleaned-Waited :
    (names : List String) (a : Answers) (name : String) (s : Store) (o : Option Content)
    → clean a (s name) ≡ o
    → Waited names s
    → Waited names (release_cleaned names a name s o)
unfolding release_cleaned
release_cleaned-Waited names a name s none e w = w
release_cleaned-Waited names a name s (some v) e w =
    let (done, same) = clean-keeps a (s name) v e in
    release-Waited names a name (put name v s) (put_done done)
      (put-Waited names name v s (λ _. done) same w)
  where
    put_done : v.cleanup_done ≡ true → Done (put name v s) name
    put_done done = rw (str_eq_refl name) done

reconcile-Waited :
    (names : List String) (a : Answers) (name : String) (s : Store)
    → Waited names s
    → Waited names (reconcile names a name s)
unfolding reconcile self_destruct
reconcile-Waited names a name s w = either (not (s name).finalizer) s _ w (
    either (not a.owner_found) s _ w (
      either (s name).deleting (release_cleaned names a name s (clean a (s name)))
        (self_destruct a name s) (release_cleaned-Waited names a name s (clean a (s name)) refl w)
        (either (parent_is_gone_or_terminating a.parent && a.deleted)
          (put name (record (s name) { deleting = true }) s) s
          (put-Waited names name (record (s name) { deleting = true }) s (λ q. q) refl w) w)))
  where
    either :
        (b : Bool) (x y : Store)
        → Waited names x
        → Waited names y
        → Waited names (if b then x else y)
    either true x y p q = p
    either false x y p q = q

-- In every store that reconciles lead to, in any order and with any answers, an object of a
-- constellation that has lost its finalizer has done its cleanup, and so has every other object of the
-- constellation. An object that has left the API server counts as one that is not listed any more.
pub Reachable-waits :
    (names : List String) (s : Store) (k : String)
    → Reachable names s
    → (s k).finalizer ≡ false
    → ((s k).cleanup_done ≡ true) × All (λ j. (s j).cleanup_done ≡ true) names
Reachable-waits names s k r = waited r k
  where
    waited : {s : Store} → Reachable names s → Waited names s
    waited (created s f) k e = absurd (ground (arith, f k))
    waited (reconciled a name s r) k e = reconcile-Waited names a name s (waited r) k e
    waited (deleted_elsewhere name s r) k e =
        put-Waited names name (record (s name) { deleting = true }) s (λ q. q) refl (waited r) k e

-- A reconcile that marks an object as cleaned has been told that the parent is gone for good and that
-- the cleanup has succeeded, for an object that is being deleted.
pub reconcile_cleans_last :
    (names : List String) (a : Answers) (name : String) (s : Store)
    → (s name).cleanup_done ≡ false
    → (reconcile names a name s name).cleanup_done ≡ true
    → ((s name).deleting ≡ true) × (a.parent ≡ gone) × (a.cleaned ≡ true)
unfolding reconcile self_destruct release_cleaned clean release parent_is_fully_gone
reconcile_cleans_last names a name s before after = ground (arith, str_eq_refl name)
