-- ===== src/Controller/Remap/Laws.antt =====
-- What the remap table holds.
use vast_csi.Prelude.{
  String, Bool, not, ◌&&◌, ◌||◌, ◌≡◌, refl, sym, ap, ◌∙◌, Option, none, some, List, [], ◌∷◌, Result,
  ok, err, >>=-eq-ok, ok-inj, str_eq, get_str, insert, lookup, lookup-insert, any, arith,
  if◌then◌else◌,
}
use vast_csi.Controller.Remap.{
  Pvc, RemapApi, Table, label_source_pvc, source_of, add_siblings, add_source, siblings_of,
  add_listed, add_primary, add_primaries, build_sibling_remap_table,
}

-- `p` carries the name of the PVC that it mirrors.
abbrev pub is_mirror : Pvc → Bool
is_mirror p = not (str_eq (get_str label_source_pvc p.labels) "")

-- Of the siblings of `p`: a listed PVC other than `p`, and the source that `p` mirrors.
abbrev pub is_sibling : Pvc → List Pvc → String → Bool
is_sibling p siblings claim =
    any (λ s. str_eq s.name claim && not (str_eq s.name p.name)) siblings
    || is_mirror p && str_eq (source_of p) claim

lookup-add_siblings :
    (p : Pvc) (siblings : List Pvc) (table : Table) (claim : String)
    → lookup claim (add_siblings p siblings table) ≡ (
        if any (λ s. str_eq s.name claim && not (str_eq s.name p.name)) siblings
        then some p.name
        else lookup claim table)
unfolding add_siblings
lookup-add_siblings p [] table claim = refl
lookup-add_siblings p (s ∷ siblings) table claim =
    let next = if str_eq s.name p.name then table else insert s.name p.name table in
    ground
      (arith, lookup-add_siblings p siblings next claim, lookup-insert s.name claim p.name table)

lookup-add_source :
    (p : Pvc) (table : Table) (claim : String)
    → lookup claim (add_source p table)
      ≡ (if is_mirror p && str_eq (source_of p) claim then some p.name else lookup claim table)
unfolding add_source
lookup-add_source p table claim = ground (arith, lookup-insert (source_of p) claim p.name table)

abbrev pub or_else : Option String → Option String → Option String
or_else (some v) o = some v
or_else none o = o

pub or_else_assoc : (a b c : Option String) → or_else a (or_else b c) ≡ or_else (or_else a b) c
or_else_assoc none b c = refl
or_else_assoc (some v) b c = refl

pub or_else-none : (a : Option String) → or_else a none ≡ a
or_else-none none = refl
or_else-none (some v) = refl

module _ {W E : Type 0} (api : RemapApi W E) (ns : String) where
  -- The name of the PVC behind the reference, if the claim is one of its siblings.
  abbrev pub claimed_by_listed : Pvc → String → Result E (List Pvc) → Option String
  claimed_by_listed p claim (ok siblings) =
      if is_sibling p siblings claim then some p.name else none
  claimed_by_listed p claim (err e) = none

  abbrev pub claimed_by_pvc : String → Result E Pvc → Option String
  claimed_by_pvc claim (ok p) = claimed_by_listed p claim (siblings_of api ns p)
  claimed_by_pvc claim (err e) = none

  -- The last reference that claims it.
  unfoldable pub primary_for : String → List String → Option String
  primary_for claim [] = none
  primary_for claim (ref ∷ refs) =
      or_else (primary_for claim refs) (claimed_by_pvc claim (api.get_pvc ns ref))

  lookup-add_listed :
      (table next : Table) (p : Pvc) (r : Result E (List Pvc)) (claim : String)
      → add_listed api ns table p r ≡ ok next
      → lookup claim next ≡ or_else (claimed_by_listed p claim r) (lookup claim table)
  unfolding add_listed
  lookup-add_listed table next p (ok siblings) claim h =
      let inner = add_siblings p siblings table in
      ground (
        arith,
        lookup-add_source p inner claim,
        lookup-add_siblings p siblings table claim,
        ap (lookup claim) (ok-inj h),
      )
  lookup-add_listed table next p (err e) claim h = absurd cc

  lookup-add_primary :
      (table next : Table) (ref : String) (r : Result E Pvc) (claim : String)
      → add_primary api ns table ref r ≡ ok next
      → lookup claim next ≡ or_else (claimed_by_pvc claim r) (lookup claim table)
  unfolding add_primary
  lookup-add_primary table next ref (ok p) claim h =
      lookup-add_listed table next p (siblings_of api ns p) claim h
  lookup-add_primary table next ref (err e) claim h = ground arith

  lookup-add_primaries :
      (refs : List String) (start table : Table) (claim : String)
      → add_primaries api ns refs start ≡ ok table
      → lookup claim table ≡ or_else (primary_for claim refs) (lookup claim start)
  unfolding add_primaries primary_for
  lookup-add_primaries [] start table claim h = ap (lookup claim) (sym (ok-inj h))
  lookup-add_primaries (ref ∷ refs) start table claim h =
      let (next, first, rest) =
        >>=-eq-ok (add_primary api ns start ref (api.get_pvc ns ref))
          (λ more. add_primaries api ns refs more) h in
      let here = lookup-add_primary start next ref (api.get_pvc ns ref) claim first in
      lookup-add_primaries refs next table claim rest
      ∙ ap (or_else (primary_for claim refs)) here
      ∙ or_else_assoc (primary_for claim refs) (claimed_by_pvc claim (api.get_pvc ns ref))
          (lookup claim start)

  -- The table that is built sends a claim to the last primary in the list that has it as a sibling: as a
  -- listed mirror of the same source, or as that source. It has no entry for any other claim.
  pub lookup-build_sibling_remap_table :
      (refs : List String) (table : Table) (claim : String)
      → build_sibling_remap_table api ns refs ≡ ok table
      → lookup claim table ≡ primary_for claim refs
  unfolding build_sibling_remap_table lookup
  lookup-build_sibling_remap_table refs table claim h =
      lookup-add_primaries refs [] table claim h ∙ or_else-none (primary_for claim refs)
