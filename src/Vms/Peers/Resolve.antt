-- ===== src/Vms/Peers/Resolve.antt =====
-- What `ResolvePeerName` decides, in terms of the sets of names on the two clusters.
use vast_csi.Prelude.{
  String, true, ◌&&◌, ◌≡◌, refl, sym, ap, subst, ◌∙◌, ◌≢◌, ◌↔◌, some, List, [], ◌∷◌, ok, arith,
  str_eq, str_eq_iff, str_eq_refl, has, IsDistinct, has-keep_if, keep_if-IsDistinct,
  singleton_of_has, has-sort_strings, sort_strings-IsDistinct, lookup, Bool-cases, inl, inr,
}
use vast_csi.Spec.Types.{ReplicationTarget}
use vast_csi.Vms.Peers.{PeerNamesBySc, shared_names, discover_peer, choose_peer, resolve_peer_name}

pub has-shared_names :
    (k : String) (src dst : List String) → has k (shared_names src dst) ≡ (has k src && has k dst)
unfolding shared_names
has-shared_names k src dst = has-sort_strings k _ ∙ has-keep_if (λ name. has name dst) k src

shared_names-IsDistinct :
    (src dst : List String) → IsDistinct src → IsDistinct (shared_names src dst)
unfolding shared_names
shared_names-IsDistinct src dst d =
    sort_strings-IsDistinct _ (keep_if-IsDistinct (λ name. has name dst) src d)

-- `t'` is the entry `t` with the peer that the two clusters share.
pub record IsResolved (t t' : ReplicationTarget) (src dst : List String) : Type 0 where
  pub same_entry : t' ≡ record t { peer_name = t'.peer_name }
  pub on_source : has t'.peer_name src ≡ true
  pub on_destination : has t'.peer_name dst ≡ true
  -- A peer that the user named stays.
  pub explicit : t.peer_name ≢ "" → t'.peer_name ≡ t.peer_name
  -- A discovered one is the only peer that both clusters have.
  pub unique :
      t.peer_name ≡ "" → (k : String) → has k src ≡ true → has k dst ≡ true → k ≡ t'.peer_name

discover_peer_iff :
    (t t' : ReplicationTarget) (s : List String)
    → (discover_peer t s ≡ ok t')
      ↔ ((s ≡ t'.peer_name ∷ []) × (t' ≡ record t { peer_name = t'.peer_name }))
unfolding discover_peer
discover_peer_iff t t' [] = (λ h. cc, λ h. cc)
discover_peer_iff t t' (n ∷ []) = (
  λ h.
      let e : record t { peer_name = n } ≡ t' = cc in
      let name : n ≡ t'.peer_name = ap (λ x. x.peer_name) e in
      (ap (λ z. z ∷ []) name, sym e ∙ ap (λ z. record t { peer_name = z }) name),
  λ (a, b).
      let name : n ≡ t'.peer_name = cc in ap ok (ap (λ z. record t { peer_name = z }) name ∙ sym b),
)
discover_peer_iff t t' (n ∷ m ∷ s) = (λ h. cc, λ h. cc)

has-singleton : (x k : String) → has k (x ∷ []) ≡ str_eq x k
unfolding has
has-singleton x k = ground arith

module _ (t t' : ReplicationTarget) (src dst : List String) (distinct : IsDistinct src) where
  choose_peer_sound : choose_peer t (shared_names src dst) ≡ ok t' → IsResolved t t' src dst
  unfolding choose_peer
  choose_peer_sound h = elim (Bool-cases (str_eq t.peer_name "")) [
    | inl e ↦
        let (single, same) = (discover_peer_iff t t' (shared_names src dst)).0 (ground arith) in
        let member : (k : String) → (has k src && has k dst) ≡ str_eq t'.peer_name k = λ k.
          sym (has-shared_names k src dst) ∙ ap (has k) single ∙ has-singleton t'.peer_name k in
        let both = member t'.peer_name ∙ str_eq_refl t'.peer_name in
        record {
          same_entry = same;
          on_source = ground arith;
          on_destination = ground arith;
          explicit = λ n. absurd (n ((str_eq_iff t.peer_name "").0 e));
          unique = λ _ k s d. sym ((str_eq_iff t'.peer_name k).0 (sym (member k) ∙ ground arith));
        }
    | inr e ↦
        let kept : t ≡ t' = ground arith in
        let both = has-shared_names t.peer_name src dst in
        let on_both : (has t.peer_name src ≡ true) × (has t.peer_name dst ≡ true) =
          (ground arith, ground arith) in
        record {
          same_entry = subst (λ x. x ≡ record t { peer_name = x.peer_name }) kept refl;
          on_source = subst (λ x. has x.peer_name src ≡ true) kept on_both.0;
          on_destination = subst (λ x. has x.peer_name dst ≡ true) kept on_both.1;
          explicit = λ _. sym (ap (λ x. x.peer_name) kept);
          unique = λ n. ground (arith, str_eq_iff t.peer_name "");
        }
  ]

  choose_peer_complete : IsResolved t t' src dst → choose_peer t (shared_names src dst) ≡ ok t'
  unfolding choose_peer
  choose_peer_complete h = elim (Bool-cases (str_eq t.peer_name "")) [
    | inl e ↦
        let none_named = (str_eq_iff t.peer_name "").0 e in
        let single : shared_names src dst ≡ t'.peer_name ∷ [] =
          singleton_of_has t'.peer_name _ (shared_names-IsDistinct src dst distinct)
            (λ k m.
              let both = has-shared_names k src dst in
              h.unique none_named k (ground arith) (ground arith))
            (has-shared_names t'.peer_name src dst ∙ ground arith) in
        let found = (discover_peer_iff t t' (shared_names src dst)).1 (single, h.same_entry) in
        ground arith
    | inr e ↦
        let name = h.explicit (λ n. ground (arith, str_eq_iff t.peer_name "")) in
        let kept : t' ≡ t = h.same_entry ∙ ap (λ z. record t { peer_name = z }) name in
        let member : has t.peer_name (shared_names src dst) ≡ true =
          subst (λ z. has z (shared_names src dst) ≡ true) name
            (has-shared_names t'.peer_name src dst ∙ ground arith) in
        ground arith
  ]

-- `ResolvePeerName` gives an entry a peer exactly when both clusters have it, it is the one that the
-- user named if there is one, and otherwise no other peer is on both clusters. Nothing else of the
-- entry changes. It is stated where both clusters have been asked.
pub resolve_peer_name_iff :
    (t t' : ReplicationTarget) (peers_by_sc : PeerNamesBySc) (src dst : List String)
    → IsDistinct src
    → lookup t.source peers_by_sc ≡ some src
    → lookup t.destination peers_by_sc ≡ some dst
    → (resolve_peer_name t peers_by_sc ≡ ok t') ↔ IsResolved t t' src dst
unfolding resolve_peer_name
resolve_peer_name_iff t t' peers_by_sc src dst d s e = (
  λ h. choose_peer_sound t t' src dst d (ground arith),
  λ h. let found = choose_peer_complete t t' src dst d h in ground arith,
)
