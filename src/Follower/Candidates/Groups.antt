-- ===== src/Follower/Candidates/Groups.antt =====
-- The registrations by main chain key, as
-- toolkit/mainchain-follower/db-sync-follower/src/candidates/mod.rs groups them.
use mathlib.Core.List.{append-nil, append_assoc}
use iagon_network_explorer_n.Prelude.{
  ℕ, ◌≡◌, refl, sym, ap, subst, ◌∙◌, Bytes, bytes_eq, bytes_eq_iff, Bool-cases, inl, inr, true,
  false, ok, >>=-eq-ok, map_err, map_err-eq-ok, ok_inj, List, [], ◌∷◌, ◌++◌, map, All, filter,
  if◌then◌else◌,
}
use iagon_network_explorer_n.Domain.{RegistrationData, CandidateRegistrations}
use iagon_network_explorer_n.Plutus.{PlutusLib}
use iagon_network_explorer_n.Follower.Candidates.{
  data_source_error, Tables, RegisteredCandidate, add_to_group, group_onto,
  get_epoch_of_data_storage, get_registered_candidates, stake_groups, fetch_stakes, get_candidates,
  candidate_registrations,
}

abbrev pub Groups : Type 0
Groups = List (Bytes × List RegistrationData)

unfoldable pub group_of : Bytes → Groups → List RegistrationData
group_of key [] = []
group_of key ((k, registrations) ∷ groups) =
    if bytes_eq k key then registrations else group_of key groups

-- No two groups have the same key.
abbrev pub DistinctKeys : Groups → Type 0
DistinctKeys [] = Unit
DistinctKeys (g ∷ groups) = All (λ h. bytes_eq g.0 h.0 ≡ false) groups × DistinctKeys groups

abbrev with_key : Bytes → RegisteredCandidate → List RegistrationData
with_key key c = if bytes_eq c.mainchain_pub_key key then c.registration ∷ [] else []

bytes_eq_ne : (a b c : Bytes) → bytes_eq a b ≡ true → bytes_eq a c ≡ false → bytes_eq b c ≡ false
bytes_eq_ne a b c h k = subst (λ z. bytes_eq z c ≡ false) ((bytes_eq_iff a b).0 h) k

bytes_eq-absent :
    (a b c : Bytes) → bytes_eq a c ≡ true → bytes_eq a b ≡ false → bytes_eq b c ≡ false
bytes_eq-absent a b c h k = elim (Bool-cases (bytes_eq b c)) [
  | inl e ↦
      let same : a ≡ b = (bytes_eq_iff a c).0 h ∙ sym ((bytes_eq_iff b c).0 e) in
      cc (k, (bytes_eq_iff a b).1 same)
  | inr e ↦ e
]

group_of-add_to_group :
    (key : Bytes) (c : RegisteredCandidate) (groups : Groups)
    → group_of key (add_to_group c groups) ≡ group_of key groups ++ with_key key c
unfolding group_of add_to_group
group_of-add_to_group key c [] = refl
group_of-add_to_group key c ((k, rs) ∷ groups) =
    elim (Bool-cases (bytes_eq k c.mainchain_pub_key)) [
      | inl same ↦ elim (Bool-cases (bytes_eq k key)) [
        | inl e ↦
            let e' : bytes_eq c.mainchain_pub_key key ≡ true =
              subst (λ z. bytes_eq z key ≡ true) ((bytes_eq_iff k c.mainchain_pub_key).0 same) e in
            rw same (rw (e, e'))
        | inr e ↦
            let e' = bytes_eq_ne k c.mainchain_pub_key key same e in
            rw same (rw (e, e') (sym (append-nil (group_of key groups))))
      ]
      | inr other ↦ elim (Bool-cases (bytes_eq k key)) [
        | inl e ↦
            let e' : bytes_eq c.mainchain_pub_key key ≡ false =
              bytes_eq-absent k c.mainchain_pub_key key e other in
            rw other (rw (e, e') (sym (append-nil rs)))
        | inr e ↦ rw other (rw e (group_of-add_to_group key c groups))
      ]
    ]

registrations_with : Bytes → List RegisteredCandidate → List RegistrationData
registrations_with key cs =
    map (λ c. c.registration) (filter (λ c. bytes_eq c.mainchain_pub_key key) cs)

group_of-group_onto :
    (key : Bytes) (groups : Groups) (cs : List RegisteredCandidate)
    → group_of key (group_onto groups cs) ≡ group_of key groups ++ registrations_with key cs
unfolding group_onto registrations_with filter
group_of-group_onto key groups [] = sym (append-nil (group_of key groups))
group_of-group_onto key groups (c ∷ cs) =
    group_of-group_onto key (add_to_group c groups) cs
    ∙ rw (group_of-add_to_group key c groups) (
        append_assoc (group_of key groups) (with_key key c) (registrations_with key cs)
        ∙ ap (λ z. group_of key groups ++ z)
            (elim (Bool-cases (bytes_eq c.mainchain_pub_key key)) [ inl e ↦ rw e | inr e ↦ rw e ]))

add_to_group-other :
    (k : Bytes) (c : RegisteredCandidate) (groups : Groups)
    → bytes_eq k c.mainchain_pub_key ≡ false
    → All (λ h. bytes_eq k h.0 ≡ false) groups
    → All (λ h. bytes_eq k h.0 ≡ false) (add_to_group c groups)
unfolding add_to_group
add_to_group-other k c [] ne all = (ne, tt)
add_to_group-other k c ((q, rs) ∷ groups) ne all =
    elim (Bool-cases (bytes_eq q c.mainchain_pub_key)) [
      | inl e ↦ rw e all
      | inr e ↦ rw e (all.0, add_to_group-other k c groups ne all.1)
    ]

add_to_group-DistinctKeys :
    (c : RegisteredCandidate) (groups : Groups)
    → DistinctKeys groups
    → DistinctKeys (add_to_group c groups)
unfolding add_to_group
add_to_group-DistinctKeys c [] d = (tt, tt)
add_to_group-DistinctKeys c ((q, rs) ∷ groups) d =
    elim (Bool-cases (bytes_eq q c.mainchain_pub_key)) [
      | inl e ↦ rw e d
      | inr e ↦ rw e (add_to_group-other q c groups e d.0, add_to_group-DistinctKeys c groups d.1)
    ]

group_onto-DistinctKeys :
    (groups : Groups) (cs : List RegisteredCandidate)
    → DistinctKeys groups
    → DistinctKeys (group_onto groups cs)
unfolding group_onto
group_onto-DistinctKeys groups [] d = d
group_onto-DistinctKeys groups (c ∷ cs) d =
    group_onto-DistinctKeys (add_to_group c groups) cs (add_to_group-DistinctKeys c groups d)

-- The groups that an answer holds.
abbrev pub groups_in : List CandidateRegistrations → Groups
groups_in = map (λ c. (c.mainchain_pub_key, c.registrations))

groups_in-candidate_registrations :
    (from_vkey : Bytes → Bytes) (stake_map : List (Bytes × ℕ)) (groups : Groups)
    → groups_in (candidate_registrations from_vkey stake_map groups) ≡ groups
unfolding candidate_registrations
groups_in-candidate_registrations from_vkey stake_map [] = refl
groups_in-candidate_registrations from_vkey stake_map (g ∷ groups) =
    ap (◌∷◌ g) (groups_in-candidate_registrations from_vkey stake_map groups)

-- The answer has each main chain key once, with all the registrations of the key that are read, in
-- the order in which they are read.
pub get_candidates-group_of :
    (p : PlutusLib) (from_vkey : Bytes → Bytes) (t : Tables (p.PlutusData)) (for_epoch epoch : ℕ)
    (address key : Bytes) (rs : List RegisteredCandidate) (cs : List CandidateRegistrations)
    → get_epoch_of_data_storage for_epoch ≡ ok epoch
    → get_registered_candidates p from_vkey t epoch address ≡ ok rs
    → get_candidates p from_vkey t for_epoch address ≡ ok cs
    → DistinctKeys (groups_in cs)
      × (group_of key (groups_in cs)
          ≡ map (λ c. c.registration) (filter (λ c. bytes_eq c.mainchain_pub_key key) rs))
unfolding get_candidates registrations_with group_of
get_candidates-group_of p from_vkey t for_epoch epoch address key rs cs he hr h =
    let (e, p₁, h₁) = >>=-eq-ok _ _ h in
    let (candidates, p₂, h₂) = >>=-eq-ok _ _ h₁ in
    let (stake_map, p₃, h₃) =
      >>=-eq-ok (map_err data_source_error (fetch_stakes (stake_groups e t.stakes)))
        (λ m. ok (candidate_registrations from_vkey m (group_onto [] candidates))) h₂ in
    let same_epoch : epoch ≡ e = ok_inj (sym he ∙ (map_err-eq-ok _ _ _).0 p₁) in
    let same : rs ≡ candidates = ok_inj (
      sym hr
      ∙ ap (λ z. get_registered_candidates p from_vkey t z address) same_epoch
      ∙ (map_err-eq-ok _ _ _).0 p₂) in
    let groups : groups_in cs ≡ group_onto [] rs =
      ap groups_in (sym (ok_inj h₃))
      ∙ groups_in-candidate_registrations from_vkey stake_map (group_onto [] candidates)
      ∙ ap (group_onto []) (sym same) in
    rw groups (group_onto-DistinctKeys [] rs tt, group_of-group_onto key [] rs)
