-- ===== src/Catalog/Pruned.antt =====
-- Pruning keeps the service that each name belongs to.
use box_fleet.Base.{
  ℕ, zero, suc, ◌≤◌, ◌≡◌, refl, sym, ap, ◌∙◌, Text, same, same_iff, Bool, true, false, none, some,
  List, [], ◌∷◌, ◌++◌, map, length, get_key, keep_rows, arith, Bool-cases, Option-cases, inl, inr,
}
use box_fleet.Catalog.Suffix.{label_suffixes}
use box_fleet.Catalog.Write.{Service}
use box_fleet.Catalog.Prune.{
  Owners, nearest_owner, is_needed, parent, owners, pruned, pruned_services, prune_suffixes,
  prune_exacts, is_exact_needed, or_owner, exact_owners, name_owner, first_owner,
  label_suffixes-parent, parent-shorter, scan_owner-first_owner, IsClaimedOnce,
}

abbrev needed_claim : Owners → Text × Text → Bool
needed_claim owner p = is_needed p.1 owner p.0

keep_rows-append :
    (q : Text × Text → Bool) (xs ys : Owners)
    → keep_rows q (xs ++ ys) ≡ keep_rows q xs ++ keep_rows q ys
unfolding keep_rows
keep_rows-append q [] ys = refl
keep_rows-append q (x ∷ xs) ys = elim (Bool-cases (q x)) [
  | inl hit ↦ rw (hit, keep_rows-append q xs ys) refl
  | inr miss ↦ rw (miss, keep_rows-append q xs ys) refl
]

claims-keep_rows :
    (key : Text) (q : Text × Text → Bool) (ds : List Text)
    → map (λ d. (d, key)) (keep_rows (λ d. q (d, key)) ds) ≡ keep_rows q (map (λ d. (d, key)) ds)
unfolding keep_rows
claims-keep_rows key q [] = refl
claims-keep_rows key q (d ∷ ds) = elim (Bool-cases (q (d, key))) [
  | inl hit ↦ rw (hit, claims-keep_rows key q ds) refl
  | inr miss ↦ rw (miss, claims-keep_rows key q ds) refl
]

owners-pruned :
    (owner : Owners) (ss : List Service)
    → owners (map (pruned owner) ss) ≡ keep_rows (needed_claim owner) (owners ss)
unfolding owners keep_rows prune_suffixes
owners-pruned owner [] = refl
owners-pruned owner (s ∷ ss) =
    rw
      (
        keep_rows-append (needed_claim owner) (map (λ d. (d, s.key)) s.suffixes) (owners ss),
        claims-keep_rows s.key (needed_claim owner) s.suffixes,
        owners-pruned owner ss,
      )
      refl

abbrev needed_exact : Owners → Text × Text → Bool
needed_exact owner p = is_exact_needed p.1 owner p.0

exact_owners-pruned :
    (owner : Owners) (ss : List Service)
    → exact_owners (map (pruned owner) ss) ≡ keep_rows (needed_exact owner) (exact_owners ss)
unfolding exact_owners keep_rows prune_exacts
exact_owners-pruned owner [] = refl
exact_owners-pruned owner (s ∷ ss) =
    rw
      (
        keep_rows-append (needed_exact owner) (map (λ d. (d, s.key)) s.exacts) (exact_owners ss),
        claims-keep_rows s.key (needed_exact owner) s.exacts,
        exact_owners-pruned owner ss,
      )
      refl

unclaimed :
    (q : Text × Text → Bool) (d : Text) (m : Owners)
    → get_key d m ≡ none
    → get_key d (keep_rows q m) ≡ none
unfolding get_key keep_rows
unclaimed q d [] h = refl
unclaimed q d ((e, k) ∷ m) h = ground (arith, unclaimed q d m)

claim_kept :
    (q : Text × Text → Bool) (d key : Text) (m : Owners)
    → get_key d m ≡ some key
    → q (d, key) ≡ true
    → get_key d (keep_rows q m) ≡ some key
unfolding get_key keep_rows
claim_kept q d key [] h t = cc
claim_kept q d key ((e, k) ∷ m) h t = elim (Bool-cases (same e d)) [
  | inl hit ↦
      let same_domain : e ≡ d = ground (arith, same_iff e d) in
      let same_key : k ≡ key = ground arith in
      rw (same_domain, same_key, t) (ground (arith, same_iff d d))
  | inr miss ↦ ground (arith, claim_kept q d key m)
]

claim_dropped :
    (q : Text × Text → Bool) (d key : Text) (m : Owners)
    → IsClaimedOnce m
    → get_key d m ≡ some key
    → q (d, key) ≡ false
    → get_key d (keep_rows q m) ≡ none
unfolding get_key keep_rows
claim_dropped q d key [] u h t = refl
claim_dropped q d key ((e, k) ∷ m) u h t = elim (Bool-cases (same e d)) [
  | inl hit ↦
      let same_domain : e ≡ d = ground (arith, same_iff e d) in
      let same_key : k ≡ key = ground arith in
      rw (same_domain, same_key, t) (unclaimed q d m (rw same_domain at u.0))
  | inr miss ↦ ground (arith, claim_dropped q d key m u.1)
]

pruned_above :
    (owner : Owners) (c : ℕ) (t : Text)
    → IsClaimedOnce owner
    → first_owner (keep_rows (needed_claim owner) owner) (label_suffixes (parent (c ∷ t)))
      ≡ first_owner owner (label_suffixes (parent (c ∷ t)))
    → first_owner (keep_rows (needed_claim owner) owner) (label_suffixes (c ∷ t))
      ≡ first_owner owner (label_suffixes (c ∷ t))
unfolding first_owner
pruned_above owner c t u rest =
    let q = needed_claim owner in
    let d = c ∷ t in
    rw (label_suffixes-parent c t, rest)
      (elim (Option-cases (get_key d owner)) [
        | inl gone ↦ rw (gone, unclaimed q d owner gone) refl
        | inr (key, there) ↦ elim (Bool-cases (q (d, key))) [
          | inl kept ↦ rw (there, claim_kept q d key owner there kept) refl
          | inr dropped ↦
              let near : nearest_owner (parent d) owner ≡ key =
                ground (arith, same_iff (nearest_owner (parent d) owner) key) in
              let above =
                scan_owner-first_owner (length (parent d)) (parent d) owner (omega arith) in
              rw (there, claim_dropped q d key owner u there dropped) (sym above ∙ near)
        ]
      ])

pruned_owner :
    (fuel : ℕ) (owner : Owners) (name : Text)
    → IsClaimedOnce owner
    → length name ≤ fuel
    → first_owner (keep_rows (needed_claim owner) owner) (label_suffixes name)
      ≡ first_owner owner (label_suffixes name)
unfolding label_suffixes first_owner
pruned_owner fuel owner [] u h = refl
pruned_owner zero owner (c ∷ t) u h = ground arith
pruned_owner (suc fuel) owner (c ∷ t) u h =
    pruned_above owner c t u
      (pruned_owner fuel owner (parent (c ∷ t)) u (omega (arith, parent-shorter c t)))

nearest_owner-pruned :
    (ss : List Service) (name : Text)
    → IsClaimedOnce (owners ss)
    → nearest_owner name (owners (pruned_services ss)) ≡ nearest_owner name (owners ss)
nearest_owner-pruned ss name u =
    scan_owner-first_owner (length name) name (owners (pruned_services ss)) (omega arith)
    ∙ (ap (λ o. first_owner o (label_suffixes name)) (owners-pruned (owners ss) ss)
        ∙ (pruned_owner (length name) (owners ss) name u (omega arith)
            ∙ sym (scan_owner-first_owner (length name) name (owners ss) (omega arith))))

exact_or_nearest :
    (owner exact : Owners) (name : Text)
    → IsClaimedOnce exact
    → or_owner (get_key name (keep_rows (needed_exact owner) exact)) (nearest_owner name owner)
      ≡ or_owner (get_key name exact) (nearest_owner name owner)
exact_or_nearest owner exact name u =
    let q = needed_exact owner in
    elim (Option-cases (get_key name exact)) [
      | inl gone ↦ rw (gone, unclaimed q name exact gone) refl
      | inr (key, there) ↦ elim (Bool-cases (q (name, key))) [
        | inl kept ↦ rw (there, claim_kept q name key exact there kept) refl
        | inr dropped ↦
            let near : nearest_owner name owner ≡ key =
              ground (arith, same_iff (nearest_owner name owner) key) in
            rw (there, claim_dropped q name key exact u there dropped) near
      ]
    ]

-- The services without the rules that pruneSuffixes and pruneExacts leave out give each name the
-- service that all their rules give it, by an exact rule or by the nearest suffix, if each suffix and
-- each exact domain was claimed by one service once.
pub name_owner-pruned :
    (ss : List Service) (name : Text)
    → IsClaimedOnce (owners ss)
    → IsClaimedOnce (exact_owners ss)
    → name_owner (pruned_services ss) name ≡ name_owner ss name
name_owner-pruned ss name u v =
    rw (nearest_owner-pruned ss name u, exact_owners-pruned (owners ss) ss)
      (exact_or_nearest (owners ss) (exact_owners ss) name v)
