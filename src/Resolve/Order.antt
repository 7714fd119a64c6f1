-- ===== src/Resolve/Order.antt =====
-- What the order promises: dialers first, names apart, and no selectable path left out.
use box_fleet.Base.{
  ◌≡◌, refl, sym, ap, ◌∙◌, Text, same_iff, Bool, true, false, ◌||◌, some, List, [], ◌∷◌, ◌++◌,
  arith, Bool-cases, inl, inr, All, count_rows,
}
use box_fleet.Paths.{has_id}
use box_fleet.Resolve.Sorted.{AreSorted, sort_paths-AreSorted, sort_paths-count}
use box_fleet.Resolve.{
  ResolvedPath, direct, through, hop_of, id_of, sort_paths, Emission, emit, emit_one, emit_all,
  nothing_emitted, names_differ, order_paths,
}

abbrev pub ids : List ResolvedPath → List Text
ids [] = []
ids (r ∷ rs) = id_of r ∷ ids rs

abbrev pub dialer_in : List Text → ResolvedPath → Bool
dialer_in before (direct h) = true
dialer_in before (through h dialer) = has_id (id_of dialer) before

-- Each path's dialer stands before it, or among these.
abbrev pub IsDialersFirst : List Text → List ResolvedPath → Type 0
IsDialersFirst before [] = Unit
IsDialersFirst before (r ∷ rs) =
    (dialer_in before r ≡ true) × IsDialersFirst (before ++ (id_of r ∷ [])) rs

has_id-append : (i : Text) (xs ys : List Text) → has_id i (xs ++ ys) ≡ (has_id i xs || has_id i ys)
unfolding has_id
has_id-append i [] ys = refl
has_id-append i (x ∷ xs) ys = ground (arith, has_id-append i xs ys)

has_id-own : (i : Text) (xs : List Text) → has_id i (i ∷ xs) ≡ true
unfolding has_id
has_id-own i xs = ground (arith, same_iff i i)

append_assoc : (xs ys zs : List Text) → (xs ++ ys) ++ zs ≡ xs ++ (ys ++ zs)
append_assoc [] ys zs = refl
append_assoc (x ∷ xs) ys zs = ap (λ l. x ∷ l) (append_assoc xs ys zs)

append_nil : (xs : List Text) → xs ++ [] ≡ xs
append_nil [] = refl
append_nil (x ∷ xs) = ap (λ l. x ∷ l) (append_nil xs)

IsDialersFirst-append :
    (before : List Text) (rs : List ResolvedPath) (r : ResolvedPath)
    → IsDialersFirst before rs
    → dialer_in (before ++ ids rs) r ≡ true
    → IsDialersFirst before (rs ++ (r ∷ []))
IsDialersFirst-append before [] r h k = (rw (append_nil before) at k, tt)
IsDialersFirst-append before (x ∷ rs) r h k = (
  h.0,
  IsDialersFirst-append (before ++ (id_of x ∷ [])) rs r h.1
      (rw (append_assoc before (id_of x ∷ []) (ids rs)) k),
)

ids-append :
    (rs : List ResolvedPath) (r : ResolvedPath) → ids (rs ++ (r ∷ [])) ≡ ids rs ++ (id_of r ∷ [])
ids-append [] r = refl
ids-append (x ∷ rs) r = ap (λ l. id_of x ∷ l) (ids-append rs r)

-- The two variables agree, and dialers stand first.
record IsEmission (s : Emission) : Type 0 where
  pub agree : (i : Text) → has_id i s.emitted ≡ has_id i (ids s.ordered)
  pub dialers : IsDialersFirst [] s.ordered

dialer_agrees :
    (xs ys : List Text) (r : ResolvedPath)
    → ((i : Text) → has_id i xs ≡ has_id i ys)
    → dialer_in xs r ≡ dialer_in ys r
dialer_agrees xs ys (direct h) e = refl
dialer_agrees xs ys (through h dialer) e = e (id_of dialer)

emit_one-IsEmission :
    (r : ResolvedPath) (s : Emission)
    → IsEmission s
    → dialer_in s.emitted r ≡ true
    → IsEmission (emit_one r s)
unfolding has_id
emit_one-IsEmission r s v h = record {
  agree = λ i.
      rw (ids-append s.ordered r, has_id-append i (ids s.ordered) (id_of r ∷ []))
        (ground (arith, v.agree i));
  dialers =
      IsDialersFirst-append [] s.ordered r v.dialers
        (sym (dialer_agrees s.emitted (ids s.ordered) r v.agree) ∙ h);
}

emit-has : (r : ResolvedPath) (s : Emission) → has_id (id_of r) (emit r s).emitted ≡ true
unfolding emit
emit-has (direct h) s = elim (Bool-cases (has_id h.path_id s.emitted)) [
  | inl hit ↦ rw hit hit
  | inr miss ↦ rw miss (has_id-own h.path_id s.emitted)
]
emit-has (through h dialer) s = elim (Bool-cases (has_id h.path_id s.emitted)) [
  | inl hit ↦ rw hit hit
  | inr miss ↦ rw miss (has_id-own h.path_id (emit dialer s).emitted)
]

emit-IsEmission : (r : ResolvedPath) (s : Emission) → IsEmission s → IsEmission (emit r s)
unfolding emit
emit-IsEmission (direct h) s v = elim (Bool-cases (has_id h.path_id s.emitted)) [
  | inl hit ↦ rw hit v
  | inr miss ↦ rw miss (emit_one-IsEmission (direct h) s v refl)
]
emit-IsEmission (through h dialer) s v = elim (Bool-cases (has_id h.path_id s.emitted)) [
  | inl hit ↦ rw hit v
  | inr miss ↦ rw miss (
      emit_one-IsEmission (through h dialer) (emit dialer s) (emit-IsEmission dialer s v)
        (emit-has dialer s))
]

emit_all-IsEmission :
    (rs : List ResolvedPath) (s : Emission) → IsEmission s → IsEmission (emit_all rs s)
unfolding emit_all
emit_all-IsEmission [] s v = v
emit_all-IsEmission (r ∷ rs) s v = emit_all-IsEmission rs (emit r s) (emit-IsEmission r s v)

emit-keeps :
    (r : ResolvedPath) (s : Emission) (i : Text)
    → has_id i s.emitted ≡ true
    → has_id i (emit r s).emitted ≡ true
unfolding emit has_id
emit-keeps (direct h) s i k = ground arith
emit-keeps (through h dialer) s i k = ground (arith, emit-keeps dialer s i k)

emit_all-keeps :
    (rs : List ResolvedPath) (s : Emission) (i : Text)
    → has_id i s.emitted ≡ true
    → has_id i (emit_all rs s).emitted ≡ true
unfolding emit_all
emit_all-keeps [] s i k = k
emit_all-keeps (r ∷ rs) s i k = emit_all-keeps rs (emit r s) i (emit-keeps r s i k)

emit_all-has :
    (rs : List ResolvedPath) (s : Emission)
    → All (λ r. has_id (id_of r) (emit_all rs s).emitted ≡ true) rs
unfolding emit_all
emit_all-has [] s = tt
emit_all-has (r ∷ rs) s =
    (emit_all-keeps rs (emit r s) (id_of r) (emit-has r s), emit_all-has rs (emit r s))

-- No name is one of those before it, or among these.
abbrev pub AreNamesApart : List Text → List ResolvedPath → Type 0
AreNamesApart seen [] = Unit
AreNamesApart seen (r ∷ rs) =
    (has_id (hop_of r).name seen ≡ false) × AreNamesApart ((hop_of r).name ∷ seen) rs

names_differ-AreNamesApart :
    (seen : List Text) (rs : List ResolvedPath)
    → names_differ seen rs ≡ true
    → AreNamesApart seen rs
unfolding names_differ
names_differ-AreNamesApart seen [] h = tt
names_differ-AreNamesApart seen (r ∷ rs) h =
    (ground arith, names_differ-AreNamesApart ((hop_of r).name ∷ seen) rs (ground arith))

All-agrees :
    (xs ys : List Text) (rs : List ResolvedPath)
    → ((i : Text) → has_id i xs ≡ has_id i ys)
    → All (λ r. has_id (id_of r) xs ≡ true) rs
    → All (λ r. has_id (id_of r) ys ≡ true) rs
All-agrees xs ys [] e a = tt
All-agrees xs ys (r ∷ rs) e a = (sym (e (id_of r)) ∙ a.0, All-agrees xs ys rs e a.1)

-- An order of paths for a profile that is read from the top.
pub record IsProfileOrder (rs selectable ordered : List ResolvedPath) : Type 0 where
  pub dialers : IsDialersFirst [] ordered
  pub names : AreNamesApart [] ordered
  pub all_there : All (λ r. has_id (id_of r) (ids ordered) ≡ true) selectable
  pub sorted : AreSorted selectable
  pub same_items : (q : ResolvedPath → Bool) → count_rows q selectable ≡ count_rows q rs

-- Where ForUser ends without a conflict of names, the selectable paths are those that were resolved,
-- each as often, sorted by their numbers and names; and in the order each path has its dialer before
-- it, no two have one name, and every selectable path is there.
pub order_paths-IsProfileOrder :
    (rs sorted ordered : List ResolvedPath)
    → order_paths rs ≡ some (sorted, ordered)
    → IsProfileOrder rs sorted ordered
unfolding order_paths
order_paths-IsProfileOrder rs sorted ordered h =
    let s = emit_all (sort_paths rs) nothing_emitted in
    let v =
      emit_all-IsEmission (sort_paths rs) nothing_emitted
        (record { agree = λ i. refl; dialers = tt }) in
    elim (Bool-cases (names_differ [] s.ordered)) [
      | inl apart ↦
          let same_sorted : sort_paths rs ≡ sorted = ground arith in
          let same_ordered : s.ordered ≡ ordered = ground arith in
          rw (sym same_sorted, sym same_ordered)
            (record {
              dialers = v.dialers;
              names = names_differ-AreNamesApart [] s.ordered apart;
              all_there =
                  All-agrees s.emitted (ids s.ordered) (sort_paths rs) v.agree
                    (emit_all-has (sort_paths rs) nothing_emitted);
              sorted = sort_paths-AreSorted rs;
              same_items = λ q. sort_paths-count q rs;
            })
      | inr conflict ↦ ground arith
    ]
