-- ===== src/Telemetry/Collect.antt =====
-- What the collector has after the snapshots of one session, from its first snapshot on.
use box_fleet.Base.{
  ℤ, pos, negsuc, ◌≡◌, refl, sym, ap, ◌∙◌, Text, before_irrefl, before_trans, before_total,
  is_empty, Bool, true, false, Option, none, some, List, [], ◌∷◌, arith, max_int, All, inl,
}
use box_fleet.Telemetry.{Bucket, merge, merge_all, merge_start, merge_end, collect, add_bucket}
use box_fleet.Telemetry.Merge.{IsOneOf, merge_all-same, merge_swap, merge_seen}

-- The snapshot of a session with the measures and the window of another: what is left of it is the
-- session itself.
abbrev pub with_measures : Bucket → Bucket → Bucket
with_measures d x = record d {
  connections_opened = x.connections_opened;
  connections_closed = x.connections_closed;
  uplink_bytes = x.uplink_bytes;
  downlink_bytes = x.downlink_bytes;
  duration_ms_total = x.duration_ms_total;
  window_start = x.window_start;
  window_end = x.window_end;
}

-- A snapshot that differs from another in its measures and its window at most.
pub record IsSnapshotOf (d x : Bucket) : Type 0 where
  pub same_session : x ≡ with_measures d x

max_comm : (a b : ℤ) → max_int a b ≡ max_int b a
max_comm (pos a) (pos b) = ground arith
max_comm (pos a) (negsuc b) = refl
max_comm (negsuc a) (pos b) = refl
max_comm (negsuc a) (negsuc b) = ground arith

max_self : (a : ℤ) → max_int a a ≡ a
max_self a = ground arith

end_comm : (a b : Text) → merge_end a b ≡ merge_end b a
end_comm a b = ground (arith, before_total a b, before_trans a b a, before_irrefl a)

start_comm : (a b : Text) → merge_start a b ≡ merge_start b a
start_comm [] [] = refl
start_comm [] (y ∷ b) = refl
start_comm (x ∷ a) [] = refl
start_comm (x ∷ a) (y ∷ b) = ground (
  arith,
  before_total (x ∷ a) (y ∷ b),
  before_trans (x ∷ a) (y ∷ b) (x ∷ a),
  before_irrefl (x ∷ a),
)

merge_own : (x : Bucket) → is_empty x.connection_id ≡ false → merge x x ≡ x
unfolding merge
merge_own x session =
    let start : merge_start x.window_start x.window_start ≡ x.window_start = ground arith in
    let end : merge_end x.window_end x.window_end ≡ x.window_end = ground arith in
    rw
      (
        session,
        max_self x.connections_opened,
        max_self x.connections_closed,
        max_self x.uplink_bytes,
        max_self x.downlink_bytes,
        max_self x.duration_ms_total,
        start,
        end,
      )
      refl

merge_measures :
    (d x y : Bucket)
    → is_empty d.connection_id ≡ false
    → merge (with_measures d x) (with_measures d y) ≡ merge (with_measures d y) (with_measures d x)
unfolding merge
merge_measures d x y session =
    rw
      (
        session,
        max_comm x.connections_opened y.connections_opened,
        max_comm x.connections_closed y.connections_closed,
        max_comm x.uplink_bytes y.uplink_bytes,
        max_comm x.downlink_bytes y.downlink_bytes,
        max_comm x.duration_ms_total y.duration_ms_total,
        start_comm x.window_start y.window_start,
        end_comm x.window_end y.window_end,
      )
      refl

merge_comm :
    (d x y : Bucket)
    → is_empty d.connection_id ≡ false
    → IsSnapshotOf d x
    → IsSnapshotOf d y
    → merge x y ≡ merge y x
merge_comm d x y session v w = rw (v.same_session, w.same_session) (merge_measures d x y session)

snapshot_session :
    (d x : Bucket)
    → is_empty d.connection_id ≡ false
    → IsSnapshotOf d x
    → is_empty x.connection_id ≡ false
snapshot_session d x session v = ap (λ b. is_empty b.connection_id) v.same_session ∙ session

-- A first snapshot that comes back later might as well not have been the first.
merge_all_first :
    (d x y : Bucket) (ys : List Bucket)
    → is_empty d.connection_id ≡ false
    → IsSnapshotOf d x
    → IsSnapshotOf d y
    → IsOneOf x (y ∷ ys)
    → merge_all x (y ∷ ys) ≡ merge_all y ys
unfolding merge_all
merge_all_first d x y ys session v w there =
    let own = snapshot_session d y session w in
    let turned = ap (λ b. merge_all b ys) (merge_comm d x y session v w) in
    let doubled = ap (λ b. merge_all b ys) (merge_swap y y x own) ∙ refl in
    turned
    ∙ (ap (λ b. merge_all (merge b x) ys) (sym (merge_own y own))
        ∙ (doubled
            ∙ (merge_seen y x (y ∷ ys) own there ∙ ap (λ b. merge_all b ys) (merge_own y own))))

merge_all_own :
    (d x : Bucket) (xs : List Bucket)
    → is_empty d.connection_id ≡ false
    → IsSnapshotOf d x
    → merge_all x (x ∷ xs) ≡ merge_all x xs
unfolding merge_all
merge_all_own d x xs session v =
    ap (λ b. merge_all b xs) (merge_own x (snapshot_session d x session v))

collect_known :
    (room : Bool) (b : Bucket) (xs : List Bucket) → collect room (some b) xs ≡ some (merge_all b xs)
unfolding collect merge_all
collect_known room b [] = refl
collect_known room b (x ∷ xs) = collect_known room (merge b x) xs

collect_first : (x : Bucket) (xs : List Bucket) → collect true none (x ∷ xs) ≡ some (merge_all x xs)
unfolding collect add_bucket
collect_first x xs = collect_known true x xs

-- What is there already is of the session.
abbrev pub AreSnapshotsOf : Bucket → List Bucket → Type 0
AreSnapshotsOf d = All (IsSnapshotOf d)

abbrev pub StartsAs : Bucket → Option Bucket → Type 0
StartsAs d none = Unit
StartsAs d (some b) = IsSnapshotOf d b

-- Where the collector has room, two deliveries of the snapshots of a session that hold the same
-- snapshots, in any orders and with any repetitions, leave the same bucket: both after a bucket of
-- the session that is there already, or both after none, so that the first snapshot of each is stored
-- whole.
pub collect-same :
    (d : Bucket) (o : Option Bucket) (xs ys : List Bucket)
    → is_empty d.connection_id ≡ false
    → StartsAs d o
    → AreSnapshotsOf d xs
    → AreSnapshotsOf d ys
    → ((x : Bucket) → IsOneOf x xs → IsOneOf x ys)
    → ((y : Bucket) → IsOneOf y ys → IsOneOf y xs)
    → collect true o xs ≡ collect true o ys
unfolding collect
collect-same d (some b) xs ys session v a c to from =
    collect_known true b xs
    ∙ (ap some (merge_all-same b xs ys (snapshot_session d b session v) to from)
        ∙ sym (collect_known true b ys))
collect-same d none [] [] session v a c to from = refl
collect-same d none [] (y ∷ ys) session v a c to from = elim (from y (inl refl)) [ ]
collect-same d none (x ∷ xs) [] session v a c to from = elim (to x (inl refl)) [ ]
collect-same d none (x ∷ xs) (y ∷ ys) session v a c to from =
    let own = snapshot_session d x session a.0 in
    let around =
      sym (merge_all_own d x xs session a.0)
      ∙ (merge_all-same x (x ∷ xs) (y ∷ ys) own to from
          ∙ merge_all_first d x y ys session a.0 c.0 (to x (inl refl))) in
    collect_first x xs ∙ (ap some around ∙ sym (collect_first y ys))
