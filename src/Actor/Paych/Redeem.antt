-- ===== src/Actor/Paych/Redeem.antt =====
-- What the redemption of a voucher does to the lanes and the amounts of a channel.
use mathlib.Core.Path.{subst}
use forest.Base.{
  ℕ, ◌≤◌, ◌<◌, ◌≡◌, ◌≢◌, ◌⊎◌, refl, ap, sym, ◌∙◌, inl, inr, false, List, [], ◌∷◌, Option, none,
  some, arith, ◌==◌, ==_iff, leb, ltb, Bool-cases,
}
use forest.Base.Int.{ℤ, pos, ◌+ℤ◌, ◌-ℤ◌, ◌≤ℤ◌, ltb_ℤ, eqb_ℤ}
use forest.Actor.Error.{ok, or_fail, actor_error, illegal_argument, pure, lift}
use forest.Actor.Map
use forest.Actor.Map.{Map, nat_eq, get-set}
use forest.Actor.Inversion.{>>=-eq-ok, guard_ok, lift_ok, or_fail_ok, ok_inj, put_state_ok}
use forest.Actor.Paych.Defs.{
  LaneState, Merge, State, SignedVoucher, Merging, find_lane, open_lane, merge_lane, merge_lanes,
  redeem, delayed, raised, max_lane,
}

-- Every lane of the first map is in the second, with a nonce at least as high; and the lane `kept` is
-- the same in both.
pub record Advanced (kept : ℕ) (old new : Map ℕ LaneState) : Type 0 where
  pub lanes :
      (l : ℕ) (a : LaneState)
      → Map.get l old ≡ some a
      → (b : LaneState) × (Map.get l new ≡ some b) × (a.nonce ≤ b.nonce)
  pub same : Map.get kept new ≡ Map.get kept old

-- The amounts that the merged lanes had redeemed, in the order of the merges.
abbrev pub Merged : Map ℕ LaneState → List Merge → ℤ → ℤ → Type 0
Merged lanes [] start end = start ≡ end
Merged lanes (m ∷ ms) start end =
    (other : LaneState) × (m.lane ≤ max_lane)
    × (Map.get m.lane lanes ≡ some other)
    × (other.nonce < m.nonce)
    × Merged (Map.set m.lane (record other { nonce = m.nonce }) lanes) ms (start +ℤ other.redeemed)
        end

find_lane_ok :
    (ls : Map ℕ LaneState) (id : ℕ) {o : Option LaneState}
    → find_lane ls id ≡ ok o
    → (id ≤ max_lane) × (Map.get id ls ≡ o)
find_lane_ok ls id h = elim (Bool-cases (ltb max_lane id)) [
  | inl big ↦ absurd (ground arith)
  | inr small ↦ (ground arith, ground arith)
]

merge_lane_ok :
    (lane : ℕ) (m : Merge) (s s' : Merging) {u : Unit {0}}
    → merge_lane lane m s ≡ ok (u, s')
    → ((m.lane == lane) ≡ false)
      × (other : LaneState) × (m.lane ≤ max_lane)
      × (Map.get m.lane s.lanes ≡ some other)
      × (other.nonce < m.nonce)
      × (s' ≡ record {
        redeemed = s.redeemed +ℤ other.redeemed;
        lanes = Map.set m.lane (record other { nonce = m.nonce }) s.lanes;
      })
unfolding merge_lane
merge_lane_ok lane m s s' h =
    let (own, h1) = guard_ok (m.lane == lane) illegal_argument _ s h in
    let (found, s1, p, h2) = >>=-eq-ok (lift (find_lane s.lanes m.lane)) _ s h1 in
    let (q, same) = lift_ok (find_lane s.lanes m.lane) s p in
    let (other, s2, r, h3) =
      >>=-eq-ok (lift (or_fail found (actor_error illegal_argument))) _ s1 h2 in
    let (t, same') = lift_ok (or_fail found (actor_error illegal_argument)) s1 r in
    let (fresh, h4) = guard_ok (leb m.nonce other.nonce) illegal_argument _ s2 h3 in
    let e = or_fail_ok found (actor_error illegal_argument) t in
    let (small, there) = find_lane_ok s.lanes m.lane q in
    (own, other, small, there ∙ e, ground arith, put_state_ok _ s2 h4)

Advanced-refl : (kept : ℕ) (m : Map ℕ LaneState) → Advanced kept m m
Advanced-refl kept m = record { lanes = λ l a h. (a, h, omega arith); same = refl }

Advanced-trans :
    (kept : ℕ) (x y z : Map ℕ LaneState) → Advanced kept x y → Advanced kept y z → Advanced kept x z
Advanced-trans kept x y z p q = record {
  lanes = λ l a h.
      let (b, e, k) = p.lanes l a h in let (c, f, n) = q.lanes l b e in (c, f, omega arith);
  same = q.same ∙ p.same;
}

-- A lane that gets a higher nonce.
set_lane :
    (lane l : ℕ) (old new a : LaneState) (m : Map ℕ LaneState)
    → Map.get lane m ≡ some old
    → old.nonce < new.nonce
    → Map.get l m ≡ some a
    → (b : LaneState) × (Map.get l (Map.set lane new m) ≡ some b) × (a.nonce ≤ b.nonce)
set_lane lane l old new a m e k h = elim (Bool-cases (lane == l)) [
  | inl same ↦
      let i : Map.get l m ≡ some old =
        subst (λ x. Map.get x m ≡ some old) ((==_iff lane l).0 same) e in
      let j : a ≡ old = cc in
      (new, get-set lane l new m ∙ ground arith, omega (arith, ap (λ x. x.nonce) j))
  | inr other ↦ (a, get-set lane l new m ∙ ground arith, omega arith)
]

merge_lane-Advanced :
    (kept lane : ℕ) (old new : LaneState) (m : Map ℕ LaneState)
    → (lane == kept) ≡ false
    → Map.get lane m ≡ some old
    → old.nonce < new.nonce
    → Advanced kept m (Map.set lane new m)
merge_lane-Advanced kept lane old new m d e k = record {
  lanes = λ l a h. set_lane lane l old new a m e k h;
  same = get-set lane kept new m ∙ ground arith;
}

merge_lanes_ok :
    (lane : ℕ) (ms : List Merge) (s s' : Merging) {u : Unit {0}}
    → merge_lanes lane ms s ≡ ok (u, s')
    → Merged s.lanes ms s.redeemed s'.redeemed × Advanced lane s.lanes s'.lanes
unfolding merge_lanes
merge_lanes_ok lane [] s s' {u} h =
    let e = ap (λ r. r.1) (ok_inj (tt, s) (u, s') h) in
    (
      ap (λ x. x.redeemed) e,
      subst (λ x. Advanced lane s.lanes x.lanes) e (Advanced-refl lane s.lanes),
    )
merge_lanes_ok lane (m ∷ ms) s s' h =
    let (v, s1, p, q) = >>=-eq-ok (merge_lane lane m) _ s h in
    let (own, other, small, found, newer, e) = merge_lane_ok lane m s s1 p in
    let (x, y) = merge_lanes_ok lane ms s1 s' q in
    let step =
      merge_lane-Advanced lane m.lane other (record other { nonce = m.nonce }) s.lanes own found
        newer in
    (
      (other, small, found, newer, subst (λ r. Merged r.lanes ms r.redeemed s'.redeemed) e x),
      Advanced-trans lane s.lanes s1.lanes s'.lanes
          (subst (λ r. Advanced lane s.lanes r.lanes) (sym e) step) y,
    )

-- What a lane had redeemed, and that a nonce is new for it.
abbrev pub Opened : ℕ → Option LaneState → ℤ → Type 0
Opened nonce none redeemed = redeemed ≡ pos 0
Opened nonce (some a) redeemed = (a.nonce < nonce) × (redeemed ≡ a.redeemed)

open_lane_ok :
    {T : Type 0} (sv : SignedVoucher) (o : Option LaneState) (s : T) (a : LaneState) (s' : T)
    → open_lane sv o s ≡ ok (a, s')
    → Opened sv.nonce o a.redeemed
open_lane_ok sv none s a s' h =
    ap (λ r. r.0.redeemed) (sym (ok_inj (record { redeemed = pos 0; nonce = 0 }, s) (a, s') h))
open_lane_ok sv (some x) s a s' h =
    let (newer, h1) = guard_ok (leb sv.nonce x.nonce) illegal_argument (pure x) s h in
    (ground arith, ap (λ r. r.0.redeemed) (sym (ok_inj (x, s) (a, s') h1)))

-- `new` is the later of a voucher's height and what the channel had; a voucher that gives none is zero.
abbrev pub IsRaised : ℤ → ℤ → ℤ → Type 0
IsRaised height old new =
    ((height ≡ pos 0) × (new ≡ old))
    ⊎ ((height ≢ pos 0) × (old ≤ℤ new) × (height ≤ℤ new) × ((new ≡ old) ⊎ (new ≡ height)))

-- The same for the settling epoch, which stays zero where the channel does not settle.
abbrev pub IsDelayed : ℤ → ℤ → ℤ → Type 0
IsDelayed height old new =
    ((old ≡ pos 0) × (new ≡ pos 0)) ⊎ ((old ≢ pos 0) × IsRaised height old new)

raised-IsRaised : (sv : SignedVoucher) (old : ℤ) → IsRaised sv.min_settle_height old (raised sv old)
raised-IsRaised sv old = elim (Bool-cases (eqb_ℤ sv.min_settle_height (pos 0))) [
  | inl zero_height ↦ inl (ground arith, ground arith)
  | inr given ↦ inr (ground arith, ground arith, ground arith, ground arith)
]

delayed-IsDelayed :
    (sv : SignedVoucher) (old : ℤ) → IsDelayed sv.min_settle_height old (delayed sv old)
delayed-IsDelayed sv old = elim (Bool-cases (eqb_ℤ old (pos 0))) [
  | inl open_ ↦ inl (ground arith, ground arith)
  | inr settles ↦ inr (
    ground arith,
    elim (Bool-cases (eqb_ℤ sv.min_settle_height (pos 0))) [
      | inl zero_height ↦ inl (ground arith, ground arith)
      | inr given ↦ inr (ground arith, ground arith, ground arith, ground arith)
    ],
  )
]

-- What a redemption has done to the channel.
pub record Redeemed (sv : SignedVoucher) (balance : ℤ) (st st' : State) : Type 0 where
  pub before : ℤ
  pub others : ℤ
  pub small : sv.lane ≤ max_lane
  pub opened : Opened sv.nonce (Map.get sv.lane st.lane_states) before
  pub merged : Merged st.lane_states sv.merges (pos 0) others
  pub amount : st'.to_send ≡ sv.amount -ℤ (others +ℤ before) +ℤ st.to_send
  pub covered : (pos 0 ≤ℤ st'.to_send) × (st'.to_send ≤ℤ balance)
  pub lane :
      Map.get sv.lane st'.lane_states ≡ some (record { redeemed = sv.amount; nonce = sv.nonce })
  pub lanes :
      (l : ℕ) (a : LaneState)
      → Map.get l st.lane_states ≡ some a
      → (b : LaneState) × (Map.get l st'.lane_states ≡ some b) × (a.nonce ≤ b.nonce)
  pub parties : (st'.from ≡ st.from) × (st'.to ≡ st.to)
  pub settling : IsDelayed sv.min_settle_height st.settling_at st'.settling_at
  pub height : IsRaised sv.min_settle_height st.min_settle_height st'.min_settle_height

final_lanes :
    (sv : SignedVoucher) (before : ℤ) (old mid : Map ℕ LaneState)
    → Opened sv.nonce (Map.get sv.lane old) before
    → Advanced sv.lane old mid
    → (l : ℕ) (a : LaneState) → Map.get l old ≡ some a
    → (b : LaneState) × (Map.get l
          (Map.set sv.lane (record { redeemed = sv.amount; nonce = sv.nonce }) mid)
        ≡ some b)
      × (a.nonce ≤ b.nonce)
final_lanes sv before old mid o p l a h =
    let new : LaneState = record { redeemed = sv.amount; nonce = sv.nonce } in
    elim (Bool-cases (sv.lane == l)) [
      | inl same ↦
          let i : Map.get sv.lane old ≡ some a =
            subst (λ x. Map.get x old ≡ some a) (sym ((==_iff sv.lane l).0 same)) h in
          let k : Opened sv.nonce (some a) before = subst (λ x. Opened sv.nonce x before) i o in
          (new, get-set sv.lane l new mid ∙ ground arith, omega (arith, k.0))
      | inr other ↦
          let (b, e, k) = p.lanes l a h in (b, get-set sv.lane l new mid ∙ ground arith, k)
    ]

-- A redemption that succeeds adds to what is to be sent the voucher's amount less what its own lane
-- and the merged lanes had redeemed, within zero and the balance; the lanes are numbered up to
-- `i64::MAX`; the nonce is new to the voucher's lane and those of the merges to theirs; no lane is
-- lost or falls back to a lower nonce; the parties stay. The least settling height becomes the later
-- of what it was and the voucher's, if the voucher gives one, and so does the settling epoch of a
-- channel that settles; that of one that does not stays zero.
pub redeem_ok :
    (sv : SignedVoucher) (balance : ℤ) (st st' : State)
    → redeem sv balance st ≡ ok (tt, st')
    → Redeemed sv balance st st'
unfolding redeem
redeem_ok sv balance st st' h =
    let (found, s1, p, h1) = >>=-eq-ok (lift (find_lane st.lane_states sv.lane)) _ st h in
    let (a, s2, q, h2) = >>=-eq-ok (open_lane sv found) _ s1 h1 in
    let start : Merging = record { redeemed = pos 0; lanes = st.lane_states } in
    let (r, s3, t, h3) = >>=-eq-ok (lift (merge_lanes sv.lane sv.merges start)) _ s2 h2 in
    let new = sv.amount -ℤ (r.1.redeemed +ℤ a.redeemed) +ℤ st.to_send in
    let (low, h4) = guard_ok (ltb_ℤ new (pos 0)) illegal_argument _ s3 h3 in
    let (high, h5) = guard_ok (ltb_ℤ balance new) illegal_argument _ s3 h4 in
    let e = put_state_ok _ s3 h5 in
    let (small, f) =
      find_lane_ok st.lane_states sv.lane ((lift_ok (find_lane st.lane_states sv.lane) st p).0) in
    let o = subst (λ x. Opened sv.nonce x a.redeemed) (sym f) (open_lane_ok sv found s1 a s2 q) in
    let (m, v) =
      merge_lanes_ok sv.lane sv.merges start r.1
        ((lift_ok (merge_lanes sv.lane sv.merges start) s2 t).0) in
    let lane : LaneState = record { redeemed = sv.amount; nonce = sv.nonce } in
    subst (Redeemed sv balance st) (sym e) (record {
      before = a.redeemed;
      others = r.1.redeemed;
      small = small;
      opened = o;
      merged = m;
      amount = refl;
      covered = (ground arith, ground arith);
      lane = get-set sv.lane sv.lane lane r.1.lanes ∙ ground arith;
      lanes = final_lanes sv a.redeemed st.lane_states r.1.lanes o v;
      parties = (refl, refl);
      settling = delayed-IsDelayed sv st.settling_at;
      height = raised-IsRaised sv st.min_settle_height;
    })
