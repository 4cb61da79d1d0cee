-- ===== src/Actor/Paych/Defs.antt =====
-- The state of the payment channel actor and the redemption of a voucher: state.rs and types.rs of
-- vm/actor/src/builtin/paych, and the closure of `update_channel_state` in its mod.rs.
use forest.Base.{ℕ, not, ◌&&◌, List, [], ◌∷◌, Option, none, some, leb, ltb, ◌==◌, if◌then◌else◌}
use forest.Base.Int.{ℤ, pos, ◌+ℤ◌, ◌-ℤ◌, ltb_ℤ, eqb_ℤ}
use forest.Actor.Error.{
  Result, ok, err, or_fail, Act, actor_error, illegal_argument, ◌>>=◌, ◌>>◌, pure, fail_if, lift,
  put_state,
}
use forest.Actor.Map
use forest.Actor.Map.{Map, nat_eq}
use forest.Actor.Runtime.{Address, Bytes}

-- `i64::MAX`, 12 hours of 120 epochs, and 256 bytes
abbrev pub max_lane : ℕ
max_lane = 0x7fff_ffff_ffff_ffff

abbrev pub settle_delay : ℕ
settle_delay = 1440

abbrev pub max_secret_size : ℕ
max_secret_size = 256

pub record LaneState : Type 0 where
  pub redeemed : ℤ
  pub nonce : ℕ

pub record Merge : Type 0 where
  pub lane : ℕ
  pub nonce : ℕ

pub record State : Type 0 where
  pub from : Address
  pub to : Address
  pub to_send : ℤ
  pub settling_at : ℤ
  pub min_settle_height : ℤ
  pub lane_states : Map ℕ LaneState

-- `State::new`
abbrev pub new_state : Address → Address → State
new_state from to = record {
  from = from;
  to = to;
  to_send = pos 0;
  settling_at = pos 0;
  min_settle_height = pos 0;
  lane_states = [];
}

pub record ConstructorParams : Type 0 where
  pub from : Address
  pub to : Address

pub record ModVerifyParams : Type 0 where
  pub actor : Address
  pub method : ℕ
  pub payload : Bytes

pub record SignedVoucher : Type 0 where
  pub channel_addr : Address
  pub time_lock_min : ℤ
  pub time_lock_max : ℤ
  pub secret_pre_image : Bytes
  pub extra : Option ModVerifyParams
  pub lane : ℕ
  pub nonce : ℕ
  pub amount : ℤ
  pub min_settle_height : ℤ
  pub merges : List Merge
  pub signature : Option Bytes

pub record UpdateChannelStateParams : Type 0 where
  pub sv : SignedVoucher
  pub secret : Bytes

abbrev pub find_lane : Map ℕ LaneState → ℕ → Result (Option LaneState)
find_lane ls id = if ltb max_lane id then err (actor_error illegal_argument) else ok (Map.get id ls)

-- The lane of the voucher, as it is or a new one.
abbrev pub open_lane : {T : Type 0} → SignedVoucher → Option LaneState → Act T LaneState
open_lane sv none = pure (record { redeemed = pos 0; nonce = 0 })
open_lane sv (some state) = fail_if (leb sv.nonce state.nonce) illegal_argument >> pure state

-- What the loop over the merged lanes changes: `redeemed_from_others` and the lanes.
pub record Merging : Type 0 where
  pub redeemed : ℤ
  pub lanes : Map ℕ LaneState

unfoldable pub merge_lane : ℕ → Merge → Act Merging (Unit {0})
merge_lane lane merge s =
    (do
      fail_if (merge.lane == lane) illegal_argument
      found ← lift (find_lane s.lanes merge.lane)
      other ← lift (or_fail found (actor_error illegal_argument))
      fail_if (leb merge.nonce other.nonce) illegal_argument
      put_state (record {
        redeemed = s.redeemed +ℤ other.redeemed;
        lanes = Map.set merge.lane (record other { nonce = merge.nonce }) s.lanes;
      }))
      s

unfoldable pub merge_lanes : ℕ → List Merge → Act Merging (Unit {0})
unfolding merge_lane
merge_lanes lane [] = pure tt
merge_lanes lane (merge ∷ rest) = merge_lane lane merge >> merge_lanes lane rest

abbrev pub delayed : SignedVoucher → ℤ → ℤ
delayed sv settling_at =
    if not (eqb_ℤ sv.min_settle_height (pos 0))
      && (not (eqb_ℤ settling_at (pos 0)) && ltb_ℤ settling_at sv.min_settle_height)
    then sv.min_settle_height
    else settling_at

abbrev pub raised : SignedVoucher → ℤ → ℤ
raised sv min_settle_height =
    if not (eqb_ℤ sv.min_settle_height (pos 0)) && ltb_ℤ min_settle_height sv.min_settle_height
    then sv.min_settle_height
    else min_settle_height

-- The closure of `update_channel_state`, given the balance.
unfoldable pub redeem : SignedVoucher → ℤ → Act State (Unit {0})
unfolding merge_lanes
redeem sv balance st =
    (do
      found ← lift (find_lane st.lane_states sv.lane)
      lane_state ← open_lane sv found
      merged ←
          lift (merge_lanes sv.lane sv.merges (record { redeemed = pos 0; lanes = st.lane_states }))
      let new_send_balance = sv.amount -ℤ (merged.1.redeemed +ℤ lane_state.redeemed) +ℤ st.to_send
      fail_if (ltb_ℤ new_send_balance (pos 0)) illegal_argument
      fail_if (ltb_ℤ balance new_send_balance) illegal_argument
      put_state (record st {
        to_send = new_send_balance;
        settling_at = delayed sv st.settling_at;
        min_settle_height = raised sv st.min_settle_height;
        lane_states =
            Map.set sv.lane (record { redeemed = sv.amount; nonce = sv.nonce }) merged.1.lanes;
      }))
      st
