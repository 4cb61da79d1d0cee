-- ===== src/Actor/Paych/Tests.antt =====
-- A channel and runs of its methods.
use mathlib.Core.Path.{subst}
use forest.Base.{◌+◌, ℕ, ◌≡◌, refl, true, false, [], ◌∷◌, none, some, arith, has}
use forest.Base.Int.{ℤ, pos, ◌+ℤ◌, ◌-ℤ◌, ◌≤ℤ◌, eqb_ℤ, wrap_i64}
use forest.Actor.Error.{Result, ok, err, actor_error, illegal_argument, forbidden}
use forest.Actor.Map
use forest.Actor.Map.{nat_eq}
use forest.Actor.Runtime.{
  Bytes, World, Runtime, account_code, method_send, transaction, read_state, resolve,
  validate_immediate_caller_is,
}
use forest.Actor.Paych.Defs.{
  State, SignedVoucher, ModVerifyParams, UpdateChannelStateParams, redeem, merge_lanes, merge_lane,
}
use forest.Actor.Paych.{updates, update_channel_state, settle, collect, invoke_method}
use forest.Actor.Paych.Redeem.{Redeemed, redeem_ok}
use forest.Actor.Paych.Later.{Later}
use forest.Actor.Paych.Reach.{Leads, elsewhere, called}
use forest.Actor.Paych.Outcomes.{update_ok, Signed, Valid, Unlocks, Asks}
use forest.Actor.Paych.Safety.{
  Sound, Leads-Later, no_replay, collect_ok, collect_after_settle, collected_is_gone,
}

abbrev encode : SignedVoucher → Result Bytes
encode sv = ok (sv.lane ∷ sv.nonce ∷ [])

abbrev pack : Bytes → Result Bytes
pack b = ok b

abbrev runtime_at : ℤ → Runtime State ℕ
runtime_at epoch = record {
  caller = 12;
  receiver = 100;
  value_received = pos 0;
  curr_epoch = epoch;
  resolve_address = λ x a. ok (some a);
  get_actor_code_cid = λ x a. ok (some account_code);
  send = λ to method params value w. ok ([], record w { balance = w.balance -ℤ value });
  delete_actor = λ a w. ok (record w { actor = none });
  hash_blake2b = λ b. ok b;
  verify_signature = λ s a b. true;
}

runtime_at-Sound : (epoch : ℤ) → Sound encode pack (runtime_at epoch)
runtime_at-Sound epoch = record {
  deletes =
      λ a w w' h. subst (λ v. v.actor ≡ none) (ok_world (record w { actor = none }) w' h) refl;
  sends = λ to method params value w1 b w2 h. elsewhere (cc);
}
  where
    ok_world : (v v' : World State ℕ) → ok v ≡ ok v' → v ≡ v'
    ok_world v v' h = cc

-- Two lanes, of which a voucher on the first merges the second.
abbrev channel : State
channel = record {
  from = 11;
  to = 12;
  to_send = pos 30;
  settling_at = pos 0;
  min_settle_height = pos 0;
  lane_states =
      (0, record { redeemed = pos 10; nonce = 1 })
      ∷ (1, record { redeemed = pos 20; nonce = 4 })
      ∷ [];
}

abbrev extra : ModVerifyParams
extra = record { actor = 55; method = 3; payload = 9 ∷ [] }

abbrev voucher : SignedVoucher
voucher = record {
  channel_addr = 100;
  time_lock_min = pos 0;
  time_lock_max = pos 0;
  secret_pre_image = [];
  extra = some extra;
  lane = 0;
  nonce = 2;
  amount = pos 50;
  min_settle_height = pos 20;
  merges = record { lane = 1; nonce = 5 } ∷ [];
  signature = some (1 ∷ []);
}

abbrev params : UpdateChannelStateParams
params = record { sv = voucher; secret = [] }

abbrev after : State
after = record channel {
  to_send = pos 50;
  min_settle_height = pos 20;
  lane_states =
      (0, record { redeemed = pos 50; nonce = 2 })
      ∷ (1, record { redeemed = pos 20; nonce = 5 })
      ∷ [];
}

abbrev world : World State ℕ
world = record { actor = some channel; balance = pos 100; outside = 0 }

abbrev after_world : World State ℕ
after_world = record world { actor = some after }

redeem_run : redeem voucher (pos 100) channel ≡ ok (tt, after)
unfolding redeem merge_lanes merge_lane Map.get Map.set ◌+ℤ◌ ◌-ℤ◌
redeem_run = refl

update_run :
    update_channel_state (runtime_at (pos 7)) encode pack params world ≡ ok (tt, after_world)
unfolding update_channel_state read_state validate_immediate_caller_is resolve transaction redeem
    merge_lanes merge_lane Map.get Map.set ◌+ℤ◌ ◌-ℤ◌
update_run = refl

-- The same voucher a second time.
update_again :
    update_channel_state (runtime_at (pos 7)) encode pack params after_world
    ≡ err (actor_error illegal_argument)
unfolding update_channel_state read_state validate_immediate_caller_is resolve transaction redeem
    merge_lanes merge_lane Map.get Map.set ◌+ℤ◌ ◌-ℤ◌
update_again = refl

invoke_run :
    invoke_method (runtime_at (pos 7)) encode pack (updates params) world ≡ ok (tt, after_world)
unfolding invoke_method update_channel_state read_state validate_immediate_caller_is resolve
    transaction redeem merge_lanes merge_lane Map.get Map.set ◌+ℤ◌ ◌-ℤ◌
invoke_run = refl

redeem_ok_example : Redeemed voucher (pos 100) channel after
redeem_ok_example = redeem_ok voucher (pos 100) channel after redeem_run

update_ok_example :
    (st : State) × (w1 : World State ℕ) × (st1 : State) × (st' : State) × (world.actor ≡ some st)
    × (has 12 (st.from ∷ st.to ∷ []) ≡ true)
    × Signed (runtime_at (pos 7)) encode pack st params
    × Valid (runtime_at (pos 7)) encode pack voucher world
    × Unlocks (runtime_at (pos 7)) encode pack params
    × Asks (runtime_at (pos 7)) encode pack (some extra) world w1
    × (w1.actor ≡ some st1)
    × Redeemed voucher w1.balance st1 st'
    × (after_world ≡ record w1 { actor = some st' })
update_ok_example = update_ok (runtime_at (pos 7)) encode pack params world after_world update_run

update-Leads : Leads encode pack world after_world
update-Leads =
    called (runtime_at (pos 7)) (runtime_at-Sound (pos 7)).deletes (runtime_at-Sound (pos 7)).sends
      (updates params) refl invoke_run

Leads-Later_example : Later channel after
Leads-Later_example = Leads-Later encode pack world after_world channel after update-Leads refl refl

no_replay_example : ¬ (
    update_channel_state (runtime_at (pos 8)) encode pack params after_world ≡ ok (tt, after_world))
no_replay_example =
    no_replay encode pack (runtime_at (pos 7)) (runtime_at (pos 8)) (runtime_at-Sound (pos 8))
      params params world after_world after_world after_world refl (omega arith) update_run
      (elsewhere refl)

abbrev settled_world : World State ℕ
settled_world = record world { actor = some (record channel { settling_at = pos 1447 }) }

abbrev collected_world : World State ℕ
collected_world = record { actor = none; balance = pos 70; outside = 0 }

settle_run : settle (runtime_at (pos 7)) encode pack world ≡ ok (tt, settled_world)
unfolding settle transaction wrap_i64 ◌+ℤ◌
settle_run = refl

collect_run : collect (runtime_at (pos 1447)) encode pack settled_world ≡ ok (tt, collected_world)
unfolding collect read_state validate_immediate_caller_is ◌-ℤ◌
collect_run = refl

-- One epoch earlier it is refused.
collect_early :
    collect (runtime_at (pos 1446)) encode pack settled_world ≡ err (actor_error forbidden)
unfolding collect read_state validate_immediate_caller_is
collect_early = refl

collect_ok_example :
    (st : State) × (settled_world.actor ≡ some st)
    × (has 12 (st.from ∷ st.to ∷ []) ≡ true)
    × (eqb_ℤ st.settling_at (pos 0) ≡ false)
    × (st.settling_at ≤ℤ pos 1447)
    × (b : Bytes) × (w1 : World State ℕ) × ((runtime_at (pos 1447)).send st.to method_send []
          st.to_send settled_world
        ≡ ok (b, w1))
    × ((runtime_at (pos 1447)).delete_actor st.from w1 ≡ ok collected_world)
collect_ok_example =
    collect_ok encode pack (runtime_at (pos 1447)) settled_world collected_world collect_run

collect_after_settle_example :
    (st : State) × (world.actor ≡ some st)
    × (pos (7 + 1440) ≤ℤ pos 1447)
    × (st.min_settle_height ≤ℤ pos 1447)
collect_after_settle_example =
    collect_after_settle encode pack (runtime_at (pos 7)) (runtime_at (pos 1447)) world
      settled_world settled_world collected_world 7 refl (omega arith) settle_run (elsewhere refl)
      collect_run

collected_is_gone_example : collected_world.actor ≡ none
collected_is_gone_example =
    collected_is_gone encode pack (runtime_at (pos 1447)) (runtime_at-Sound (pos 1447))
      settled_world collected_world collected_world collect_run (elsewhere refl)
