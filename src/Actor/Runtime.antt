-- ===== src/Actor/Runtime.antt =====
-- What an actor sees of the runtime: the trait `Runtime` of vm/runtime and the parts of
-- vm/interpreter/src/default_runtime.rs that read and commit the receiver's state. Addresses and
-- code ids are numbers that are only compared; gas is left out.
use forest.Base.{true, false, ◌&&◌, ◌==◌, ℕ, Bool, not, List, [], ◌∷◌, Option, none, some, has}
use forest.Base.Int.{ℤ, pos}
use forest.Actor.Error.{
  Result, ok, err, or_fail, Act, actor_error, fatal_error, forbidden, sys_err_forbidden,
  sys_err_illegal_actor, sys_err_illegal_argument, illegal_state, ◌>>=◌, pure, fail_if, lift,
}

abbrev pub Address : Type 0
Address = ℕ

abbrev pub Bytes : Type 0
Bytes = List ℕ

unfoldable pub eq_bytes : Bytes → Bytes → Bool
eq_bytes [] [] = true
eq_bytes (a ∷ as') (b ∷ bs) = a == b && eq_bytes as' bs
eq_bytes _ _ = false

-- The code ids of three builtin actors, as numbers of their own.
abbrev pub account_code : ℕ
account_code = 0

abbrev pub init_code : ℕ
init_code = 1

abbrev pub multisig_code : ℕ
multisig_code = 2

abbrev pub init_actor_addr : Address
init_actor_addr = 1

abbrev pub signable_types : List ℕ
signable_types = account_code ∷ multisig_code ∷ []

abbrev pub method_send : ℕ
method_send = 0

-- The state tree as a call sees it: the state and the balance of its receiver, and all else.
pub record World (S X : Type 0) : Type 0 where
  pub actor : Option S
  pub balance : ℤ
  pub outside : X

-- The message and what the rest of the chain answers. `send` runs another actor, which may call the
-- receiver again; if it fails its changes are rolled back, so an error comes with no world.
pub record Runtime (S X : Type 0) : Type 0 where
  pub caller : Address
  pub receiver : Address
  pub value_received : ℤ
  pub curr_epoch : ℤ
  pub resolve_address : X → Address → Result (Option Address)
  pub get_actor_code_cid : X → Address → Result (Option ℕ)
  pub send : Address → ℕ → Bytes → ℤ → World S X → Result (Bytes × World S X)
  pub delete_actor : Address → World S X → Result (World S X)
  pub hash_blake2b : Bytes → Result Bytes
  pub verify_signature : Bytes → Address → Bytes → Bool

module _ {S X : Type 0} (rt : Runtime S X) where
  abbrev pub Call : Type 0 → Type 0
  Call A = Act (World S X) A

  unfoldable pub validate_immediate_caller_is : List Address → Call (Unit {0})
  validate_immediate_caller_is addresses = fail_if (not (has rt.caller addresses)) forbidden

  unfoldable pub validate_immediate_caller_type : List ℕ → Call (Unit {0})
  validate_immediate_caller_type types w =
      (do
        code ← lift (rt.get_actor_code_cid w.outside rt.caller)
        cid ← lift (or_fail code fatal_error)
        fail_if (not (has cid types)) sys_err_forbidden)
        w

  -- `create`, which wants the receiver's state to be empty still.
  unfoldable pub create : S → Call (Unit {0})
  create s w = elim w.actor [
    | none ↦ ok (tt, record w { actor = some s })
    | some _ ↦ err fatal_error
  ]

  -- `state`
  unfoldable pub read_state : Call S
  read_state w = elim w.actor [
    | none ↦ err (actor_error sys_err_illegal_argument)
    | some s ↦ ok (s, w)
  ]

  -- `transaction`: the closure's state is committed if it succeeds.
  unfoldable pub transaction : {A : Type 0} → Act S A → Call A
  transaction f w = elim w.actor [
    | none ↦ err (actor_error sys_err_illegal_actor)
    | some s ↦ elim (f s) [ ok p ↦ ok (p.0, record w { actor = some p.1 }) | err e ↦ err e ]
  ]

  unfoldable pub resolve : Address → Call (Option Address)
  resolve address w = elim (rt.resolve_address w.outside address) [
    | ok a ↦ ok (a, w)
    | err e ↦ err e
  ]

  -- `resolve_to_id_addr` (vm/actor/src/builtin/shared.rs), with the exit code that its callers give
  -- to an address which stays unresolved.
  unfoldable pub resolve_to_id_addr : Address → Call Address
  unfolding resolve
  resolve_to_id_addr address = do
    first ← resolve address
    elim first [
      | some a ↦ pure a
      | none ↦ do
        sent ← rt.send address method_send [] (pos 0)
        second ← resolve address
        lift (or_fail second (actor_error illegal_state))
    ]
