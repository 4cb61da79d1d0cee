-- ===== src/Actor/Inversion.antt =====
-- What a successful call says of its parts.
use mathlib.Core.Path.{subst}
use forest.Base.{
  ℕ, ◌≡◌, refl, sym, ap, ◌∙◌, inl, inr, Bool, true, false, List, [], Option, none, some, arith, has,
  Option-cases,
}
use forest.Base.Int.{ℤ, pos}
use forest.Actor.Error.{
  Result, ok, err, or_fail, Act, ExitCode, ActorError, ◌>>=◌, ◌>>◌, fail_if, put_state, lift, pure,
  actor_error, illegal_state, Result-cases,
}
use forest.Actor.Runtime.{
  Address, Bytes, World, Runtime, Call, validate_immediate_caller_is,
  validate_immediate_caller_type, transaction, resolve, resolve_to_id_addr, create, read_state,
  method_send,
}

abbrev after : {T A B : Type 0} → Result (A × T) → (A → Act T B) → Result (B × T)
after (ok p) f = f p.0 p.1
after (err e) f = err e

after_lem :
    {T A B : Type 0} (r : Result (A × T)) (f : A → Act T B)
    → after r f ≡ elim r [ ok p ↦ f p.0 p.1 | err e ↦ err e ]
after_lem (ok p) f = refl
after_lem (err e) f = refl

bind_split :
    {T A B : Type 0} (m : Act T A) (f : A → Act T B) (s : T) (r : Result (A × T)) {q : B × T}
    → m s ≡ r
    → after r f ≡ ok q
    → (a : A) × (s' : T) × (m s ≡ ok (a, s')) × (f a s' ≡ ok q)
bind_split m f s (ok p) e h = (p.0, p.1, e, h)
bind_split m f s (err x) e h = absurd (cc)

pub >>=-eq-ok :
    {T A B : Type 0} (m : Act T A) (f : A → Act T B) (s : T) {q : B × T}
    → (m >>= f) s ≡ ok q
    → (a : A) × (s' : T) × (m s ≡ ok (a, s')) × (f a s' ≡ ok q)
>>=-eq-ok m f s h = bind_split m f s (m s) refl (after_lem (m s) f ∙ h)

-- A call goes on from what its first part gives.
pub >>=-step :
    {T A B : Type 0} (m : Act T A) (f : A → Act T B) (s : T) {a : A} {s' : T}
    → m s ≡ ok (a, s')
    → (m >>= f) s ≡ f a s'
>>=-step m f s e = sym (after_lem (m s) f) ∙ ap (λ r. after r f) e

pub fail_if_ok :
    {T : Type 0} (b : Bool) (c : ExitCode) (s : T) {u : Unit {0}} {s' : T}
    → fail_if b c s ≡ ok (u, s')
    → (b ≡ false) × (s' ≡ s)
fail_if_ok true c s h = absurd (cc)
fail_if_ok false c s h = (refl, cc)

pub guard_ok :
    {T B : Type 0} (b : Bool) (c : ExitCode) (k : Act T B) (s : T) {q : B × T}
    → (fail_if b c >> k) s ≡ ok q
    → (b ≡ false) × (k s ≡ ok q)
guard_ok true c k s h = absurd (cc)
guard_ok false c k s h = (refl, h)

pub put_state_ok :
    {T : Type 0} (new s : T) {u : Unit {0}} {s' : T} → put_state new s ≡ ok (u, s') → s' ≡ new
put_state_ok new s h = cc

pub ok_inj : {T A : Type 0} (p q : A × T) → ok p ≡ ok q → p ≡ q
ok_inj p q h = cc

-- A call whose result is only mapped.
pub map_ok :
    {T A B : Type 0} (m : Act T A) (f : A → B) (s : T) {b : B} {s' : T}
    → (m >>= λ a. pure (f a)) s ≡ ok (b, s')
    → (a : A) × (m s ≡ ok (a, s')) × (f a ≡ b)
map_ok m f s h =
    let (a, s1, p, q) = >>=-eq-ok m (λ a. pure (f a)) s h in (a, p ∙ ap (λ t. ok (a, t)) (cc), cc)

pub lift_ok :
    {T A : Type 0} (r : Result A) (s : T) {a : A} {s' : T}
    → lift r s ≡ ok (a, s')
    → (r ≡ ok a) × (s' ≡ s)
lift_ok (ok x) s h = (cc, cc)
lift_ok (err e) s h = absurd (cc)

pub or_fail_ok :
    {A : Type 0} (o : Option A) (e : ActorError) {a : A} → or_fail o e ≡ ok a → o ≡ some a
or_fail_ok none e h = absurd (cc)
or_fail_ok (some x) e h = cc

module _ {S X : Type 0} (rt : Runtime S X) where
  pub transaction_ok :
      {A : Type 0} (f : Act S A) (w : World S X) {a : A} {w' : World S X}
      → transaction rt f w ≡ ok (a, w')
      → (st : S) × (st' : S) × (w.actor ≡ some st)
        × (f st ≡ ok (a, st'))
        × (w' ≡ record w { actor = some st' })
  unfolding transaction
  transaction_ok f w h = elim (Option-cases w.actor) [
    | inl e ↦ absurd (ground arith)
    | inr (st, e) ↦ elim (Result-cases (f st)) [
      | inl (p, q) ↦ (st, p.1, e, ground arith, ground arith)
      | inr (x, q) ↦ absurd (ground arith)
    ]
  ]

  pub read_state_ok :
      (w : World S X) {s : S} {w' : World S X}
      → read_state rt w ≡ ok (s, w')
      → (w.actor ≡ some s) × (w' ≡ w)
  unfolding read_state
  read_state_ok w h = elim (Option-cases w.actor) [
    | inl e ↦ absurd (ground arith)
    | inr (st, e) ↦ (ground arith, ground arith)
  ]

  pub create_ok :
      (s : S) (w : World S X) {u : Unit {0}} {w' : World S X}
      → create rt s w ≡ ok (u, w')
      → w' ≡ record w { actor = some s }
  unfolding create
  create_ok s w h = elim (Option-cases w.actor) [
    | inl e ↦ ground arith
    | inr (st, e) ↦ absurd (ground arith)
  ]

  pub caller_is_ok :
      (addresses : List Address) (w : World S X) {u : Unit {0}} {w' : World S X}
      → validate_immediate_caller_is rt addresses w ≡ ok (u, w')
      → (has rt.caller addresses ≡ true) × (w' ≡ w)
  unfolding validate_immediate_caller_is
  caller_is_ok addresses w h = ground arith

  pub caller_type_ok :
      (types : List ℕ) (w : World S X) {u : Unit {0}} {w' : World S X}
      → validate_immediate_caller_type rt types w ≡ ok (u, w')
      → w' ≡ w
  unfolding validate_immediate_caller_type
  caller_type_ok types w h = ground arith

  pub resolve_ok :
      (address : Address) (w : World S X) {a : Option Address} {w' : World S X}
      → resolve rt address w ≡ ok (a, w')
      → w' ≡ w
  unfolding resolve
  resolve_ok address w h = ground arith

  -- The second half of `resolve_to_id_addr`, by what the first lookup found.
  abbrev resolve_rest : Address → Option Address → Call rt Address
  resolve_rest address first = elim first [
    | some a ↦ pure a
    | none ↦ rt.send address method_send [] (pos 0) >>= λ sent.
        resolve rt address >>= λ second. lift (or_fail second (actor_error illegal_state))
  ]

  module _ {ℓ} (I : World S X → Type ℓ)
      (send_keeps : (to : Address) (method : ℕ) (params : Bytes) (value : ℤ) (w : World S X)
          (b : Bytes) (w' : World S X)
        → I w
        → rt.send to method params value w ≡ ok (b, w')
        → I w') where
    resolve_rest_keeps :
        (address : Address) (first : Option Address) (w : World S X) {a : Address} {w' : World S X}
        → I w
        → resolve_rest address first w ≡ ok (a, w')
        → I w'
    resolve_rest_keeps address (some x) w i h = subst I (ground arith) i
    resolve_rest_keeps address none w i h =
        let (b, w1, sent, h1) = >>=-eq-ok (rt.send address method_send [] (pos 0)) _ w h in
        let (o, w2, found, h2) = >>=-eq-ok (resolve rt address) _ w1 h1 in
        let i1 = send_keeps address method_send [] (pos 0) w b w1 i sent in
        subst I (sym ((lift_ok _ w2 h2).1 ∙ resolve_ok address w1 found)) i1

    -- Resolving an address may run another actor, and keeps what every send keeps.
    pub resolve_keeps :
        (address : Address) (w : World S X) {a : Address} {w' : World S X}
        → I w
        → resolve_to_id_addr rt address w ≡ ok (a, w')
        → I w'
    unfolding resolve_to_id_addr
    resolve_keeps address w i h =
        let (first, w1, found, h1) = >>=-eq-ok (resolve rt address) (resolve_rest address) w h in
        resolve_rest_keeps address first w1 (subst I (sym (resolve_ok address w found)) i) h1
