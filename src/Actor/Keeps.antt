-- ===== src/Actor/Keeps.antt =====
-- Calls that keep a property of their actor's state, as long as the messages that they send do.
use mathlib.Core.Path.{subst}
use forest.Base.{true, if◌then◌else◌, ℕ, ◌≡◌, sym, ap, ◌∙◌, Bool, false, List, some}
use forest.Base.Int.{ℤ}
use forest.Actor.Error.{Result, ok, Act, ExitCode, ◌>>=◌, ◌>>◌, fail_if, lift, pure}
use forest.Actor.Runtime.{
  Address, Bytes, World, Runtime, validate_immediate_caller_is, validate_immediate_caller_type,
  transaction, resolve_to_id_addr, resolve, read_state,
}
use forest.Actor.Inversion.{
  >>=-eq-ok, guard_ok, fail_if_ok, lift_ok, resolve_ok, read_state_ok, transaction_ok, caller_is_ok,
  caller_type_ok, resolve_keeps,
}

-- The actor's state, if there is one, has the property.
abbrev pub Good : {S X : Type 0} → (S → Type 0) → World S X → Type 0
Good {S} P w = (st : S) → w.actor ≡ some st → P st

-- A call that succeeds from such a world ends in one.
abbrev pub Keeps : {S X A : Type 0} → (S → Type 0) → Act (World S X) A → Type 0
Keeps {S} {X} {A} P m =
    (w : World S X) (a : A) (w' : World S X) → Good P w → m w ≡ ok (a, w') → Good P w'

abbrev pub SendKeeps : {S X : Type 0} → (S → Type 0) → Runtime S X → Type 0
SendKeeps P rt =
    (to : Address) (method : ℕ) (params : Bytes) (value : ℤ)
    → Keeps P (rt.send to method params value)

module _ {S X : Type 0} (P : S → Type 0) where
  pub same_actor : (w w' : World S X) → w.actor ≡ w'.actor → Good P w → Good P w'
  same_actor w w' e g st h = g st (e ∙ h)

  pub >>=-Keeps :
      {A B : Type 0} (m : Act (World S X) A) (f : A → Act (World S X) B)
      → Keeps P m
      → ((a : A) → Keeps P (f a))
      → Keeps P (m >>= f)
  >>=-Keeps m f k l w a w' g h =
      let (b, w1, p, q) = >>=-eq-ok m f w h in l b w1 a w' (k w b w1 g p) q

  pub guard-Keeps :
      {A : Type 0} (b : Bool) (c : ExitCode) (m : Act (World S X) A)
      → (b ≡ false → Keeps P m)
      → Keeps P (fail_if b c >> m)
  guard-Keeps b c m k w a w' g h = let (p, q) = guard_ok b c m w h in k p w a w' g q

  pub if-Keeps :
      {A : Type 0} (b : Bool) (m k : Act (World S X) A)
      → Keeps P m
      → Keeps P k
      → Keeps P (if b then m else k)
  if-Keeps true m k p q = p
  if-Keeps false m k p q = q

  pub pure-Keeps : {A : Type 0} (a : A) → Keeps {X = X} P (pure a)
  pure-Keeps a w a' w' g h = same_actor w w' (cc) g

  pub transaction-Keeps :
      {A : Type 0} (rt : Runtime S X) (f : Act S A)
      → ((st st' : S) (a : A) → P st → f st ≡ ok (a, st') → P st')
      → Keeps P (transaction rt f)
  transaction-Keeps rt f k w a w' g h =
      let (st, st', e, p, q) = transaction_ok rt f w h in
      λ s i. subst P (cc) (k st st' a (g st e) p)

  -- A transaction and what follows it, which knows the state that was committed.
  pub transaction_then-Keeps :
      {A B : Type 0} (rt : Runtime S X) (f : Act S A) (k : A → Act (World S X) B)
      → ((st st' : S) (a : A)
          → P st
          → f st ≡ ok (a, st')
          → (w : World S X) (b : B) (w' : World S X) → w.actor ≡ some st'
          → k a w ≡ ok (b, w')
          → Good P w')
      → Keeps P (transaction rt f >>= k)
  transaction_then-Keeps rt f k l w b w' g h =
      let (a, w1, p, q) = >>=-eq-ok (transaction rt f) k w h in
      let (st, st', e, x, y) = transaction_ok rt f w p in
      l st st' a (g st e) x w1 b w' (ap (λ v. v.actor) y) q

  pub caller_is-Keeps :
      (rt : Runtime S X) (addresses : List Address)
      → Keeps P (validate_immediate_caller_is rt addresses)
  caller_is-Keeps rt addresses w a w' g h = subst (Good P) (sym (caller_is_ok rt addresses w h).1) g

  pub caller_type-Keeps :
      (rt : Runtime S X) (types : List ℕ) → Keeps P (validate_immediate_caller_type rt types)
  caller_type-Keeps rt types w a w' g h = subst (Good P) (sym (caller_type_ok rt types w h)) g

  pub resolve-Keeps :
      (rt : Runtime S X) (address : Address)
      → SendKeeps P rt
      → Keeps P (resolve_to_id_addr rt address)
  resolve-Keeps rt address s w a w' g h =
      resolve_keeps rt (Good P)
        (λ to method params value w b w' i p. s to method params value w b w' i p) address w g h

  pub fail_if-Keeps : (b : Bool) (c : ExitCode) → Keeps {X = X} P (fail_if b c)
  fail_if-Keeps b c w a w' g h = subst (Good P) (sym (fail_if_ok b c w h).1) g

  pub lift-Keeps : {A : Type 0} (r : Result A) → Keeps {X = X} P (lift r)
  lift-Keeps r w a w' g h = subst (Good P) (sym (lift_ok r w h).1) g

  pub lookup-Keeps : (rt : Runtime S X) (address : Address) → Keeps P (resolve rt address)
  lookup-Keeps rt address w a w' g h = subst (Good P) (sym (resolve_ok rt address w h)) g

  pub read_state-Keeps : (rt : Runtime S X) → Keeps P (read_state rt)
  read_state-Keeps rt w a w' g h = subst (Good P) (sym (read_state_ok rt w h).1) g
