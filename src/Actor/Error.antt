-- ===== src/Actor/Error.antt =====
-- Exit codes and errors, vm/src/exit_code.rs and vm/src/error.rs, and the monad of a call that
-- changes a state or fails. The message text of an error is left out.
use forest.Base.{◌≡◌, refl, ◌⊎◌, inl, inr, Bool, true, false, Option, none, some, if◌then◌else◌}

pub data ExitCode : Type 0 where
  success : ExitCode
  sys_err_sender_invalid sys_err_sender_state_invalid sys_err_invalid_method : ExitCode
  sys_err_actor_panic sys_err_invalid_receiver sys_err_insufficient_funds : ExitCode
  sys_err_out_of_gas sys_err_forbidden sys_err_illegal_actor sys_err_illegal_argument : ExitCode
  sys_err_reserved2 sys_err_reserved3 sys_err_reserved4 sys_err_reserved5 : ExitCode
  sys_err_reserved6 : ExitCode
  illegal_argument not_found forbidden insufficient_funds illegal_state serialization : ExitCode
  too_many_prove_commits placeholder : ExitCode

pub record ActorError : Type 0 where
  pub fatal : Bool
  pub exit_code : ExitCode
  pub recovered : Bool

-- `ActorError::new`, `new_fatal` and `new_recovered`
abbrev pub actor_error : ExitCode → ActorError
actor_error c = record { fatal = false; exit_code = c; recovered = false }

abbrev pub fatal_error : ActorError
fatal_error = record { fatal = true; exit_code = placeholder; recovered = false }

abbrev pub recovered_error : ExitCode → ActorError
recovered_error c = record { fatal = false; exit_code = c; recovered = true }

pub data Result {ℓ} (A : Type ℓ) : Type ℓ where
  ok : A → Result A
  err : ActorError → Result A

abbrev pub or_fail {ℓ} : {A : Type ℓ} → Option A → ActorError → Result A
or_fail none e = err e
or_fail (some a) e = ok a

-- A step on a state `T`. After an error there is no state: the runtime rolls the changes back.
abbrev pub Act : Type 0 → Type 0 → Type 0
Act T A = T → Result (A × T)

infixl 5 ◌>>=◌ ◌>>◌
abbrev pub ◌>>=◌ : {T A B : Type 0} → Act T A → (A → Act T B) → Act T B
◌>>=◌ m f s = elim (m s) [ ok p ↦ f p.0 p.1 | err e ↦ err e ]

abbrev pub ◌>>◌ : {T A B : Type 0} → Act T A → Act T B → Act T B
m >> k = m >>= λ _. k

module _ {T : Type 0} where
  abbrev pub pure : {A : Type 0} → A → Act T A
  pure a s = ok (a, s)

  abbrev pub fail : {A : Type 0} → ExitCode → Act T A
  fail c s = err (actor_error c)

  abbrev pub fail_if : Bool → ExitCode → Act T (Unit {0})
  fail_if b c s = if b then err (actor_error c) else ok (tt, s)

  abbrev pub lift : {A : Type 0} → Result A → Act T A
  lift r s = elim r [ ok a ↦ ok (a, s) | err e ↦ err e ]

  abbrev pub get_state : Act T T
  get_state s = ok (s, s)

  abbrev pub put_state : T → Act T (Unit {0})
  put_state s' s = ok (tt, s')

pub Result-cases {ℓ} :
    {A : Type ℓ} (r : Result A) → ((a : A) × (r ≡ ok a)) ⊎ ((e : ActorError) × (r ≡ err e))
Result-cases (ok a) = inl (a, refl)
Result-cases (err e) = inr (e, refl)
