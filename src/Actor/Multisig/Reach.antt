-- ===== src/Actor/Multisig/Reach.antt =====
-- The worlds that calls of a wallet lead to, also while it waits for a message that it has sent.
use forest.Base.{◌≡◌, ◌∙◌}
use forest.Base.Int.{ℤ}
use forest.Base.{ℕ}
use forest.Actor.Error.{Result, ok}
use forest.Actor.Runtime.{Address, Bytes, World, Runtime}
use forest.Actor.Keeps.{Good}
use forest.Actor.Multisig.{Message, invoke_method}
use forest.Actor.Multisig.Defs.{State, ProposalHashData}
use forest.Actor.Multisig.Invariant.{IsWallet}
use forest.Actor.Multisig.Methods.{invoke_method-Keeps}

-- `called` is a successful call of the wallet by any message in any runtime whose own sends lead along
-- such worlds; `elsewhere` is any change of balances and of other actors.
pub data Leads {X : Type 0} (encode : ProposalHashData → Result Bytes)
    : World State X → World State X → Type 0 where
  elsewhere : {w w' : World State X} → w.actor ≡ w'.actor → Leads encode w w'
  then_ : {w w1 w' : World State X} → Leads encode w w1 → Leads encode w1 w' → Leads encode w w'
  called :
      {w w' : World State X} (rt : Runtime State X)
      → ((to : Address) (method : ℕ) (params : Bytes) (value : ℤ) (w1 : World State X) (b : Bytes)
            (w2 : World State X)
          → rt.send to method params value w1 ≡ ok (b, w2)
          → Leads encode w1 w2)
      → (message : Message) {u : Unit {0}} → invoke_method rt encode message w ≡ ok (u, w')
      → Leads encode w w'

-- Whatever calls of a wallet follow one another, and also while messages that it has sent call it again,
-- a wallet that is well formed stays so: the signers are distinct and at most 256, the threshold is
-- between one and their number, and each pending transaction has a value that is not negative and
-- approvals of current signers only, each counted once.
pub Leads-IsWallet :
    {X : Type 0} (encode : ProposalHashData → Result Bytes) (w w' : World State X)
    → Leads encode w w'
    → Good IsWallet w
    → Good IsWallet w'
Leads-IsWallet encode w w' (elsewhere e) g = λ st h. g st (e ∙ h)
Leads-IsWallet encode w w' (then_ {w1} p q) g =
    Leads-IsWallet encode w1 w' q (Leads-IsWallet encode w w1 p g)
Leads-IsWallet encode w w' (called rt sends message {u} h) g =
    invoke_method-Keeps rt encode
      (λ to method params value w1 b w2 g1 e.
        Leads-IsWallet encode w1 w2 (sends to method params value w1 b w2 e) g1)
      message w u w' g h
