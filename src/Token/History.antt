-- ===== src/Token/History.antt =====
-- Any sequence of calls of contracts/btc-token.ts, as steps of its state.
use vsc_node.Prelude.{ℕ, String, ◌≡◌, List, Option, some, Bool}
use vsc_node.Prelude.Int.{ℤ, pos, ◌+ℤ◌}
use vsc_node.Token.Store.{Controller, LedgerOutput, Redeem, TokenState, ApiInput}
use vsc_node.Token.Spend.{Transfer, HtlcTransfer, apply_tx, apply_htlc, redeem}
use vsc_node.Token.Deposit.{TxProof, register_deposit, mint, redeem_proof}
use vsc_node.Token.Debits.{IsDistinct}
use vsc_node.Token.Conservation.{IsNew}
use vsc_node.Token.Supply.{IsMintable, minted}
use vsc_node.Token.Redemption.{IsNewRedeem}

-- What the host and its libraries compute.
pub record Host : Type 0 where
  pub sha256 : String → String
  pub id_of : LedgerOutput → String
  pub address_of : List Controller → String
  pub redeem_id : Redeem → String → String
  pub deposit_hash : String → String
  pub hash_address : String → String
  pub encode : String → String
  pub redeem_hash : String → Option String
  pub check : String → TxProof → Option Bool

module _ (host : Host) where
  -- The calls that issue nothing, with the sender and the relay of their time. The ids of what a
  -- call stores are not in use, and no transfer has an input twice.
  pub data Move (s s' : TokenState) : Type 0 where
    transfer :
        (api : ApiInput) (tx : Transfer)
        → IsDistinct tx.inputs
        → IsNew host.id_of tx.inputs s
        → apply_tx host.sha256 host.id_of host.address_of api tx s ≡ some s'
        → Move s s'
    lock :
        (api : ApiInput) (tx : HtlcTransfer)
        → IsDistinct tx.inputs
        → IsNew host.id_of tx.inputs s
        → apply_htlc host.sha256 host.id_of host.address_of api tx s ≡ some s'
        → Move s s'
    withdraw :
        (api : ApiInput) (tx : Transfer)
        → IsDistinct tx.inputs
        → IsNewRedeem host.redeem_id api tx.inputs s
        → redeem host.sha256 host.id_of host.address_of api host.redeem_id tx s ≡ some s'
        → Move s s'
    register :
        (api : ApiInput) (addr : Option String)
        → s' ≡ register_deposit host.deposit_hash host.hash_address host.encode api addr s
        → Move s s'
    prove :
        (header_at : ℕ → Option String) (proof : TxProof)
        → redeem_proof host.encode host.redeem_hash host.check header_at proof s ≡ some s'
        → Move s s'

  -- A call, and the amount that it issues.
  pub data Call (s s' : TokenState) : ℤ → Type 0 where
    move : Move s s' → Call s s' (pos 0)
    issue :
        (api : ApiInput) (header_at : ℕ → Option String) (dest_addr : Option String)
        (proof : TxProof)
        → IsMintable host.deposit_hash host.hash_address host.encode api host.id_of dest_addr
            proof.tx_id s.btc_addrs 0 proof.vout s.outputs
        → s'
          ≡ mint host.check header_at host.deposit_hash host.hash_address host.encode api host.id_of
              dest_addr proof s
        → Call s s' (
            minted host.check header_at host.deposit_hash host.hash_address host.encode api
              host.id_of dest_addr proof s)

  -- The states that calls lead to, with the sum of what they issue.
  pub data History (s : TokenState) : TokenState → ℤ → Type 0 where
    start : History s s (pos 0)
    then_call :
        {s' s'' : TokenState} {total amount : ℤ}
        → History s s' total
        → Call s' s'' amount
        → History s s'' (total +ℤ amount)
