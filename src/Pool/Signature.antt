-- ===== src/Pool/Signature.antt =====
-- verifyTxSignature of services/new/transactionPool.ts.
use Prim.Native.String.{◌++◌ as cat}
use vsc_node.Prelude.{
  String, List, [], ◌∷◌, map, Option, none, some, Bool, true, false, ◌&&◌, ◌||◌, ◌>>=◌, str_eq,
  starts_with, if◌then◌else◌, filter,
}
use vsc_node.Election.Weights.{includes}
use vsc_node.Pool.Store.{Headers, Container, Sig, jws, eip191, Services, without_query}

pub data SigError : Type 0 where
  incorrect_sig : SigError
  wrong_auth : SigError
  missing_auth : SigError

-- How a check ends: an exception, `[false, error]`, or what goes on.
pub data Checked (Val : Type 0) : Type 0 where
  thrown : Checked Val
  invalid : SigError → Checked Val
  ok : Val → Checked Val

unfoldable pub all_some : List (Option String) → Option (List String)
all_some [] = some []
all_some (none ∷ xs) = none
all_some (some x ∷ xs) = do rest ← all_some xs; some (x ∷ rest)

-- The first of the recovered addresses that is among those of the authorities.
unfoldable pub resolve : List String → List String → Option String
resolve [] addresses = none
resolve (a ∷ recovered) addresses =
    if includes a addresses then some a else resolve recovered addresses

unfoldable pub is_payer : Headers → String → Bool
is_payer headers signed = elim headers.payer [ none ↦ false | some payer ↦ str_eq payer signed ]

module _ (services : Services) (tx : Container) where
  -- The addresses of the authorities on an EVM chain; `none` where one cannot be parsed.
  unfoldable pub evm_addresses : Option (List String)
  evm_addresses = all_some (
      map services.evm_address (
        filter (λ e. starts_with e "did:pkh:eip155") (map without_query tx.headers.required_auths)))

  unfoldable pub recover_eip191 : String → Checked String
  recover_eip191 s = elim (services.recover tx s) [
    | none ↦ thrown
    | some recovered ↦ elim evm_addresses [
      | none ↦ thrown
      | some addresses ↦ elim (resolve recovered addresses) [
        | none ↦ invalid incorrect_sig
        | some address ↦ ok (cat "did:pkh:eip155:1:" address)
      ]
    ]
  ]

  unfoldable pub recover_jws : Sig → String → Checked String
  recover_jws sig cid = elim (services.verify_jws sig cid) [
    | none ↦ invalid incorrect_sig
    | some signed ↦
        if includes signed (map without_query tx.headers.required_auths)
          || is_payer tx.headers signed
        then ok signed
        else invalid wrong_auth
  ]

  -- What one signature adds to `recoveredAuths`.
  unfoldable pub recovered_auth : String → Sig → Checked String
  recovered_auth cid (eip191 s) = recover_eip191 s
  recovered_auth cid (jws alg kid sig) = recover_jws (jws alg kid sig) cid

  -- `recoveredAuths` is empty again at each signature.
  unfoldable pub covers : String → List String → Bool
  covers signer [] = true
  covers signer (auth ∷ auths) = str_eq signer auth && covers signer auths

  unfoldable pub verify_sigs : String → List Sig → Checked Unit
  verify_sigs cid [] = ok tt
  verify_sigs cid (sig ∷ sigs) = elim (recovered_auth cid sig) [
    | thrown ↦ thrown
    | invalid e ↦ invalid e
    | ok signer ↦
        let rest = verify_sigs cid sigs in
        if covers signer tx.headers.required_auths then rest else invalid missing_auth
  ]

-- The check of the decoded bytes of a transaction.
unfoldable pub verify_raw : Services → String → String → Checked Unit
verify_raw services raw sig = elim (services.decode raw) [
  | none ↦ thrown
  | some container ↦ elim (services.decode_sigs (services.of_base64 sig)) [
    | none ↦ thrown
    | some sigs ↦ verify_sigs services container (services.cid_of raw) sigs
  ]
]

unfoldable pub verify_tx_signature : Services → String → String → Checked Unit
verify_tx_signature services tx sig = verify_raw services (services.of_base64 tx) sig
