-- ===== src/Pool/Sole.antt =====
-- What a transaction that passes verifyTxSignature of services/new/transactionPool.ts has shown.
use vsc_node.Prelude.{
  String, ◌≡◌, ◌⊎◌, refl, sym, inl, inr, List, [], ◌∷◌, true, All, arith, eq_iff, Bool-cases,
}
use vsc_node.Pool.Store.{Container, Sig, Services}
use vsc_node.Pool.Signature.{
  Checked, thrown, invalid, ok, SigError, recovered_auth, covers, verify_sigs,
}

pub Checked-cases :
    {Val : Type 0} (c : Checked Val)
    → (c ≡ thrown) ⊎ (((e : SigError) × (c ≡ invalid e)) ⊎ ((v : Val) × (c ≡ ok v)))
Checked-cases thrown = inl refl
Checked-cases (invalid e) = inr (inl (e, refl))
Checked-cases (ok v) = inr (inr (v, refl))

module _ (services : Services) (tx : Container) where
  covers-All :
      (signer : String) (auths : List String)
      → covers services tx signer auths ≡ true
      → All (λ auth. auth ≡ signer) auths
  unfolding covers
  covers-All signer [] h = tt
  covers-All signer (auth ∷ auths) h =
      (sym ((eq_iff signer auth).0 (ground arith)), covers-All signer auths (ground arith))

  -- The signature is of one account, and that is each account that the transaction requires.
  abbrev pub IsSole : String → Sig → Type 0
  IsSole cid sig =
      (signer : String) × (recovered_auth services tx cid sig ≡ ok signer)
      × All (λ auth. auth ≡ signer) tx.headers.required_auths

  -- When verifyTxSignature accepts, each signature is of one account, and that account is the only
  -- one among those that the transaction requires.
  pub verify_sigs-IsSole :
      (cid : String) (sigs : List Sig)
      → verify_sigs services tx cid sigs ≡ ok tt
      → All (IsSole cid) sigs
  unfolding verify_sigs
  verify_sigs-IsSole cid [] h = tt
  verify_sigs-IsSole cid (sig ∷ sigs) h =
      elim (Checked-cases (recovered_auth services tx cid sig)) [
        | inl e ↦ ground arith
        | inr (inl (err, e)) ↦ ground arith
        | inr (inr (signer, e)) ↦
            elim (Bool-cases (covers services tx signer tx.headers.required_auths)) [
              | inl all ↦ (
                (signer, e, covers-All signer tx.headers.required_auths all),
                verify_sigs-IsSole cid sigs (ground arith),
              )
              | inr some_missing ↦ ground arith
            ]
      ]
