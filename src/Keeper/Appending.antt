-- ===== src/Keeper/Appending.antt =====
-- The ledger with one more entry: balanceKeeper.ts adds each entry of a block under its own id.
use vsc_node.Prelude.{
  ℕ, String, ◌≡◌, refl, sym, ap, ◌∙◌, List, [], ◌∷◌, ◌++◌, Bool, false, ◌||◌, str_eq, if◌then◌else◌,
  arith, eq_iff,
}
use vsc_node.Prelude.Int.{ℤ, pos, ◌+ℤ◌, +ℤ_assoc, +ℤ_zero, zero_+ℤ}
use vsc_node.Ledger.Types.{Token}
use vsc_node.Keeper.Store.{LedgerEntry, counts, ledger_sum}
use vsc_node.Keeper.Events.{upsert_entry}

-- An entry with the id is in the ledger.
unfoldable pub has_id : String → List LedgerEntry → Bool
has_id id [] = false
has_id id (e ∷ db) = str_eq e.id id || has_id id db

unfoldable pub is_among : String → List String → Bool
is_among id [] = false
is_among id (j ∷ ids) = str_eq j id || is_among id ids

-- Ids that differ from each other and from those in the ledger.
unfoldable pub IsFresh : List String → List LedgerEntry → Type 0
IsFresh [] db = Unit
IsFresh (id ∷ ids) db = (has_id id db ≡ false) × (is_among id ids ≡ false) × IsFresh ids db

-- The ledger's share of an entry in a sum.
abbrev pub entry_share : String → Token → ℕ → LedgerEntry → ℤ
entry_share account tk height e = if counts account tk height e then e.amount else pos 0

pub upsert-append :
    (e : LedgerEntry) (db : List LedgerEntry)
    → has_id e.id db ≡ false
    → upsert_entry e db ≡ db ++ e ∷ []
unfolding upsert_entry has_id
upsert-append e [] h = refl
upsert-append e (f ∷ db) h =
    let other : str_eq f.id e.id ≡ false = ground arith in
    rw other (ap (λ l. f ∷ l) (upsert-append e db (ground arith)))

pub sum-append :
    (account : String) (tk : Token) (height : ℕ) (db : List LedgerEntry) (e : LedgerEntry)
    → ledger_sum account tk height (db ++ e ∷ [])
      ≡ ledger_sum account tk height db +ℤ entry_share account tk height e
unfolding ledger_sum
sum-append account tk height [] e =
    +ℤ_zero (entry_share account tk height e) ∙ sym (zero_+ℤ (entry_share account tk height e))
sum-append account tk height (f ∷ db) e =
    rw (sum-append account tk height db e) (sym (+ℤ_assoc (entry_share account tk height f) _ _))

has_id-append :
    (id : String) (db : List LedgerEntry) (e : LedgerEntry)
    → has_id id db ≡ false
    → str_eq e.id id ≡ false
    → has_id id (db ++ e ∷ []) ≡ false
unfolding has_id
has_id-append id [] e h h' = ground arith
has_id-append id (f ∷ db) e h h' = ground (arith, has_id-append id db e)

pub append-IsFresh :
    (ids : List String) (db : List LedgerEntry) (e : LedgerEntry)
    → IsFresh ids db
    → is_among e.id ids ≡ false
    → IsFresh ids (db ++ e ∷ [])
unfolding IsFresh is_among
append-IsFresh [] db e h h' = tt
append-IsFresh (id ∷ ids) db e (h, d, hs) h' = (
  has_id-append id db e h (ground (arith, eq_iff e.id id, eq_iff id e.id)),
  d,
  append-IsFresh ids db e hs (ground arith),
)
