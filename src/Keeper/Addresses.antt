-- ===== src/Keeper/Addresses.antt =====
-- Where handleTxTick of services/new/witness/balanceKeeper.ts puts a deposit: its two regular
-- expressions, and the owner that a memo names. Numbers are the codes of characters.
use Prim.Native.Char.{code}
use Prim.Native.String.{String, ◌++◌ as cat, find as find_text, slice, len}
use vsc_node.Prelude.{
  ℕ, ◌+◌, List, [], ◌∷◌, Option, none, some, Bool, true, false, ◌&&◌, ◌||◌, ltb, leb, ◌==◌, length,
  starts_with, if◌then◌else◌,
}

unfoldable pub codes : String → List ℕ
codes String.[] = []
codes (String.◌∷◌ c s) = code c ∷ codes s

unfoldable pub is_within : ℕ → ℕ → ℕ → Bool
is_within low high c = leb low c && leb c high

unfoldable pub is_hex : ℕ → Bool
is_hex c = is_within b'0' b'9' c || is_within b'a' b'f' c || is_within b'A' b'F' c

unfoldable pub is_letter : ℕ → Bool
is_letter c = is_within b'a' b'z' c

unfoldable pub is_letter_or_digit : ℕ → Bool
is_letter_or_digit c = is_letter c || is_within b'0' b'9' c

unfoldable pub all_hex : List ℕ → Bool
all_hex [] = true
all_hex (c ∷ cs) = is_hex c && all_hex cs

-- '^(0x)?[0-9a-fA-F]{40}$'
unfoldable pub is_eth : String → Bool
is_eth s =
    let digits : String = if starts_with s "0x" then slice s 2 (len s) else s in
    length (codes digits) == 40 && all_hex (codes digits)

-- How many characters of a segment of a name there are after one more.
unfoldable pub next_count : ℕ → ℕ → ℕ
next_count n c = if c == b'.' then 0 else n + 1

-- Whether a character can follow `n` of a segment, the last of them a letter or a digit or not.
unfoldable pub is_next : ℕ → Bool → ℕ → Bool
is_next n ended c =
    if c == b'.'
    then leb 3 n && ended
    else if n == 0
    then is_letter c
    else is_letter_or_digit c || c == b'-'

-- Segments of three characters at least, apart by dots.
unfoldable pub are_segments : ℕ → Bool → List ℕ → Bool
are_segments n ended [] = leb 3 n && ended
are_segments n ended (c ∷ cs) =
    is_next n ended c && are_segments (next_count n c) (is_letter_or_digit c) cs

-- '^(?=.{3,16}$)[a-z][0-9a-z-]{1,}[0-9a-z](.[a-z][0-9a-z-]{1,}[0-9a-z]){0,}$', where the last dot is
-- one of a name.
unfoldable pub is_hive : String → Bool
is_hive s = is_within 3 16 (length (codes s)) && are_segments 0 false (codes s)

-- `s.replace(part, '')`
unfoldable pub remove_first : String → String → String
remove_first part s =
    let i = find_text s part in
    if leb i (len s) then cat (slice s 0 i) (slice s (i + len part) (len s)) else s

-- What a key of the decoded memo holds: nothing or null, a text, or something else, on which
-- `startsWith` is no function.
pub data MemoField : Type 0 where
  absent : MemoField
  text : String → MemoField
  other : MemoField

-- CONTRACT_DEPOSIT_START_BLOCK_HEIGHT
abbrev pub contract_deposit_start : ℕ
contract_deposit_start = 91007000

-- `checksum` is eip55.encode.
module _ (checksum : String → String) where
  unfoldable pub named_owner : ℕ → String → String → String
  named_owner height from to =
      let sender : String = cat "hive:" from in
      if starts_with to "did:key"
      then to
      else if starts_with to "did:pkh:eip155:1"
      then (if is_eth (remove_first "did:pkh:eip155:1:" to) then to else sender)
      else if starts_with to "@"
      then (let name = slice to 1 (len to) in if is_hive name then cat "hive:" name else sender)
      else if starts_with to "hive:"
      then (if is_hive (slice to 5 (len to)) then to else sender)
      else if starts_with to "vs4" && ltb contract_deposit_start height
      then to
      else if is_eth to
      then cat "did:pkh:eip155:1:" (checksum to)
      else sender

  -- The owner of a deposit; `none` is a TypeError.
  unfoldable pub normal_dest : ℕ → String → MemoField → Option String
  normal_dest height from absent = some (cat "hive:" from)
  normal_dest height from (text to) = some (named_owner height from to)
  normal_dest height from other = none
