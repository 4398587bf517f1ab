-- ===== src/Vm/State.antt =====
-- class StateCache of services/new/vm/vm-runner.ts: a contract's state, with the writes of the
-- current operation apart. A deleted or missing value is null: `none`. IPFS is a parameter.
use vsc_node.Prelude.{String, [], ◌∷◌, Option, none, some, Dict, lookup, insert}

pub record StateCache : Type 0 where
  pub state_cache : Dict (Option String)
  pub op_cache : Dict (Option String)

unfoldable pub new_state : StateCache
new_state = record { state_cache = []; op_cache = [] }

-- `set` of each entry of one map in another
unfoldable pub copy_entries : Dict (Option String) → Dict (Option String) → Dict (Option String)
copy_entries [] into = into
copy_entries ((key, val) ∷ entries) into = copy_entries entries (insert key val into)

unfoldable pub finish_state : StateCache → StateCache
finish_state s = record { state_cache = copy_entries s.op_cache s.state_cache; op_cache = [] }

unfoldable pub revert_state : StateCache → StateCache
revert_state s = record s { op_cache = [] }

unfoldable pub set_key : String → Option String → StateCache → StateCache
set_key key val s = record s { op_cache = insert key val s.op_cache }

unfoldable pub del_key : String → StateCache → StateCache
del_key key s = record s { op_cache = insert key none s.op_cache }

-- `stored` is the private `#get`, which reads the state in IPFS.
module _ (stored : String → Option String) where
  unfoldable pub get_key : String → StateCache → Option String × StateCache
  get_key key s = elim (lookup key s.op_cache) [
    | some val ↦ (val, s)
    | none ↦ elim (lookup key s.state_cache) [
      | some val ↦ (val, s)
      | none ↦ (stored key, record s { state_cache = insert key (stored key) s.state_cache })
    ]
  ]
