-- ===== src/Blockchain/Transactions.antt =====
-- models/blockchain/TransactionsSet.go.
pub mod Laws
use decentralized_peerster.Common.{
  ◌≡◌, Bool, true, false, List, [], ◌∷◌, ◌++◌, Option, none, some, String, string_key, ite, map,
  if◌then◌else◌,
}
use decentralized_peerster.Map.{Map, lookup, insert, delete}
use decentralized_peerster.Models.{File, TxPublish}

-- filename -> tx. No transaction is changed after it was put into a set, so the pointers of the
-- source are read here: an entry holds the transaction itself.
abbrev pub TransactionsSet : Type 0
TransactionsSet = Map String TxPublish

abbrev pub init_empty : TransactionsSet
init_empty = []

abbrev pub is_some {ℓ} : {A : Type ℓ} → Option A → Bool
is_some none = false
is_some (some a) = true

unfoldable pub contains_filename : TransactionsSet → String → Bool
contains_filename ts filename = is_some (lookup filename ts)

unfoldable pub contains : TransactionsSet → TxPublish → Bool
unfolding contains_filename
contains ts tx = contains_filename ts tx.file.name

unfoldable pub add : TransactionsSet → TxPublish → TransactionsSet × Bool
add ts tx =
    if is_some (lookup tx.file.name ts) then (ts, false) else (insert tx.file.name tx ts, true)

-- The keys that the loop of `InitFromSlice` adds: `add` leaves a present key alone.
add_name : String → Map String (Unit {0}) → Map String (Unit {0})
add_name name names = if is_some (lookup name names) then names else insert name tt names

add_names : List TxPublish → Map String (Unit {0}) → Map String (Unit {0})
add_names [] names = names
add_names (tx ∷ s) names = add_names s (add_name tx.file.name names)

-- The loop variable `tx` of `for _, tx := range s` after the loop.
abbrev pub loop_variable : List TxPublish → Option TxPublish → Option TxPublish
loop_variable [] tx = tx
loop_variable (t ∷ s) tx = loop_variable s (some t)

point_all : Option TxPublish → Map String (Unit {0}) → TransactionsSet
point_all none names = []
point_all (some tx) names = map (λ e. (e.0, tx)) names

-- `ts.add(&tx)` stores the address of the loop variable. A loop of the Go of this repository,
-- which has no go.mod, has one variable for all its rounds, so every entry of the set shows what
-- the variable holds at the end.
unfoldable pub init_from_slice : List TxPublish → TransactionsSet
unfolding add_name add_names point_all
init_from_slice s = point_all (loop_variable s none) (add_names s [])

-- `for name, tx := range other.s { ts.s[name] = tx }`
unfoldable pub union : TransactionsSet → TransactionsSet → TransactionsSet
union ts [] = ts
union ts ((name, tx) ∷ other) = union (insert name tx ts) other

-- `for name := range other.s { if _, ok := ts.s[name]; ok { delete(ts.s, name) } }`
unfoldable pub subtract : TransactionsSet → TransactionsSet → TransactionsSet
subtract ts [] = ts
subtract ts ((name, tx) ∷ other) =
    subtract (if is_some (lookup name ts) then delete name ts else ts) other

unfoldable pub get_slice_copy : TransactionsSet → List TxPublish
get_slice_copy ts = map (λ e. e.1) ts

unfoldable pub is_empty : TransactionsSet → Bool
is_empty [] = true
is_empty (e ∷ ts) = false
