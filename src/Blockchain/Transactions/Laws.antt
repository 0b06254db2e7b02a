-- ===== src/Blockchain/Transactions/Laws.antt =====
-- Lookups after each operation of models/blockchain/TransactionsSet.go.
use decentralized_peerster.Common.{
  ◌≡◌, refl, Bool, true, false, ◌&&◌, ◌||◌, not, List, [], ◌∷◌, Option, none, some, String,
  string_key, string_discrete, ite, if◌then◌else◌, arith,
}
use decentralized_peerster.Map.{
  Map, lookup, insert, delete, lookup-insert, lookup-delete, IsMap, insert-IsMap, delete-IsMap,
}
use decentralized_peerster.Models.{TxPublish}
use decentralized_peerster.Blockchain.Transactions.{
  TransactionsSet, is_some, contains_filename, add, add_name, add_names, loop_variable, point_all,
  init_from_slice, union, subtract,
}

-- Is one of the transactions a claim to this file name?
abbrev pub mentions : String → List TxPublish → Bool
mentions name [] = false
mentions name (tx ∷ s) = ite (string_discrete tx.file.name name) true (mentions name s)

abbrev pub or_else : Option TxPublish → Option TxPublish → Option TxPublish
or_else none d = d
or_else (some t) d = some t

-- A union holds the other set's transaction where both sets have the name.
pub lookup-union :
    (name : String) (ts other : TransactionsSet)
    → IsMap other
    → lookup name (union ts other) ≡ or_else (lookup name other) (lookup name ts)
unfolding union lookup
lookup-union name ts [] h = refl
lookup-union name ts ((k, tx) ∷ other) h = ground (
  arith,
  lookup-union name (insert k tx ts) other h.1,
  lookup-insert {V = TxPublish} k name tx ts,
  h.0,
)

-- A difference holds what is under the names that the other set lacks.
pub lookup-subtract :
    (name : String) (ts other : TransactionsSet)
    → lookup name (subtract ts other)
      ≡ (if contains_filename other name then none else lookup name ts)
unfolding subtract contains_filename lookup
lookup-subtract name ts [] = refl
lookup-subtract name ts ((k, tx) ∷ other) = ground (
  arith,
  lookup-subtract name (if is_some (lookup k ts) then delete k ts else ts) other,
  lookup-delete {V = TxPublish} k name ts,
)

pub union-IsMap : (ts other : TransactionsSet) → IsMap ts → IsMap (union ts other)
unfolding union
union-IsMap ts [] h = h
union-IsMap ts ((k, tx) ∷ other) h = union-IsMap (insert k tx ts) other (insert-IsMap k tx ts h)

pub subtract-IsMap : (ts other : TransactionsSet) → IsMap ts → IsMap (subtract ts other)
unfolding subtract
subtract-IsMap ts [] h = h
subtract-IsMap ts ((k, tx) ∷ other) h =
    subtract-IsMap (if is_some (lookup k ts) then delete k ts else ts) other
      (ground (arith, delete-IsMap k ts h, h))

pub lookup-add :
    (name : String) (ts : TransactionsSet) (tx : TxPublish)
    → lookup name (add ts tx).0
      ≡ or_else (lookup name ts) (ite (string_discrete tx.file.name name) (some tx) none)
unfolding add
lookup-add name ts tx = ground (arith, lookup-insert {V = TxPublish} tx.file.name name tx ts)

pub add-IsMap : (ts : TransactionsSet) (tx : TxPublish) → IsMap ts → IsMap (add ts tx).0
unfolding add
add-IsMap ts tx h = ground (arith, insert-IsMap tx.file.name tx ts h, h)

lookup-add_names :
    (name : String) (s : List TxPublish) (names : Map String (Unit {0}))
    → is_some (lookup name (add_names s names)) ≡ (mentions name s || is_some (lookup name names))
unfolding add_names add_name
lookup-add_names name [] names = refl
lookup-add_names name (tx ∷ s) names = ground (
  arith,
  lookup-add_names name s (add_name tx.file.name names),
  lookup-insert {V = Unit {0}} tx.file.name name tt names,
)

lookup-point_all :
    (name : String) (tx : TxPublish) (names : Map String (Unit {0}))
    → lookup name (point_all (some tx) names)
      ≡ (if is_some (lookup name names) then some tx else none)
unfolding point_all lookup
lookup-point_all name tx [] = refl
lookup-point_all name tx ((k, u) ∷ names) = ground (arith, lookup-point_all name tx names)

abbrev pub last_tx : TxPublish → List TxPublish → TxPublish
last_tx t [] = t
last_tx t (u ∷ s) = last_tx u s

loop_variable-last :
    (t : TxPublish) (s : List TxPublish) → loop_variable s (some t) ≡ some (last_tx t s)
loop_variable-last t [] = refl
loop_variable-last t (u ∷ s) = loop_variable-last u s

-- In the set that InitFromSlice makes of a non-empty list of transactions, every file name that
-- the list mentions stands for the last transaction of the list, and no other name is there.
pub lookup-init_from_slice :
    (name : String) (t : TxPublish) (s : List TxPublish)
    → lookup name (init_from_slice (t ∷ s))
      ≡ (if mentions name (t ∷ s) then some (last_tx t s) else none)
unfolding init_from_slice
lookup-init_from_slice name t s =
    rw (loop_variable-last t s, lookup-point_all name (last_tx t s) (add_names (t ∷ s) []))
      (rw (lookup-add_names name (t ∷ s) []) (unfold lookup in ground arith))

pub contains_filename-init_from_slice :
    (name : String) (s : List TxPublish)
    → contains_filename (init_from_slice s) name ≡ mentions name s
unfolding contains_filename
contains_filename-init_from_slice name [] = unfold init_from_slice lookup in refl
contains_filename-init_from_slice name (t ∷ s) = ground (arith, lookup-init_from_slice name t s)

add_names-IsMap :
    (s : List TxPublish) (names : Map String (Unit {0})) → IsMap names → IsMap (add_names s names)
unfolding add_names add_name
add_names-IsMap [] names h = h
add_names-IsMap (tx ∷ s) names h =
    add_names-IsMap s (add_name tx.file.name names)
      (ground (arith, insert-IsMap tx.file.name tt names h, h))

point_all-IsMap :
    (tx : Option TxPublish) (names : Map String (Unit {0}))
    → IsMap names
    → IsMap (point_all tx names)
unfolding point_all lookup
point_all-IsMap none names h = tt
point_all-IsMap (some tx) [] h = tt
point_all-IsMap (some tx) ((k, u) ∷ names) h =
    (ground (arith, h.0, lookup-point_all k tx names), point_all-IsMap (some tx) names h.1)

pub init_from_slice-IsMap : (s : List TxPublish) → IsMap (init_from_slice s)
unfolding init_from_slice lookup
init_from_slice-IsMap s =
    point_all-IsMap (loop_variable s none) (add_names s []) (add_names-IsMap s [] tt)

module _ (name : String) (ts : TransactionsSet) (s : List TxPublish) where
  pub contains-union :
      contains_filename (union ts (init_from_slice s)) name
      ≡ (contains_filename ts name || mentions name s)
  unfolding contains_filename
  contains-union = ground (
    arith,
    lookup-union name ts (init_from_slice s) (init_from_slice-IsMap s),
    contains_filename-init_from_slice name s,
  )

  pub contains-subtract :
      contains_filename (subtract ts (init_from_slice s)) name
      ≡ (contains_filename ts name && not (mentions name s))
  unfolding contains_filename
  contains-subtract =
      ground (
        arith,
        lookup-subtract name ts (init_from_slice s),
        contains_filename-init_from_slice name s,
      )
