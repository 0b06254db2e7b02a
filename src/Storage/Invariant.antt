-- ===== src/Storage/Invariant.antt =====
-- The invariant of models/MessageStorage.go: the comment on `MessageStorage` says that a clock is
-- the number of the origin's rumors, and `AddRumorMessage` keeps more than that.
use decentralized_peerster.Common.{
  ℕ, zero, suc, ◌%◌, ◌<◌, ◌≡◌, refl, ite, List, [], ◌∷◌, ◌++◌, some, arith, string_discrete,
  string_key, String, get_elem?, length, length-append, inl, inr, ◌⊎◌,
}
use mathlib.Core.List.{append-nil}
use decentralized_peerster.Map.{IsMap, insert-IsMap, lookup}
use decentralized_peerster.Models.{RumorMessage, inc32, u32_mod}
use decentralized_peerster.Storage.{
  MessageStorage, init_message_storage, clock_of, messages_of, is_new_message, add_rumor_message,
}
use decentralized_peerster.Storage.Laws.{
  clock_of-add, messages_of-add, vector_clock-add, chron_order-add,
}

-- The rumors that a frontend would attribute to one origin, and those that are no route rumors.
abbrev pub by_origin : String → List RumorMessage → List RumorMessage
by_origin name [] = []
by_origin name (m ∷ ms) =
    ite (string_discrete m.original_name name) (m ∷ by_origin name ms) (by_origin name ms)

abbrev pub non_empty : List RumorMessage → List RumorMessage
non_empty [] = []
non_empty (m ∷ ms) = ite (string_discrete m.text "") (non_empty ms) (m ∷ non_empty ms)

-- The rumor at index i of an origin is the origin's and has the (i + 1)-th id.
abbrev pub InTurn : String → List RumorMessage → Type 0
InTurn name ms =
    (i : ℕ) (m : RumorMessage)
    → get_elem? ms i ≡ some m
    → (m.original_name ≡ name) × (m.id ≡ inc32 i)

pub record IsValid (ms : MessageStorage) : Type 0 where
  pub one_clock : IsMap ms.vector_clock
  pub clock : (name : String) → clock_of ms name ≡ length (messages_of ms name) % u32_mod
  pub in_turn : (name : String) → InTurn name (messages_of ms name)
  pub chronicle :
      (name : String)
      → by_origin name ms.non_empty_messages_chron_order ≡ non_empty (messages_of ms name)

by_origin-append :
    (name : String) (xs ys : List RumorMessage)
    → by_origin name (xs ++ ys) ≡ by_origin name xs ++ by_origin name ys
by_origin-append name [] ys = refl
by_origin-append name (x ∷ xs) ys = ground (arith, by_origin-append name xs ys)

non_empty-append : (xs ys : List RumorMessage) → non_empty (xs ++ ys) ≡ non_empty xs ++ non_empty ys
non_empty-append [] ys = refl
non_empty-append (x ∷ xs) ys = ground (arith, non_empty-append xs ys)

get_elem?-append_one :
    (xs : List RumorMessage) (x : RumorMessage) (i : ℕ) (y : RumorMessage)
    → get_elem? (xs ++ x ∷ []) i ≡ some y
    → (get_elem? xs i ≡ some y) ⊎ ((i ≡ length xs) × (x ≡ y))
get_elem?-append_one [] x zero y h = inr (refl, cc)
get_elem?-append_one [] x (suc i) y h = absurd (cc)
get_elem?-append_one (z ∷ xs) x zero y h = inl h
get_elem?-append_one (z ∷ xs) x (suc i) y h = ground (arith, get_elem?-append_one xs x i y h)

-- The new storage is valid.
pub init_message_storage-IsValid : IsValid init_message_storage
unfolding lookup
init_message_storage-IsValid = record {
  one_clock = tt;
  clock = λ name. refl;
  in_turn = λ name i m e. absurd (cc);
  chronicle = λ name. refl;
}

module _ (ms : MessageStorage) (rmsg : RumorMessage) (u32 : rmsg.id < u32_mod)
    (v : IsValid ms) where
  one_clock-add : IsMap (add_rumor_message ms rmsg).0.vector_clock
  one_clock-add = rw vector_clock-add (
      ground (
        arith,
        v.one_clock,
        insert-IsMap rmsg.original_name (inc32 (clock_of ms rmsg.original_name)) ms.vector_clock,
      ))

  clock-add :
      (name : String)
      → clock_of (add_rumor_message ms rmsg).0 name
        ≡ length (messages_of (add_rumor_message ms rmsg).0 name) % u32_mod
  clock-add name =
      rw (clock_of-add, messages_of-add)
        (ground (arith, v.clock name, length-append (messages_of ms name) (rmsg ∷ [])))

  InTurn-add : (name : String) → InTurn name (messages_of (add_rumor_message ms rmsg).0 name)
  unfolding is_new_message
  InTurn-add name = rw messages_of-add λ i m e.
      ground (
        arith,
        v.clock name,
        v.in_turn name i m,
        get_elem?-append_one (messages_of ms name) rmsg i m,
      )

  chronicle-add :
      (name : String)
      → by_origin name (add_rumor_message ms rmsg).0.non_empty_messages_chron_order
        ≡ non_empty (messages_of (add_rumor_message ms rmsg).0 name)
  chronicle-add name =
      rw (messages_of-add, chron_order-add)
        (ground (
          arith,
          v.chronicle name,
          by_origin-append name ms.non_empty_messages_chron_order (rmsg ∷ []),
          non_empty-append (messages_of ms name) (rmsg ∷ []),
          append-nil (by_origin name ms.non_empty_messages_chron_order),
          append-nil (non_empty (messages_of ms name)),
        ))

-- AddRumorMessage of a message with a uint32 id keeps the storage valid: one clock for a name,
-- each clock the number of the origin's rumors as a uint32, the rumor at index i the origin's and
-- with id i + 1 as a uint32, and the chronicle of an origin its non-empty rumors in order.
pub add_rumor_message-IsValid :
    (ms : MessageStorage) (rmsg : RumorMessage)
    → rmsg.id < u32_mod
    → IsValid ms
    → IsValid (add_rumor_message ms rmsg).0
add_rumor_message-IsValid ms rmsg u32 v = record {
  one_clock = one_clock-add ms rmsg u32 v;
  clock = clock-add ms rmsg u32 v;
  in_turn = InTurn-add ms rmsg u32 v;
  chronicle = chronicle-add ms rmsg u32 v;
}
