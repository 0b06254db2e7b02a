-- ===== src/Storage/Laws.antt =====
-- What AddRumorMessage and AddPrivateMessage (models/MessageStorage.go) do to each part of the
-- storage, on every branch.
use decentralized_peerster.Common.{
  ℕ, String, ◌≡◌, ite, true, false, List, [], ◌∷◌, ◌++◌, arith, string_discrete, string_key,
  if◌then◌else◌,
}
use decentralized_peerster.Map.{lookup-insert, insert}
use decentralized_peerster.Models.{RumorMessage, inc32}
use decentralized_peerster.Storage.{
  MessageStorage, clock_of, messages_of, is_new_message, ensure_origin, store_rumor,
  add_rumor_message,
}

messages_of-ensure_origin :
    (ms : MessageStorage) (origin name : String)
    → messages_of (ensure_origin origin ms) name ≡ messages_of ms name
unfolding ensure_origin
messages_of-ensure_origin ms origin name =
    ground (arith, lookup-insert {V = List RumorMessage} origin name [] ms.rumor_messages)

clock_of-ensure_origin :
    (ms : MessageStorage) (origin name : String)
    → clock_of (ensure_origin origin ms) name ≡ clock_of ms name
unfolding ensure_origin
clock_of-ensure_origin ms origin name = ground arith

module _ (ms : MessageStorage) (rmsg : RumorMessage) where
  clock_of-store_rumor :
      (name : String)
      → clock_of (store_rumor rmsg ms) name
        ≡ ite
            (string_discrete rmsg.original_name name)
            (inc32 (clock_of ms name))
            (clock_of ms name)
  unfolding store_rumor
  clock_of-store_rumor name = ground (
    arith,
    lookup-insert {V = ℕ} rmsg.original_name name (inc32 (clock_of ms rmsg.original_name))
        ms.vector_clock,
  )

  messages_of-store_rumor :
      (name : String)
      → messages_of (store_rumor rmsg ms) name
        ≡ ite
            (string_discrete rmsg.original_name name)
            (messages_of ms name ++ rmsg ∷ [])
            (messages_of ms name)
  unfolding store_rumor
  messages_of-store_rumor name = ground (
    arith,
    lookup-insert {V = List RumorMessage} rmsg.original_name name
        (messages_of ms rmsg.original_name ++ rmsg ∷ []) ms.rumor_messages,
  )

module _ (ms : MessageStorage) (rmsg : RumorMessage) where
  -- AddRumorMessage in terms of IsNewMessage.
  add_rumor_message-branches : add_rumor_message ms rmsg ≡ (
      if is_new_message ms rmsg
      then (store_rumor rmsg (ensure_origin rmsg.original_name ms), true)
      else (ensure_origin rmsg.original_name ms, false))
  unfolding add_rumor_message is_new_message ensure_origin
  add_rumor_message-branches = ground arith

  -- AddRumorMessage returns true exactly for the messages that IsNewMessage calls new beforehand.
  pub add_rumor_message-is_new : (add_rumor_message ms rmsg).1 ≡ is_new_message ms rmsg
  add_rumor_message-is_new = rw add_rumor_message-branches (ground arith)

  pub clock_of-add :
      (name : String)
      → clock_of (add_rumor_message ms rmsg).0 name ≡ (
          if is_new_message ms rmsg
          then ite
              (string_discrete rmsg.original_name name)
              (inc32 (clock_of ms name))
              (clock_of ms name)
          else clock_of ms name)
  clock_of-add name = rw add_rumor_message-branches (
      ground (
        arith,
        clock_of-ensure_origin ms rmsg.original_name name,
        clock_of-store_rumor (ensure_origin rmsg.original_name ms) rmsg name,
      ))

  pub messages_of-add :
      (name : String)
      → messages_of (add_rumor_message ms rmsg).0 name ≡ (
          if is_new_message ms rmsg
          then ite
              (string_discrete rmsg.original_name name)
              (messages_of ms name ++ rmsg ∷ [])
              (messages_of ms name)
          else messages_of ms name)
  messages_of-add name = rw add_rumor_message-branches (
      ground (
        arith,
        messages_of-ensure_origin ms rmsg.original_name name,
        messages_of-store_rumor (ensure_origin rmsg.original_name ms) rmsg name,
      ))

  pub vector_clock-add : (add_rumor_message ms rmsg).0.vector_clock ≡ (
      if is_new_message ms rmsg
      then insert rmsg.original_name (inc32 (clock_of ms rmsg.original_name)) ms.vector_clock
      else ms.vector_clock)
  unfolding store_rumor ensure_origin
  vector_clock-add = rw add_rumor_message-branches (ground arith)

  pub chron_order-add : (add_rumor_message ms rmsg).0.non_empty_messages_chron_order ≡ (
      if is_new_message ms rmsg
      then ite
          (string_discrete rmsg.text "")
          ms.non_empty_messages_chron_order
          (ms.non_empty_messages_chron_order ++ rmsg ∷ [])
      else ms.non_empty_messages_chron_order)
  unfolding store_rumor ensure_origin
  chron_order-add = rw add_rumor_message-branches (ground arith)

  pub private_messages-add : (add_rumor_message ms rmsg).0.private_messages ≡ ms.private_messages
  unfolding store_rumor ensure_origin
  private_messages-add = rw add_rumor_message-branches (ground arith)
