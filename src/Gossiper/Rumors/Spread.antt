-- ===== src/Gossiper/Rumors/Spread.antt =====
-- Two gossipers compare their storages: processAddressedStatusPacket at the one, and
-- processAddressedRumorMessage at the other (gossiper/Gossiper.go).
use decentralized_peerster.Common.{
  ◌++◌, ℕ, ◌≡◌, ◌<◌, ◌↔◌, refl, sym, ◌∙◌, ap, Bool, true, false, [], ◌∷◌, Option, none, some,
  String, string_discrete, string_key, ite, Outcome, ok, length, arith,
}
use decentralized_peerster.Map.{lookup}
use decentralized_peerster.Models.{RumorMessage, inc32}
use decentralized_peerster.Storage.{
  messages_of, MessageStorage, clock_of, diff, is_new_message, get_current_status_packet,
}
use decentralized_peerster.Storage.Invariant.{IsValid}
use decentralized_peerster.Storage.Diff.{diff-DiffSpec}
use decentralized_peerster.Storage.Laws.{add_rumor_message-is_new}
use decentralized_peerster.Storage.Sync.{diff-add_rumor_message, diff_in_sync}
use decentralized_peerster.Gossiper.{Address, Gossiper, Sends}
use decentralized_peerster.Gossiper.Rumors.{
  rumor_packet, status_packet, spread_to, process_addressed_status_packet,
  process_addressed_rumor_message,
}
use decentralized_peerster.Gossiper.Rumors.Waiting.{process_addressed_rumor_message-Received}

-- What was sent, if the step did not fail.
abbrev pub sent_by : Outcome (Gossiper × Sends) → Sends
sent_by (Outcome.ok x) = x.1
sent_by _ = []

abbrev first_rumor : Sends → Option RumorMessage
first_rumor [] = none
first_rumor ((_, gp) ∷ _) = gp.rumor

module _ (g : Gossiper) (b : MessageStorage) (address : Address) (va : IsValid g.message_storage)
    (vb : IsValid b) (idle : lookup address g.status_channels ≡ none) where
  -- The answer of the message processor, by what Diff gives.
  abbrev answer : Option RumorMessage → Bool → Outcome (Gossiper × Sends)
  answer (some rmsg) f = ok (spread_to g rmsg address)
  answer none true =
      ok (g, (address, status_packet (get_current_status_packet g.message_storage)) ∷ [])
  answer none false = ok (g, [])

  run_status :
      (m : Option RumorMessage) (f : Bool)
      → diff g.message_storage (get_current_status_packet b) ≡ ok (m, f)
      → process_addressed_status_packet g (get_current_status_packet b) address ≡ answer m f
  unfolding process_addressed_status_packet
  run_status none true e = rw (process_addressed_status_packet, idle) (rw e refl)
  run_status none false e = rw (process_addressed_status_packet, idle) (rw e refl)
  run_status (some m) f e = rw (process_addressed_status_packet, idle) (rw e refl)

  sent_rumor :
      (rmsg : RumorMessage) → (spread_to g rmsg address).1 ≡ (address, rumor_packet rmsg) ∷ []
  unfolding spread_to
  sent_rumor rmsg = rw (spread_to, idle) refl

  quiet_answer :
      (m : Option RumorMessage) (f : Bool) → sent_by (answer m f) ≡ [] → (m ≡ none) × (f ≡ false)
  quiet_answer none true e = absurd (cc)
  quiet_answer none false e = (refl, refl)
  quiet_answer (some m) f e = let sent = sent_rumor m in absurd (cc)

  -- For two gossipers with valid storages, where no goroutine waits for the other's status, the
  -- status that arrives is answered with no packet exactly if the clocks of the two agree on every
  -- origin.
  pub status_answered :
      (sent_by (process_addressed_status_packet g (get_current_status_packet b) address) ≡ [])
      ↔ ((name : String) → clock_of g.message_storage name ≡ clock_of b name)
  status_answered =
      let (m, f, e, _) = diff-DiffSpec g.message_storage (get_current_status_packet b) va in
      let run = run_status m f e in
      (
        λ quiet name.
            let (nothing, level) = quiet_answer m f (ap sent_by (sym run) ∙ quiet) in
            (diff_in_sync g.message_storage b va vb).0 (rw (nothing, level) at e) name,
        λ agree. rw (run_status none false ((diff_in_sync g.message_storage b va vb).1 agree)) refl,
      )

  picked :
      (m : Option RumorMessage) (f : Bool) (rmsg : RumorMessage)
      → sent_by (answer m f) ≡ (address, rumor_packet rmsg) ∷ []
      → m ≡ some rmsg
  picked none true rmsg e = ap first_rumor e
  picked none false rmsg e = ap first_rumor e
  picked (some m) f rmsg e = sym (ap first_rumor (sent_rumor m)) ∙ ap first_rumor e

module _ (g h : Gossiper) (address from : Address) (va : IsValid g.message_storage)
    (vb : IsValid h.message_storage) (idle : lookup address g.status_channels ≡ none) where
  -- Let the storages of two gossipers be valid, let no goroutine of the first wait for the second,
  -- and let the second have a peer for its random number. If the first answers the second's status
  -- with a rumor, then the second, when the rumor comes, ends without a panic, appends the rumor
  -- to those of its origin and changes no other origin's, which advances its clock by one (as a
  -- uint32) for that origin and for no other, and has the first as its next hop for this origin.
  pub status_then_rumor :
      (rmsg : RumorMessage) (random : ℕ)
      → random < length h.peers
      → sent_by
          (process_addressed_status_packet g (get_current_status_packet h.message_storage) address)
        ≡ (address, rumor_packet rmsg) ∷ []
      → (h' : Gossiper) × (sent : Sends) × (process_addressed_rumor_message h rmsg from random
          ≡ ok (h', sent))
        × ((name : String)
            → clock_of h'.message_storage name
              ≡ ite
                  (string_discrete rmsg.original_name name)
                  (inc32 (clock_of h.message_storage name))
                  (clock_of h.message_storage name))
        × ((name : String)
            → messages_of h'.message_storage name
              ≡ ite
                  (string_discrete rmsg.original_name name)
                  (messages_of h.message_storage name ++ rmsg ∷ [])
                  (messages_of h.message_storage name))
        × (lookup rmsg.original_name h'.next_hop ≡ some from)
  status_then_rumor rmsg random lt answered =
      let b = h.message_storage in
      let (m, f, e, _) = diff-DiffSpec g.message_storage (get_current_status_packet b) va in
      let run = run_status g b address va vb idle m f e in
      let same = picked g b address va vb idle m f rmsg (ap sent_by (sym run) ∙ answered) in
      let (stored, clocks, kept) =
        diff-add_rumor_message g.message_storage b va vb rmsg f (rw same at e) in
      let new : is_new_message b rmsg ≡ true = sym (add_rumor_message-is_new b rmsg) ∙ stored in
      let (peer, _, h', sent, run', received) =
        process_addressed_rumor_message-Received h rmsg from random lt in
      (
        h',
        sent,
        run',
        λ name. rw received.storage (clocks name),
        λ name. rw received.storage (kept name),
        ground (arith, received.routes rmsg.original_name, new),
      )
