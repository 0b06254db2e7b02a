-- ===== src/Gossiper/Channels.antt =====
-- gossiper/Gossiper.go, processAddressedStatusPacket, spreadTheRumor and startRumorMongeringThread
-- below a whole step: the mutex statusesChannelsMux, the map statusesChannels, and the goroutines
-- that wait on the unbuffered channels in it. A thread is a number: 0 is the message processor, and
-- the others are the goroutines, each with the channel that it waits on.
pub mod Claims
pub mod Entries
pub mod Consistent
pub mod Stuck
use decentralized_peerster.Common.{
  ℕ, zero, suc, ◌+◌, ◌≡◌, ◌≢◌, List, [], Option, none, some, ite, ℕ_discrete, string_key,
}
use decentralized_peerster.Map.{Map, lookup, insert, delete}
use decentralized_peerster.Gossiper.{Address}

-- Where a thread stands. `free` is code that neither holds the mutex nor waits for it or for a
-- status; `unborn` is a goroutine that is not started.
pub data Place : Type 0 where
  unborn : Place
  free : Place
  ended : Place
  wants_status : Address → Place
  has_status : Address → Place
  sending : Address → ℕ → Place
  sent : Address → Place
  wants_spread : Address → Place
  has_spread : Address → Place
  starting : Address → ℕ → Place
  selecting : Address → Place
  timed_out : Address → Place
  cleaning : Address → Place

-- `owner` holds the mutex. An entry of `channels` is the goroutine that waits on the channel, and
-- `fresh` numbers the next one.
pub record System : Type 0 where
  pub owner : Option ℕ
  pub channels : Map Address ℕ
  pub fresh : ℕ
  pub place : ℕ → Place

abbrev pub move : ℕ → Place → (ℕ → Place) → ℕ → Place
move t p place u = ite (ℕ_discrete u t) p (place u)

-- After spreadTheRumor: a goroutine ends, and the message processor takes the next message.
abbrev pub rest : ℕ → Place
rest zero = free
rest (suc n) = ended

abbrev pub start : System
start = record {
  owner = none;
  channels = [];
  fresh = 1;
  place = λ t. ite (ℕ_discrete t 0) free unborn;
}

-- processAddressedStatusPacket
pub data StatusStep (s : System) : System → Type 0 where
  status_comes :
      (a : Address)
      → s.place 0 ≡ free
      → StatusStep s (record s { place = move 0 (wants_status a) s.place })
  status_locks :
      (a : Address)
      → s.place 0 ≡ wants_status a
      → s.owner ≡ none
      → StatusStep s (record s { owner = some 0; place = move 0 (has_status a) s.place })
  status_finds :
      (a : Address) (n : ℕ)
      → s.place 0 ≡ has_status a
      → lookup a s.channels ≡ some n
      → StatusStep s (record s { place = move 0 (sending a n) s.place })
  status_misses :
      (a : Address)
      → s.place 0 ≡ has_status a
      → lookup a s.channels ≡ none
      → StatusStep s (record s { owner = none; place = move 0 free s.place })
  status_sent :
      (a b : Address) (n : ℕ)
      → s.place 0 ≡ sending a n
      → s.place n ≡ selecting b
      → StatusStep s (record s { place = move n free (move 0 (sent a) s.place) })
  status_done :
      (a : Address)
      → s.place 0 ≡ sent a
      → StatusStep s
          (record s { owner = none; channels = delete a s.channels; place = move 0 free s.place })

-- spreadTheRumor
pub data SpreadStep (s : System) : System → Type 0 where
  spread_called :
      (t : ℕ) (a : Address)
      → s.place t ≡ free
      → SpreadStep s (record s { place = move t (wants_spread a) s.place })
  spread_locks :
      (t : ℕ) (a : Address)
      → s.place t ≡ wants_spread a
      → s.owner ≡ none
      → SpreadStep s (record s { owner = some t; place = move t (has_spread a) s.place })
  spread_busy :
      (t : ℕ) (a : Address) (n : ℕ)
      → s.place t ≡ has_spread a
      → lookup a s.channels ≡ some n
      → SpreadStep s (record s { owner = none; place = move t (rest t) s.place })
  spread_makes :
      (t : ℕ) (a : Address)
      → s.place t ≡ has_spread a
      → lookup a s.channels ≡ none
      → SpreadStep s (record s {
        owner = none;
        channels = insert a s.fresh s.channels;
        fresh = s.fresh + 1;
        place = move t (starting a s.fresh) s.place;
      })
  spread_starts :
      (t : ℕ) (a : Address) (n : ℕ)
      → s.place t ≡ starting a n
      → SpreadStep s (record s { place = move n (selecting a) (move t (rest t) s.place) })

-- startRumorMongeringThread
pub data WaitStep (s : System) : System → Type 0 where
  ticker_fires :
      (t : ℕ) (a : Address)
      → s.place t ≡ selecting a
      → WaitStep s (record s { place = move t (timed_out a) s.place })
  timeout_locks :
      (t : ℕ) (a : Address)
      → s.place t ≡ timed_out a
      → s.owner ≡ none
      → WaitStep s (record s { owner = some t; place = move t (cleaning a) s.place })
  timeout_cleans :
      (t : ℕ) (a : Address)
      → s.place t ≡ cleaning a
      → WaitStep s
          (record s { owner = none; channels = delete a s.channels; place = move t free s.place })
  goroutine_ends :
      (n : ℕ)
      → s.place (suc n) ≡ free
      → WaitStep s (record s { place = move (suc n) ended s.place })

pub data Step (s : System) : System → Type 0 where
  status : {r : System} → StatusStep s r → Step s r
  spread : {r : System} → SpreadStep s r → Step s r
  wait : {r : System} → WaitStep s r → Step s r

pub data Reach (s : System) : System → Type 0 where
  here : Reach s s
  later : {r u : System} → Reach s r → Step r u → Reach s u
