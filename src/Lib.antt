-- ===== src/Lib.antt =====
-- Peerster, a gossip messenger with file search and a name-claiming blockchain
-- (src/github.com/SubutaiBogatur/Peerster/ in the repository; paths below start there).
--
-- A gossiper is one process. The threads that read the UDP sockets put messages into channels, and
-- one thread, the message processor, takes them and calls a handler for each kind of message. The
-- handlers read and change the message storage, the routing table, the blockchain manager and the
-- current search, and put packets into the channel to the thread that writes to the peers. Beside
-- them run a goroutine for each rumor that waits for a status packet and for each download, one for
-- the search, and the mining thread. Each part of the state has a mutex, so a handler of the model
-- takes a state and gives the next one with the packets that it sent.
--
-- Models       models/CommunicationModels.go: the structs of the messages; an unsigned field is a
--              natural number, a pointer that may be nil an Option.
-- Map          Go's maps as association lists. `range`, whose order Go leaves open, walks the
--              list from its first entry; where a loop returns at its first round, as that of
--              getDataRequest, a number picks the entry.
-- Storage      models/MessageStorage.go: InitMessageStorage, GetNextMessageId,
--              GetCurrentStatusPacket, Diff, IsNewMessage, AddRumorMessage, AddPrivateMessage.
--              Laws is about single steps, Invariant about the clock, Theirs and Diff about the two
--              loops of Diff, and Sync and Converge about two storages.
-- Hashing      TxPublish.Hash, Block.Hash and IsGood of models/CommunicationModels.go, over a record
--              for SHA-256 and for the bytes of a string.
-- Blockchain   models/blockchain: Transactions (TransactionsSet.go), Nodes (BlockNode.go, on an
--              explicit heap, where a pointer is an index) and Manager (BlockchainManager.go). In
--              Manager, Links is about the hashes along a chain, Claims and Mined about the file
--              names, Exchange about two managers, and Printing is what it prints of a chain.
-- Search       models/filesearching: the current search request and its matches.
-- Files        models/filesharing/SharedFile.go and DownloadingFile.go: chunks and metafile of a
--              shared file, and the steps of a download. Sharing and Downloading are the two
--              managers, SharedFilesManager.go and DownloadingFilesManager.go. Transfer is a download
--              from one sharer, and Merkle is models/filesharing/merkletree.
-- Gossiper     gossiper/Gossiper.go: the state, the peers and the routing table. Routing has the
--              messages with a destination, Broadcast what goes to all peers, Budget and Searching
--              the search requests, Rumors rumor-mongering, and Downloads the goroutines that
--              download a file. A step of a goroutine is a function of the state: what its ticker
--              does, and what a message from its channel does. Mining is the mining thread. Channels
--              is the mutex, map and channels of rumor-mongering, where the threads take turns
--              inside the handlers. Dispatch has the handlers of the message processor; Frames, Safe,
--              Keeps and Clients are about one step, Runs about steps in any order, Integrity
--              about the answers to data requests, and Chains about the blocks. Threads is what
--              reads and writes the sockets, and the rounds of the message processor with what they
--              print.
-- Client       utils/send-utils/SendUtils.go, client/main.go, gossiper/RouteRumoringThread.go, and
--              what webserver/Webserver.go makes of the body of a request: the messages to the
--              local port, and in Port their way there.
-- Start        NewGossiper of gossiper/Gossiper.go with its errors, and main.go.
-- Webserver    webserver/Webserver.go: the routes and their handlers. Orders is about what a request
--              changes, Shown about what the frontend sees after it.
-- Utils        utils/PeersterError.go and the names of files in utils/Utils.go.
-- Tests        runs, and the theorems at inputs that meet their hypotheses.
--
-- A step is an Outcome: a value, a panic of Go (an index out of range, a nil pointer, a division by
-- zero), or out_of_fuel. Fuel: the loops on the block tree go from a node to its parent, which was
-- made before it, so that one round for each node and one more are enough (climb, climb_both,
-- along_branch and print_chain), and one for each node for chain_contains, which starts at a node;
-- settle has one round for each waiting block and one more, since a round that goes on takes one
-- off; push, two peers that exchange rumors, has one for each rumor that is missing and one more. A
-- message that travels has fuel above its hop limit, since each hop lowers that. The levels of a
-- merkle tree have one round for each leaf and one more, and its reads one for each chunk of the
-- file and two more. The loop of requestFile has a round for each number up to the first free one.
-- uint32 and 64-bit numbers keep their wrap-around where the code computes with them.
--
-- Parameters: SHA-256 with results of 32 bytes; in Blockchain a predicate Seen on blocks, under
-- Honest that seen blocks of one hash have one PrevHash and that none hashes to zeros; in Gossiper
-- what rand.Int31n and rand.Int give, a number of its own for each draw; and the record Outside: whether a pattern matches (the regexp
-- package), the last element of a path, and what the file system has; in Start a record Network for
-- ResolveUDPAddr and ListenUDP, and in Webserver a record Libraries for what its handlers call, with
-- the encoding of a message and the result of Dial. In
-- InitFromSlice the address of the loop variable is kept, so the entries share one transaction, as
-- in every Go before 1.22.
--
-- Not modelled: sockets, the encoding of messages, the log, the clock and the parsing of flags; the
-- reading and writing of a file is a map of chunks. Below a whole step, the threads are interleaved
-- only in Gossiper/Channels. Elsewhere a send on the unbuffered channel of a goroutine counts as
-- taken: the value waits in a list of the state for the goroutine's step, so the runs of the code in
-- which a sender waits for ever are not there.
pub mod Client
pub mod Start
pub mod Webserver
pub mod Utils
pub mod Common
pub mod Map
pub mod Models
pub mod Storage
pub mod Hashing
pub mod Blockchain
pub mod Search
pub mod Files
pub mod Gossiper
mod Tests
