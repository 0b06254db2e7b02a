-- ===== src/Blockchain.antt =====
-- models/blockchain: the tree of blocks, the set of pending transactions and the manager.
pub mod Transactions
pub mod Nodes
pub mod Manager
