-- ===== src/Tests.antt =====
-- Tests on concrete inputs, and each theorem at an input where its hypotheses hold.
mod ModelWord
mod ModelTree
mod ModelMsgp
mod Unsigned
mod Signed
mod Buffers
mod Maps
mod Keys
mod Servers
mod Transactions
mod Sandboxes
mod Chain
mod Proofs
mod Clients
mod SimpleServers
mod Restarts
mod Ciphers
mod Draws
mod Runs
mod Requests
mod Indexers
mod ModelTx
mod SignedTransactions
