-- ===== src/Lib.antt =====
-- The library of the EGVM, a virtual machine for scripts that runs inside enclaves, with the key
-- grantor that hands keys to enclaves and the indexer that follows the chain for a contract.
--
-- The scripts call native functions and types (folders script/types, script/extension and
-- script/utils). A call ends in a value or in a panic, which the engine turns into an exception of
-- the script: `Outcome` in Outcome.antt. What the engine hands over is the `Value` of Goja.antt.
--
--   Prelude.antt      names of the libraries and lists measured by native numbers
--   Outcome.antt      values and panics; script/utils/errors.go
--   Bytes.antt        byte strings, and the functions of Go's bytes and strings on them
--   Hex.antt          Go's encoding/hex
--   Goja.antt         script/utils/function.go, the checks of arguments
--   Word.antt         the 256-bit words of holiman/uint256: an interface with its documented laws
--   Uint256.antt      script/types/u256.go
--   Sint256.antt      script/types/s256.go
--   Buffer.antt       script/extension/buffer.go
--   Tree.antt         the ordered tree of modernc.org/b/v2: an interface with its laws
--   Msgp.antt         the readers and writers of tinylib/msgp: an interface with its laws
--   OrderedMap.antt   script/types/orderedintmap.go, orderedstrmap.go and orderedbufmap.go, as one
--                     map over a kind of values
--   MapCodec.antt     script/types/mapcodec.go
--   BufBuilder.antt   script/types/bufbuilder.go
--   Hash.antt         script/extension/hash.go, over a running hash that is a parameter
--   Merkle.antt       script/extension/merkle.go
--   Bip32Key.antt     script/extension/bip32key.go
--   KeyGrantor.antt   keygrantor/keygrantor.go: reports, tokens and the derivation of keys
--   KeyServer.antt    keygrantor/cmd/main.go: the handlers of /xprv and /getkey
--   Http.antt         what a client sees of a response
--   KeyClient.antt    keygrantor/keygrantor.go: GetKeyFromKeyGrantor
--   KeyFile.antt      the sealed key file of keygrantor/keygrantor.go, the starts of
--                     keygrantor/cmd/main.go and indexer/run.go, keygrantor/simpleclient.go
--   SimpleServer.antt keygrantor/simpleclient.go: the handlers of the HTTPS server; the handlers of
--                     /xpub and /report in keygrantor/cmd/main.go
--   Randomness.antt   keygrantor/keygrantor.go: random bytes and keys
--   Crypto.antt       script/extension/crypto.go: encryption; with Crypto/Keys.antt and
--                     Crypto/Signatures.antt for the other functions
--   Bch.antt          script/extension/bch.go: the scripts of outputs
--   Bch/Transactions.antt     script/extension/bch.go: transactions, parsed and signed
--   Bch/Merkle.antt   script/extension/bch.go: MerkleProofToRootAndMatches
--   Requests.antt     script/request/https.go, script/request/enclave.go and
--                     script/enclaveutil/enclave.go
--   Executor.antt     egvm-invoker/executor/manager.go
--   Executor/Sandbox.antt     egvm-invoker/executor/sandbox.go and egvm-invoker/cmd/main.go
--   Indexer/Context.antt      indexer/context.go
--   Indexer/DataFetcher.antt  indexer/datafetcher.go
--   Indexer/Servers.antt      indexer/tm.go
--   ChainIndexer.antt         egvm-indexer/db.go
--   ChainIndexer/Blocks.antt  egvm-indexer/indexer.go: the loop over the blocks
--   ChainIndexer/Jobs.antt    egvm-indexer/job.go, AddJob of egvm-indexer/indexer.go, and the
--                             handler in egvm-indexer/main.go
--   ChainIndexer/Servers.antt egvm-indexer/tm.go
--   Decimal.antt      numbers in decimal digits
--   Tests.antt        concrete models of the interfaces, and the theorems at concrete inputs
--
-- The key server decodes a request, checks the posted report and token with the functions of the
-- key grantor, and sends the master key (/xprv) or a key derived from it (/getkey), encrypted to
-- the public key of the request. A handler that replies early or panics is a case of `Handled`. The
-- data fetcher asks the servers for the next header, its validators and its block, checks them
-- against the last header it trusts, and lets the context hand the block to the contract's script;
-- the context logs what goes into the script and what comes out, and hashes both logs.
--
-- Bounds and fuel. The words of the scripts are numbers below 2 ^ 256, and an operation that can
-- leave this range has the wrap-around or the panic of the source. `derive_key` has fuel for the
-- rounds at each of its nine depths, where two are enough: the second finds the nil key of the first
-- and panics. `climb` of a Merkle proof has a round for each 32 bytes of the proof.
-- The loops of Indexer/Servers.antt, which the source leaves only with an answer, have a pass of the
-- servers for each unit of fuel; `none` is a loop that is still running. So have the loops of
-- Randomness.antt, one key for each unit. A uint64 is printed with at most 20 digits.
--
-- An enclave asks the key server for its key: `get_key_from_key_grantor` posts a report of the hash
-- of a fresh public key and its own data, and decrypts the answer. KeyClient/EndToEnd.antt puts it
-- together with `serve_getkey` and KeyClient/Peers.antt with `serve_xprv` by a network that
-- delivers the request and the reply, with laws that say how the packages of one side undo those of
-- the other. The file with a key is a disk that maps names to contents; a start is a function of
-- the disk. The program egvm-indexer runs the same checks as the data fetcher, stores the
-- transactions of each block and the header that it trusts, and lets jobs read them.
--
-- The jobs that egvm-invoker runs at a time are an explicit sequence of steps: each begins, is
-- refused, ends or fails while others run.
--
-- Not modelled: starting the child processes of the sandboxes, the certificate of
-- keygrantor/simpleclient.go, the functions that only call a package (compress.go, cpu.go, print.go
-- and system.go of script/extension, the loading of certificates in script/request/https.go), and
-- the entry points that read flags and register names. The packages that the code calls (the
-- enclave, ECIES, BIP-32, Tendermint, go-ethereum, goja, msgp, uint256, bchd, badger) are
-- parameters; their documented behaviour is a law of an interface where a theorem needs it.
pub mod Prelude
pub mod Outcome
pub mod Bytes
pub mod Word
pub mod Goja
pub mod Uint256
pub mod Sint256
pub mod Buffer
pub mod Tree
pub mod Msgp
pub mod OrderedMap
pub mod MapCodec
pub mod KeyGrantor
pub mod Bch
pub mod Bip32Key
pub mod BufBuilder
pub mod ChainIndexer
pub mod Crypto
pub mod Decimal
pub mod Executor
pub mod Hash
pub mod Hex
pub mod Http
pub mod Indexer
pub mod KeyClient
pub mod KeyFile
pub mod KeyServer
pub mod Merkle
pub mod Randomness
pub mod Requests
pub mod SimpleServer
pub mod Tests
