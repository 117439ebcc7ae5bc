-- ===== src/Lib.antt =====
-- The Breez mobile node library: its stores, its backups, its invoices and channel limits, its
-- channels with LSPs, its import of closed channels, its reference counting and its bech32 texts.
--
-- The application keeps its state in a bbolt database (package db) that is opened once and shared
-- through a reference counter (package refcount). Package account reads and writes lnurl texts in
-- bech32, reports the account from the answers of the lightning node, issues invoices and settles
-- the ones that an LSP opens a channel for; it asks the database for the invoices it tracks. The
-- root package keeps the unconfirmed channels of each LSP and stores the ones that the LSP
-- disagrees on. Package closedchannels keeps a directory of files of closed channels, which it
-- downloads and deletes from the node's graph. Package sync downloads the block filters in the
-- background and scans them for closed channels; it notes the time of its last block in the
-- database. Package backup keeps the pending backup request in a database of its own and serves it
-- in a loop: the files are encrypted, zipped and uploaded. Package doubleratchet keeps the sessions
-- of the encrypted chat.
--
--   Account/Bech32.antt and below   account/bech32.go: encode, decode, convertBits and the checksum
--   Account/State.antt and below    account/account.go: the limits and the account's status
--   Account/Invoice.antt and below  account/invoice.go: the loop of trackInvoice
--   Account/AddInvoice.antt and below
--                                   account/payments.go: AddInvoice and its routing hints
--   LspChannels.antt and below      lsp_chan_state.go: collecting, syncing and recording channels
--   ClosedChannels.antt and below   closedchannels/job.go: the import and the download
--   SyncJob.antt and below          sync/db.go, sync/channelswatcher.go and sync/job.go
--   RefCount.antt and below         refcount/referencecountable.go: Get and Release; the calls of the
--                                   factory and release functions are kept in a trace
--   Bolt.antt and below             what the code relies on of go.etcd.io/bbolt and of the encoders:
--                                   interfaces with laws, and a store in memory that has them
--   Db/Basics.antt and below        db/db.go: saveItem, deleteItem, fetchItem, itob and btoi
--   Db/Network.antt and below       db/network.go, and openDB of db/db.go
--   Db/Payments.antt and below      db/payments.go
--   Db/Funds.antt and below         db/funds.go
--   Db/AccountState.antt            db/account.go
--   Db/SyncStatus.antt              db/syncstatus.go
--   Db/ReverseSwap.antt             db/reverseswap.go
--   Db/Lnurl.antt                   db/lnurlpay.go and db/lnurlauth.go
--   SwapFunds.antt and below        swapfunds/addfunds.go: the updates of the swap addresses and the
--                                   status of the funds
--   Backup/Store.antt and below     backup/db.go
--   Backup/Manager.antt and below   backup/manager.go: requests, keys and the loop of Start
--   DoubleRatchet.antt and below    doubleratchet/db.go: message keys and sessions of the chat
--   Common.antt and below           lists, results, tests and bit operations on native numbers;
--                                   Common/Decimal.antt: Go's strconv; Common/Int64.antt: int64
--
-- Functions keep their names in lower case with underscores: AddAccountPayment is
-- add_account_payment. A closure that a function hands to db.Update is a definition of its own with
-- the suffix _body. An operation takes the contents of the database and returns its answer with the
-- new contents; an error rolls all writes back, as bbolt's Update does. Go strings and byte slices
-- are lists of bytes; integers are natural numbers, signed ones as their bit patterns; itob writes
-- eight bytes. A panic is an error (Db.Basics.Error.panicked) or `none` (Backup.Manager.serve).
--
-- Fuel: each round of the inner loop of convertBits takes at least one of the fromBits bits, so
-- fromBits rounds are enough. The digits of a 64-bit number are printed in 20 rounds. The loop of
-- the import renames a file in each round that goes on, so one round more than the directory has
-- files is enough; the loop of the download counts file numbers up, so it has enough rounds when
-- they reach a number that the server lacks. The loops of the sync job have as many rounds as the
-- chain grows by or waits, under hypotheses that it stops growing and that the waits end. Out of
-- fuel is `none`. The arithmetic of int64 wraps around, in Common/Int64.antt; amounts carry the
-- bounds under which it does not as hypotheses. Reference counts and sequence numbers carry their
-- bounds, 2 ^ 32 and 2 ^ 64, as hypotheses.
--
-- The lightning node's answers during one call are one snapshot (Account.State.Node,
-- Account.AddInvoice.Node); its graph and its channel database are interfaces
-- (ClosedChannels.ChannelGraph, LspChannels.ChannelDb) and neutrino's chain is one whose answers
-- depend on the time of the call (SyncJob.Job.Chain), with the laws that the code relies on. A Go
-- map is an association list in the order in which the code ranges over it.
--
-- A round of the backup loop is one step: the other operations that run while it uploads enter as
-- the function `meanwhile` on the database. Outcomes of the file system, the zip archive, the
-- encryption, the provider and the application are parameters that may depend on the calls made so
-- far. Logging is left out. Not modelled: the lightning node and what only starts and stops it,
-- payments that are sent, reverse swaps and the payment of a swap, the wire formats of
-- encoding/json and protobuf, the providers, generated code, and the start-up of the application.
pub mod Common
pub mod Bolt
pub mod LspChannels
pub mod ClosedChannels
pub mod Account
pub mod Db
pub mod RefCount
pub mod SyncJob
pub mod SwapFunds
pub mod Backup
pub mod DoubleRatchet
