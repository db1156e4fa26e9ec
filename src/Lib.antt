-- ===== src/Lib.antt =====
-- A verification of contract code of ChainVerse: the shared arithmetic and signing envelope, and the
-- contracts for the token, escrows, escrow vaults, royalty splits, vesting, library deposits, course
-- payments, and scholarship disbursements and milestones.
--
-- Each Soroban contract is a state machine. An entry point is called in an environment (the ledger's
-- time, who has signed, the contract's own address), reads and writes the contract's storage, calls
-- token contracts and publishes events. A call that returns an error or panics is rolled back by the
-- host, so a call here is a function from a `Chain` (the tokens, the storage, the events) to an
-- `Outcome`: a new chain, a typed error, or a trap.
--
-- Common: what the parts share. Common/Host is the host, the call monad and the client of token
--   contracts; Common/Int the signed integers and the range of an `i128`; Common/Dict storage maps;
--   Common/Tests Boolean tests; Common/Ledger one concrete token for the examples.
-- Math, Math/Debt: contracts/shared/src/math.rs. Functions keep their names. Math/Quotients and
--   Math/Debt/Laws prove.
-- Escrow: contracts/escrow/src. Escrow/Types is types.rs, errors.rs, events.rs and the keys of
--   storage.rs; Escrow/Storage is storage.rs; Escrow/Fees and Escrow/Calls are create.rs, fund.rs,
--   release.rs, dispute.rs, resolve.rs, refund.rs, escrow_state.rs and the bodies in lib.rs. The other
--   files prove: Escrow/Invariant states what holds between calls, Releases, Settlements, Resolutions,
--   Creation, Administration and Returns treat the calls, and Histories whole sequences of requests.
-- RoyaltySplits: contracts/royalty-splits/src/lib.rs. Shares and Credits treat the loop of
--   `distribute`, Manifests, Distribution, Withdrawal and Progress the calls, Histories sequences.
-- EscrowVault: contracts/escrow-vault/src/lib.rs. EscrowVault holds the state and EscrowVault/Calls
--   the entry points. Votes counts approvals, Invariant states what holds between calls, Approvals and
--   Creation treat the calls, Histories sequences. The SHA-256 that names a vault is a parameter of
--   nonce, timestamp and depositor; a theorem that needs it assumes that different nonces give
--   different hashes.
-- Vesting: contracts/common/vesting.rs. Vesting holds the state and the entry points, Vesting/Amounts
--   treats the vested amount as a function of time, Vesting/Claims the calls.
-- Token: contracts/token/src/lib.rs and royalty.rs. Token holds the state, Token/Calls the entry
--   points. Royalties and Transfers treat `apply_transfer`, Spending the two kinds of transfer, Supply
--   and Histories what holds between calls, and Client the token as the other contracts see it.
-- LibraryDeposits: contracts/library-deposits/src/lib.rs. Invariant states what holds between calls,
--   Payments and Locks treat the calls, Histories sequences. The SHA-256 that names a deposit is a
--   parameter, as for vaults.
-- Payment: contracts/payment/src. Payment is storage.rs, errors.rs, events.rs and course.rs,
--   Payment/Calls is lib.rs and fee.rs. Effects treats the calls, Solvency what is owed, Histories
--   sequences.
-- Signing: contracts/shared/src/signing.rs. Signing/Bytes is `to_be_bytes` and strings of fixed width,
--   Signing/Binding treats what a payload commits to. The hash and the encodings of addresses and
--   symbols are the parameter `Crypto`; instead of assuming that the hash is injective, which no hash
--   is, a theorem gives a collision as its other case.
-- ScholarshipDisbursements: contracts/scholarship-disbursements/src/lib.rs, over Signing and a signature
--   scheme that is the parameter `Ed25519`. Effects and Creation treat the calls, Challenges the hash of a
--   challenge, Histories what each request changes, Soundness and Progress sequences of requests.
-- ScholarshipMilestones: contracts/scholarship-milestones/src/lib.rs. Amounts treats how a schedule is
--   built, Schedules what holds of one, Effects and Releases the calls, Histories and Growth sequences of
--   requests.
-- Composition: the deposit contract over token contracts of this repository: Token/Client shows that a
--   token without a royalty is a client of the kind that the other contracts ask for.
--
-- Conventions. Addresses, ids, symbols and hashes are numbers, since the code only compares them. An
-- `i128` is an integer with its range tested where the code's arithmetic is checked; unchecked
-- arithmetic traps on overflow, as contracts/Cargo.toml sets overflow-checks. Unsigned values are
-- natural numbers. A storage key that reads as a default while it is unset is held at that default. No
-- fuel is used: every loop of the code runs over a list and is recursion on it.
--
-- The token contracts that a contract calls may be any: they are the parameter `TokenClient` of
-- Common/Host, whose transfers, if they succeed, were of an amount that is not negative and moved exactly
-- that amount.
--
-- Not modelled: the expiry of storage entries (`extend_ttl` keeps them alive), the topics of events,
-- host budgets, and the contracts other than these.
pub mod Common
pub mod Math
pub mod Escrow
pub mod RoyaltySplits
pub mod EscrowVault
pub mod Vesting
pub mod LibraryDeposits
pub mod Token
pub mod Payment
pub mod Signing
pub mod ScholarshipDisbursements
pub mod ScholarshipMilestones
pub mod Composition
