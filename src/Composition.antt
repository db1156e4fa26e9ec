-- ===== src/Composition.antt =====
-- contracts/library-deposits/src/lib.rs over contracts/token/src/lib.rs: the deposit contract calls token
-- contracts of this repository, in which no royalty is set.
mod Tests
use chain_verse_onchain.Common.{ℕ, ◌≡◌, ℤ, ◌≤ℤ◌, sum_by, nat_eq, Env}
use chain_verse_onchain.Token.{balance}
use chain_verse_onchain.Token.Client.{token_client}
use chain_verse_onchain.LibraryDeposits.Invariant.{State, IsBacked, held}
use chain_verse_onchain.LibraryDeposits.Locks.{Distinct}
use chain_verse_onchain.LibraryDeposits.Histories.{Reach, Reach-IsBacked}

-- In every state that the deposit contract reaches from a backed one over token contracts without a
-- royalty, by requests of anybody in any order and by acts of others that do not take its tokens, where
-- the hashes of different nonces differ, its balance in each token contract is at least what remains of
-- the deposits in that token.
pub deposits_covered :
    (env : Env) (ids : (nonce timestamp loan_id patron : ℕ) → ℕ) (self : ℕ)
    → (c d : State (token_client env) ids self) → Distinct (token_client env) ids
    → IsBacked (token_client env) ids self c
    → Reach (token_client env) ids self c d
    → (t : ℕ) → sum_by (held t) d.store.deposits ≤ℤ balance self (d.tokens t).state.store
deposits_covered env ids self c d i b r t =
    (Reach-IsBacked (token_client env) ids self i b r).solvent t
