-- ===== src/Lib.antt =====
-- The coinflip program: a Solana program (Anchor) in which two players stake the same amount on the
-- two sides of a coin, an oracle's randomness picks the winner, and the house takes a fee. It also
-- buys and sells listed tokens over concentrated-liquidity pools.
--
-- Parts, and the file of the repository that each models:
--   Error        src/errors.rs. `Result` is the result of an instruction. One that fails changes
--                nothing, as the runtime rolls the transaction back, so errors carry no state.
--   State, Fees  src/state.rs: accounts, constants, sides; the fee arithmetic.
--   Runtime      what the program runs on. `Ledger` is the state: the clock, the signers, and for
--                each key its lamports, owner, data, and the program's own accounts in typed form.
--                `Runtime` holds the code that is called and not contained: hashing, address
--                derivation, the system, token and associated token programs, Anchor's `init` and
--                `close`, the oracle and the pools. `Runtime.Laws` and `Runtime.Tokens` state what is
--                documented of it.
--   Accounts     the attributes of `#[derive(Accounts)]` that the instructions share, and payments
--                of lamports by the program.
--   TokenUtils   src/token_utils.rs
--   Vrf          src/vrf.rs: the request of randomness, reading the answer, the winner.
--   SlotHash     src/slot_hash.rs: the search of the SlotHashes sysvar.
--   Swap         src/swap.rs: one swap over a list of accounts, and splitting the list into hops.
--   Create, Join, Participate, Resolve, Cancel, Refund, Initialize, Admin
--                src/instructions/, by the same names. A handler is a function of the accounts' keys,
--                the arguments and the ledger: `load_*` is what Anchor does before the handler, then
--                the tests, the movements of money and the account that is written.
--   Admin.Migration
--                the two migrations of src/instructions/admin.rs, over the bytes of the accounts;
--                `Layout` has Anchor's layout of a configuration, and `realloc`'s law.
--   Pools        `allowed_pools` of participate.rs and `trade_pools` of trade.rs.
--   Trade        src/instructions/trade.rs, with a child each for `buy_token` and `sell_token`.
--   Program      src/lib.rs: the calls, their dispatch, and histories of the ledger.
--   Solvency     the cover of the stakes, by every instruction and along every history.
--   Lifecycle    the life of a game as an abstract machine: the moves that the program may make on
--                the games, the phases of a game, and every instruction against them.
--   MockVrf      mock-vrf/src/lib.rs: the stand-in of the oracle, a program of its own, with what
--                src/vrf.rs reads from it and its service to a join.
--   Tests        a small runtime that keeps all the laws, and runs of the instructions on it.
--
-- How they interact: every instruction reads the configuration and a game from the ledger, and
-- ends by writing the game or by closing its account. `create` opens a game, `join` and
-- `participate` make it ready and ask the oracle, `resolve`, `cancel` and `refund_expired` end it.
--
-- Numbers: a w-bit integer is a natural number, and each checked operation fails when its result
-- leaves the range, as in the source. A public key is the number that its 32 bytes spell. The one
-- loop, over the slot hashes, is structural on the count that stands in the sysvar, so nothing runs
-- on fuel.
--
-- Accounts: the program's own accounts are typed in the ledger, not bytes, and an account that is
-- written twice in one instruction is written at its end. `create` writes the new game after the
-- payment, where the source fills it before; no call in between reads it.
--
-- The settings' accounts are written in both forms, since the migrations read and write their bytes;
-- Anchor's encoding and decoding are parameters. The mock oracle's accounts are bytes.
--
-- The token laws are about the SPL token program only, since Token-2022 may withhold transfer fees,
-- and the swap law is about Raydium's program only.
--
-- Not modelled: three tests that Anchor does before a handler, namely that an account is
-- writable (`mut`), that a token account or a mint is owned by a token program
-- (`InterfaceAccount`), and that the associated token program has its id. So `load_*` refuses
-- less than Anchor does. What follows from a success is not affected; a theorem that a call
-- succeeds is about accounts that pass these tests as well. Further, compute budgets; rent, but
-- for the lamports that a migration adds; the devnet build of src/swap.rs;
-- src/instructions/mod.rs, which lists modules; scripts and tests.
pub mod Base
pub mod Error
pub mod State
pub mod Fees
pub mod Runtime
pub mod Accounts
pub mod TokenUtils
pub mod Vrf
pub mod SlotHash
pub mod Swap
pub mod Create
pub mod Join
pub mod Resolve
pub mod Cancel
pub mod Refund
pub mod Pools
pub mod Participate
pub mod Initialize
pub mod Admin
pub mod Trade
pub mod Solvency
pub mod Program
pub mod Lifecycle
pub mod MockVrf
mod Tests
