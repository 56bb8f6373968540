-- ===== src/Program.antt =====
-- src/lib.rs: the instructions of the program, as one type of calls, and the ledgers that a history
-- of calls can reach.
pub mod History
use coinflip_program.Base.{ℕ}
use coinflip_program.Error.{Result}
use coinflip_program.State.{Pubkey}
use coinflip_program.Runtime.{Ledger, Runtime}
use coinflip_program.Initialize
use coinflip_program.Initialize.{Initialize}
use coinflip_program.Admin
use coinflip_program.Admin.{ConfigAccounts, Setting, EnableToken, EnableTokenArgs}
use coinflip_program.Admin.Migration
use coinflip_program.Admin.Migration.{MigrateConfig, MigrateTokenConfig}
use coinflip_program.Create
use coinflip_program.Create.{Create, CreateArgs}
use coinflip_program.Join
use coinflip_program.Join.{Join, JoinArgs}
use coinflip_program.Participate
use coinflip_program.Participate.{Participate, ParticipateArgs}
use coinflip_program.Trade.{Trade}
use coinflip_program.Trade.Buy
use coinflip_program.Trade.Buy.{BuyArgs}
use coinflip_program.Trade.Sell
use coinflip_program.Trade.Sell.{SellArgs}
use coinflip_program.Resolve
use coinflip_program.Resolve.{Resolve}
use coinflip_program.Refund
use coinflip_program.Refund.{RefundExpired}
use coinflip_program.Cancel
use coinflip_program.Cancel.{Cancel, InitiateCancel}

pub data Call : Type 0 where
  initialize : Initialize → Pubkey → Call
  configure : ConfigAccounts → Setting → Call
  enable_token : EnableToken → EnableTokenArgs → Call
  migrate_config : MigrateConfig → Call
  migrate_token_config : MigrateTokenConfig → Pubkey → Call
  create : Create → CreateArgs → Call
  join : Join → JoinArgs → Call
  participate : Participate → ParticipateArgs → Call
  buy_token : Trade → BuyArgs → Call
  sell_token : Trade → SellArgs → Call
  resolve : Resolve → Call
  refund_expired : RefundExpired → Call
  initiate_cancel : InitiateCancel → Call
  cancel : Cancel → Call

abbrev pub dispatch : Runtime → Call → Ledger → Result Ledger
dispatch r (Call.initialize acc vrf) = Initialize.initialize r acc vrf
dispatch r (Call.configure acc setting) = Admin.configure r acc setting
dispatch r (Call.enable_token acc args) = Admin.enable_token r acc args
dispatch r (Call.migrate_config acc) = Migration.migrate_config r acc
dispatch r (Call.migrate_token_config acc mint) = Migration.migrate_token_config r acc mint
dispatch r (Call.create acc args) = Create.create r acc args
dispatch r (Call.join acc args) = Join.join r acc args
dispatch r (Call.participate acc args) = Participate.participate r acc args
dispatch r (Call.buy_token acc args) = Buy.buy_token r acc args
dispatch r (Call.sell_token acc args) = Sell.sell_token r acc args
dispatch r (Call.resolve acc) = Resolve.resolve r acc
dispatch r (Call.refund_expired acc) = Refund.refund_expired r acc
dispatch r (Call.initiate_cancel acc) = Cancel.initiate r acc
dispatch r (Call.cancel acc) = Cancel.cancel r acc
