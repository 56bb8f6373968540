-- ===== src/MockVrf/Service.antt =====
-- A join whose configured oracle is the mock: the game can be settled at once.
use coinflip_program.Base.{◌≡◌, ◌≢◌, refl, ap, ◌∙◌, arith, Bytes, some}
use coinflip_program.Error.{ok}
use coinflip_program.State.{Pubkey, Config, Game, ready, default_key}
use coinflip_program.Runtime.{Ledger, Runtime}
use coinflip_program.Runtime.Laws.{TransferLaw}
use coinflip_program.Accounts.{store_game}
use coinflip_program.Vrf.{vrf_seed, fulfilled_randomness, request_randomness, request_instruction}
use coinflip_program.Join.{
  Join, JoinArgs, LoadedJoin, VrfAccounts, join, join_deposit, request_join_vrf,
}
use coinflip_program.Join.Pairing.{apply_join-IsPaired}
use coinflip_program.Join.Steps.{join-Joined, load_join-IsLoaded}
use coinflip_program.MockVrf.{Host, mock_vrf_id, mock_randomness, request_v2}
use coinflip_program.MockVrf.Answers.{HashLaw, HostLaw, request_v2_read}

-- A call of the mock's program runs its `request_v2`, with the accounts in the order of its
-- `RequestV2` and the system program behind them.
pub record ServiceLaw (r : Runtime) (host : Host) : Type 0 where
  pub runs :
      (payer network_state treasury request : Pubkey) (seed : Bytes) (s s' : Ledger)
      → r.invoke
          (request_instruction r payer network_state treasury request default_key mock_vrf_id seed)
          s
        ≡ ok s'
      → request_v2 r host
          (record {
            payer = payer;
            network_state = network_state;
            treasury = treasury;
            request = request;
          })
          seed
          s
        ≡ ok s'

-- A request for an account that the oracle does not own yet is a call of the oracle.
request_join_vrf_asks :
    (r : Runtime) (vrf : VrfAccounts) (payer game_key : Pubkey) (c : Config) (g : Game)
    (s s' : Ledger)
    → s.owner vrf.vrf_request ≢ c.vrf_program
    → request_join_vrf r vrf payer game_key c g s ≡ ok s'
    → r.invoke
        (request_instruction r payer vrf.vrf_network vrf.vrf_treasury vrf.vrf_request default_key
          c.vrf_program
          (vrf_seed r game_key g.joiner g.joiner_entropy))
        s
      ≡ ok s'
unfolding request_join_vrf request_randomness
request_join_vrf_asks r vrf payer game_key c g s s' fresh h = ground arith

-- A stored game does not matter to the oracle's account.
fulfilled_after_store :
    (r : Runtime) (request vrf_program k : Pubkey) (g : Game) (seed : Bytes) (s : Ledger)
    → fulfilled_randomness r request vrf_program seed (store_game k g s)
      ≡ fulfilled_randomness r request vrf_program seed s
unfolding fulfilled_randomness
fulfilled_after_store r request vrf_program k g seed s = refl

module _ (r : Runtime) (moving : TransferLaw r) (hashes : HashLaw r) (host : Host)
    (law : HostLaw host) (service : ServiceLaw r host) where
  request_join_vrf_answered :
      (vrf : VrfAccounts) (payer game_key : Pubkey) (c : Config) (g : Game) (s s' : Ledger)
      → c.vrf_program ≡ mock_vrf_id
      → s.owner vrf.vrf_request ≢ mock_vrf_id
      → request_join_vrf r vrf payer game_key c g s ≡ ok s'
      → fulfilled_randomness r vrf.vrf_request mock_vrf_id
          (vrf_seed r game_key g.joiner g.joiner_entropy)
          s'
        ≡ ok (mock_randomness r host (vrf_seed r game_key g.joiner g.joiner_entropy))
  request_join_vrf_answered vrf payer game_key c g s s' mock fresh h =
      let seed = vrf_seed r game_key g.joiner g.joiner_entropy in
      let asked = request_join_vrf_asks r vrf payer game_key c g s s' (rw mock fresh) h in
      request_v2_read r hashes host law _ seed s s' (hashes.wide _) (
        service.runs payer vrf.vrf_network vrf.vrf_treasury vrf.vrf_request seed s s'
          (rw mock at asked))

  -- A deposit of lamports leaves the owners of accounts.
  join_deposit-owner :
      (acc : Join) (args : JoinArgs) (l : LoadedJoin) (g : Game) (s s1 : Ledger)
      → g.mint ≡ default_key
      → join_deposit r acc l g args.amount s ≡ ok s1
      → s1.owner ≡ s.owner
  unfolding join_deposit
  join_deposit-owner acc args l g s s1 native h =
      let paid : r.transfer acc.joiner acc.game args.amount s ≡ ok s1 = rw native at h in
      ap Ledger.owner (moving.moves acc.joiner acc.game args.amount s s1 paid)

  -- Where the configured oracle is the mock and the request's account is not the oracle's yet, a join
  -- of a game in lamports leaves the game ready and its request answered, with the hash of the
  -- request's seed. Hashes have 32 bytes, a call of the mock's program runs its request, and transfers
  -- and account creation do what is documented.
  pub join_answered :
      (acc : Join) (args : JoinArgs) (s s' : Ledger) (c : Config) (g : Game)
      → s.configs acc.config ≡ some c
      → c.vrf_program ≡ mock_vrf_id
      → s.games acc.game ≡ some g
      → g.mint ≡ default_key
      → s.owner acc.vrf.vrf_request ≢ mock_vrf_id
      → join r acc args s ≡ ok s'
      → (g' : Game) × (s'.games acc.game ≡ some g')
        × (g'.status ≡ ready)
        × (fulfilled_randomness r acc.vrf.vrf_request mock_vrf_id
              (vrf_seed r acc.game g'.joiner g'.joiner_entropy)
              s'
            ≡ ok (mock_randomness r host (vrf_seed r acc.game g'.joiner g'.joiner_entropy)))
  join_answered acc args s s' c g at mock found native fresh e =
      let j = join-Joined r acc args s s' e in
      let l = load_join-IsLoaded r acc s j.l j.loading in
      let p = apply_join-IsPaired j.l.game acc.joiner args s.slot j.game j.pairing in
      let same : j.l.game ≡ g = ground (arith, l.game) in
      let configured : j.l.config.vrf_program ≡ mock_vrf_id = ground (arith, l.config) in
      let owner1 =
        join_deposit-owner acc args j.l j.game s j.s1 (p.mint_kept ∙ ap Game.mint same ∙ native)
          j.paying in
      let answered =
        request_join_vrf_answered acc.vrf acc.joiner acc.game j.l.config j.game j.s1 j.s2 configured
          (rw owner1 fresh) j.asking in
      (
        j.game,
        rw (j.stored) (ground arith),
        p.now_ready,
        rw (j.stored, fulfilled_after_store) answered,
      )
