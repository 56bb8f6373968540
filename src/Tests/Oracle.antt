-- ===== src/Tests/Oracle.antt =====
-- A world whose oracle is the mock, and a join that it answers.
use coinflip_program.Base.{
  ℕ, ◌≡◌, refl, arith, true, [], ◌∷◌, ◌++◌, ◌==◌, some, if◌then◌else◌, drop, replicate, update,
  bytes_eq, to_be_bytes, to_le_bytes,
}
use coinflip_program.Error.{Result, ok, err, external, is_ok}
use coinflip_program.State.{Pubkey, Config, Game, ready}
use coinflip_program.Runtime.{Ledger, Runtime, Instruction}
use coinflip_program.Runtime.Laws.{TransferLaw}
use coinflip_program.Vrf.{vrf_seed, fulfilled_randomness}
use coinflip_program.Join.{Join, join, load_join, apply_join, join_deposit, request_join_vrf}
use coinflip_program.MockVrf.{
  Host, RequestV2, mock_vrf_id, load_network_state, mock_randomness, request_v2,
}
use coinflip_program.MockVrf.Answers.{HashLaw, HostLaw, request_v2_read}
use coinflip_program.MockVrf.Service.{ServiceLaw, join_answered}
use coinflip_program.Tests.World.{sum_all, transfer, meta_key, runtime}
use coinflip_program.Tests.Laws.{runtime-TransferLaw}
use coinflip_program.Tests.Plays.{
  config, outcome, ran, open_ledger, opened, join_accounts, join_args,
}

create_account : Pubkey → Pubkey → ℕ → Ledger → Result Ledger
create_account payer account space s =
    if s.owner account == 0
    then ok (record s {
      owner = update s.owner account mock_vrf_id;
      bytes = update s.bytes account (replicate space 0);
    })
    else err (external 0)

host : Host
unfolding create_account
host = record {
  create = create_account;
  network_discriminator = replicate 8 3;
  randomness_discriminator = replicate 8 4;
}

invoke_mock : Instruction → Ledger → Result Ledger
unfolding host
invoke_mock i s =
    if i.program_id == mock_vrf_id
    then request_v2 runtime host
        (record {
          payer = meta_key i.accounts 0;
          network_state = meta_key i.accounts 1;
          treasury = meta_key i.accounts 2;
          request = meta_key i.accounts 3;
        })
        (drop 8 i.data_bytes) s
    else err (external 0)

mock_world : Runtime
unfolding invoke_mock
mock_world = record runtime { invoke = invoke_mock }

mock_world-TransferLaw : TransferLaw mock_world
unfolding runtime mock_world
mock_world-TransferLaw = record {
  moves = runtime-TransferLaw.moves;
  owned = runtime-TransferLaw.owned;
}

mock_world-HashLaw : HashLaw mock_world
unfolding runtime mock_world
mock_world-HashLaw = record { wide = λ parts. refl }

host-HostLaw : HostLaw host
unfolding host create_account
host-HostLaw = record { eight = refl; owned = λ payer account space s s' h. ground arith }

mock_world-ServiceLaw : ServiceLaw mock_world host
unfolding runtime mock_world invoke_mock request_v2 load_network_state mock_randomness
mock_world-ServiceLaw = record { runs = λ payer network_state treasury request seed s s' h. h }

abbrev mock_accounts : Join
mock_accounts = record join_accounts {
  vrf = record {
    vrf_program = mock_vrf_id;
    vrf_network = 4335;
    vrf_treasury = 15;
    vrf_request = 4433;
  };
}

abbrev mock_config : Config
mock_config = record config { vrf_program = mock_vrf_id }

abbrev mock_ledger : Ledger
mock_ledger = record open_ledger {
  owner = update open_ledger.owner 4335 mock_vrf_id;
  bytes = update open_ledger.bytes 4335 (replicate 8 3 ++ (255 ∷ []));
  configs = update open_ledger.configs 1885 (some mock_config);
}

abbrev requester : RequestV2
requester = record { payer = 13; network_state = 4335; treasury = 15; request = 4208 }

abbrev requested : Ledger
requested = outcome (request_v2 mock_world host requester (replicate 32 6) mock_ledger)

request_ok : is_ok (request_v2 mock_world host requester (replicate 32 6) mock_ledger) ≡ true
unfolding request_v2 mock_world runtime load_network_state bytes_eq sum_all
request_ok = refl

request_v2_read_example :
    fulfilled_randomness mock_world 4208 mock_vrf_id (replicate 32 6) requested
    ≡ ok (mock_randomness mock_world host (replicate 32 6))
request_v2_read_example =
    request_v2_read mock_world mock_world-HashLaw host host-HostLaw requester (replicate 32 6)
      mock_ledger requested refl (ran _ request_ok)

abbrev mock_joined : Ledger
mock_joined = outcome (join mock_world mock_accounts join_args mock_ledger)

mock_join_ok : is_ok (join mock_world mock_accounts join_args mock_ledger) ≡ true
unfolding join mock_world runtime load_join sum_all to_be_bytes to_le_bytes apply_join bytes_eq
    join_deposit transfer request_join_vrf request_v2 load_network_state
mock_join_ok = refl

join_answered_example :
    (g' : Game) × (mock_joined.games 1678 ≡ some g')
    × (g'.status ≡ ready)
    × (fulfilled_randomness mock_world 4433 mock_vrf_id
          (vrf_seed mock_world 1678 g'.joiner g'.joiner_entropy)
          mock_joined
        ≡ ok (
            mock_randomness mock_world host (vrf_seed mock_world 1678 g'.joiner g'.joiner_entropy)))
join_answered_example =
    join_answered mock_world mock_world-TransferLaw mock_world-HashLaw host host-HostLaw
      mock_world-ServiceLaw mock_accounts join_args mock_ledger mock_joined mock_config opened refl
      refl refl refl (λ e. omega arith) (ran _ mock_join_ok)
