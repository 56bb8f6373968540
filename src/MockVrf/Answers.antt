-- ===== src/MockVrf/Answers.antt =====
-- The answers of the mock oracle, as src/vrf.rs reads them.
use coinflip_program.Base.{
  ℕ, ◌≡◌, refl, sym, ap, ◌∙◌, arith, List, Bytes, [], ◌∷◌, ◌++◌, ◌==◌, ==_iff, length, slice,
  get_or, update, length-append, length-to_be_bytes, slice_middle, bytes_eq_refl,
}
use mathlib.Core.List.{append_assoc, append-nil}
use coinflip_program.Error.{ok, check, seeds, check-eq-ok, >>=-eq-ok}
use coinflip_program.State.{Pubkey, key_bytes}
use coinflip_program.Runtime.{Ledger, Runtime}
use coinflip_program.Accounts.{require_signer}
use coinflip_program.Vrf.{config_account_seed, fulfilled_randomness, randomness_address}
use coinflip_program.MockVrf.{
  Host, answer, mock_prefix, RequestV2, RandomnessV2, mock_vrf_id, randomness_fields,
  mock_randomness, request_v2, load_network_state,
}

-- SHA-256 has 32 bytes.
pub record HashLaw (r : Runtime) : Type 0 where
  pub wide : (parts : List Bytes) → length (r.hashv parts) ≡ 32

-- A discriminator has eight bytes, and a new account is the program's.
pub record HostLaw (host : Host) : Type 0 where
  pub eight : length host.randomness_discriminator ≡ 8
  pub owned :
      (payer account : Pubkey) (space : ℕ) (s s' : Ledger)
      → host.create payer account space s ≡ ok s'
      → s'.owner account ≡ mock_vrf_id

get_or-append : (xs ys : Bytes) (x d i : ℕ) → length xs ≡ i → get_or (xs ++ (x ∷ ys)) i d ≡ x
get_or-append [] ys x d i h = rw (← h) refl
get_or-append (y ∷ xs) ys x d i h = rw (← h) (get_or-append xs ys x d (length xs) refl)

-- The places of an answer's fields in its account.
module _ (d : Bytes) (q : RandomnessV2) (eight : length d ≡ 8) (seed_wide : length q.seed ≡ 32)
    (random_wide : length q.randomness ≡ 64) where
  abbrev stored : Bytes
  stored = d ++ randomness_fields q

  stored_front : stored ≡ (d ++ (q.tag ∷ key_bytes q.client)) ++ (q.seed ++ q.randomness)
  stored_front = sym (append_assoc d (q.tag ∷ key_bytes q.client) (q.seed ++ q.randomness))

  length-front : length (d ++ (q.tag ∷ key_bytes q.client)) ≡ 41
  length-front =
      omega
        (arith, length-append d (q.tag ∷ key_bytes q.client), length-to_be_bytes 32 q.client, eight)

  seed_place : slice stored 41 73 ≡ q.seed
  seed_place = rw stored_front (
      slice_middle (d ++ (q.tag ∷ key_bytes q.client)) q.seed q.randomness 41 73 (sym length-front)
        (omega (arith, seed_wide)))

  randomness_place : slice stored 73 137 ≡ q.randomness
  randomness_place =
      let front = (d ++ (q.tag ∷ key_bytes q.client)) ++ q.seed in
      let split : stored ≡ front ++ (q.randomness ++ []) =
        stored_front
        ∙ sym (append_assoc (d ++ (q.tag ∷ key_bytes q.client)) q.seed q.randomness)
        ∙ ap (λ t. front ++ t) (sym (append-nil q.randomness)) in
      rw split (
        slice_middle front q.randomness [] 73 137
          (omega (
            arith,
            length-append (d ++ (q.tag ∷ key_bytes q.client)) q.seed,
            length-front,
            seed_wide,
          ))
          (omega (arith, random_wide)))

  length-stored : length stored ≡ 137
  length-stored = rw stored_front (
      omega (
        arith,
        length-append (d ++ (q.tag ∷ key_bytes q.client)) (q.seed ++ q.randomness),
        length-append q.seed q.randomness,
        length-front,
        seed_wide,
        random_wide,
      ))

  tag_place : get_or stored 8 0 ≡ q.tag
  tag_place = get_or-append d (key_bytes q.client ++ (q.seed ++ q.randomness)) q.tag 0 8 eight

-- What src/vrf.rs asks of an answer.
fulfilled_randomness-ok :
    (r : Runtime) (request vrf_program : Pubkey) (seed : Bytes) (s : Ledger)
    → request ≡ randomness_address r vrf_program seed
    → s.owner request ≡ vrf_program
    → length (s.bytes request) ≡ 137
    → get_or (s.bytes request) 8 0 ≡ 1
    → slice (s.bytes request) 41 73 ≡ seed
    → fulfilled_randomness r request vrf_program seed s ≡ ok (slice (s.bytes request) 73 137)
unfolding fulfilled_randomness
fulfilled_randomness-ok r request vrf_program seed s address owned wide answered seeded =
    rw
      (
        (==_iff request (randomness_address r vrf_program seed)).1 address,
        (==_iff (s.owner request) vrf_program).1 owned,
        wide,
        answered,
        seeded,
        bytes_eq_refl seed,
      )
      refl

-- A request that succeeds, in its steps.
record Requested (r : Runtime) (host : Host) (acc : RequestV2) (seed : Bytes) (s s' : Ledger)
    : Type 0 where
  s1 : Ledger
  address : acc.request ≡ randomness_address r mock_vrf_id seed
  created : host.create acc.payer acc.request 137 s ≡ ok s1
  written : s' ≡ record s1 {
    bytes =
        update s1.bytes acc.request
          (host.randomness_discriminator ++ randomness_fields (answer r host acc.payer seed));
  }

request_v2-Requested :
    (r : Runtime) (host : Host) (acc : RequestV2) (seed : Bytes) (s s' : Ledger)
    → request_v2 r host acc seed s ≡ ok s'
    → Requested r host acc seed s s'
unfolding request_v2
request_v2-Requested r host acc seed s s' h =
    let (_, a, h1) = >>=-eq-ok (require_signer acc.payer s) _ h in
    let (n, b, h2) = >>=-eq-ok (load_network_state r host acc.network_state s) _ h1 in
    let (_, c, h3) =
      >>=-eq-ok
        (check
          (acc.network_state == (r.find_program_address (config_account_seed ∷ []) mock_vrf_id).0)
          seeds)
        _ h2 in
    let (_, d, h4) =
      >>=-eq-ok (check (acc.request == randomness_address r mock_vrf_id seed) seeds) _ h3 in
    let (s1, e, h5) = >>=-eq-ok (host.create acc.payer acc.request 137 s) _ h4 in
    record { s1 = s1; address = (==_iff _ _).0 (check-eq-ok _ seeds d); created = e; written = cc }

module _ (r : Runtime) (hashes : HashLaw r) (host : Host) (law : HostLaw host) where
  length-mock_randomness : (seed : Bytes) → length (mock_randomness r host seed) ≡ 64
  unfolding mock_randomness
  length-mock_randomness seed =
      let hashed = r.hashv (mock_prefix ∷ seed ∷ []) in
      omega (arith, length-append hashed hashed, hashes.wide (mock_prefix ∷ seed ∷ []))

  -- A request to the mock oracle that succeeds, for a seed of 32 bytes, leaves an account from which
  -- src/vrf.rs reads the hash of the seed in both halves. Hashes have 32 bytes, Anchor's discriminator
  -- has eight, and a new account is the mock's.
  pub request_v2_read :
      (acc : RequestV2) (seed : Bytes) (s s' : Ledger)
      → length seed ≡ 32
      → request_v2 r host acc seed s ≡ ok s'
      → fulfilled_randomness r acc.request mock_vrf_id seed s' ≡ ok (mock_randomness r host seed)
  request_v2_read acc seed s s' wide h =
      let q = request_v2-Requested r host acc seed s s' h in
      let d = host.randomness_discriminator in
      let a = answer r host acc.payer seed in
      let random_wide = length-mock_randomness seed in
      let data_bytes : s'.bytes acc.request ≡ d ++ randomness_fields a =
        rw (q.written) (ground arith) in
      let owned : s'.owner acc.request ≡ mock_vrf_id =
        ap (λ t. t.owner acc.request) (q.written)
        ∙ law.owned acc.payer acc.request 137 s q.s1 q.created in
      fulfilled_randomness-ok r acc.request mock_vrf_id seed s' q.address owned
        (rw data_bytes (length-stored d a law.eight wide random_wide))
        (rw data_bytes (tag_place d a law.eight wide random_wide))
        (rw data_bytes (seed_place d a law.eight wide random_wide))
      ∙ ap ok (rw data_bytes (randomness_place d a law.eight wide random_wide))
