-- ===== src/Admin/Migration/Outcome.antt =====
-- What the migrations leave: the configuration that was there, with its new fields filled.
use coinflip_program.Base.{
  ◌≡◌, refl, sym, ap, ◌∙◌, arith, true, some, [], ◌∷◌, ◌==◌, slice, from_be_bytes,
}
use coinflip_program.Error.{ok, check, >>=-eq-ok, check-eq-ok, not_signer, seeds}
use coinflip_program.State.{Pubkey, Config, program_id, config_seed}
use coinflip_program.Runtime.{Ledger, Runtime}
use coinflip_program.Runtime.Laws.{TransferLaw}
use coinflip_program.Accounts.{require_signer}
use coinflip_program.Admin.Migration.{
  MigrateConfig, config_space, fill_config, init_new_config_fields, require_config_authority,
  resize_owned_account, follow_config, migrate_config,
}
use coinflip_program.Admin.Migration.Layout.{AreInRange, LayoutLaw, ReallocLaw, padded}
use coinflip_program.Admin.Migration.Encoding.{
  filled, filled-AreInRange, fill_config-encode_config, authority_read,
}
use coinflip_program.Admin.Migration.Resizing.{resize_owned_account-Resized}

-- A migration that succeeds, in its steps.
record Migrated (r : Runtime) (acc : MigrateConfig) (s s' : Ledger) : Type 0 where
  s1 : Ledger
  s2 : Ledger
  signed : s.signed acc.authority ≡ true
  resized : resize_owned_account r acc.config acc.authority config_space s ≡ ok s1
  by_authority : require_config_authority acc.config acc.authority s1 ≡ ok tt
  filling : init_new_config_fields acc.config s1 ≡ ok s2
  followed : s' ≡ follow_config r acc.config s2

migrate_config-Migrated :
    (r : Runtime) (acc : MigrateConfig) (s s' : Ledger)
    → migrate_config r acc s ≡ ok s'
    → Migrated r acc s s'
unfolding migrate_config
migrate_config-Migrated r acc s s' h =
    let (u, a, h1) = >>=-eq-ok (require_signer acc.authority s) _ h in
    let (v, b, h2) =
      >>=-eq-ok
        (check (acc.config == (r.find_program_address (config_seed ∷ []) program_id).0) seeds) _
        h1 in
    let (s1, c, h3) =
      >>=-eq-ok (resize_owned_account r acc.config acc.authority config_space s) _ h2 in
    let (w, d, h4) = >>=-eq-ok (require_config_authority acc.config acc.authority s1) _ h3 in
    let (s2, e, h5) = >>=-eq-ok (init_new_config_fields acc.config s1) _ h4 in
    record {
      s1 = s1;
      s2 = s2;
      signed = check-eq-ok (s.signed acc.authority) not_signer a;
      resized = c;
      by_authority = d;
      filling = e;
      followed = cc;
    }

authority_known :
    (config authority : Pubkey) (s : Ledger)
    → require_config_authority config authority s ≡ ok tt
    → from_be_bytes (slice (s.bytes config) 8 40) ≡ authority
unfolding require_config_authority
authority_known config authority s h = ground arith

filled_bytes :
    (config : Pubkey) (s s' : Ledger)
    → init_new_config_fields config s ≡ ok s'
    → s'.bytes config ≡ fill_config (s.bytes config)
unfolding init_new_config_fields
filled_bytes config s s' h = ground arith

followed_config :
    (r : Runtime) (k : Pubkey) (s : Ledger)
    → ((follow_config r k s).configs k ≡ r.decode_config (s.bytes k))
      × ((follow_config r k s).bytes ≡ s.bytes)
followed_config r k s = (ground arith, refl)

module _ (r : Runtime) (moving : TransferLaw r) (realloc : ReallocLaw r)
    (layout : LayoutLaw r) where
  -- Suppose that the account's data, padded with zeros to the length of the present layout, is the
  -- encoding of a configuration `c` whose numbers fit their fields. A migration that succeeds is
  -- signed by `c`'s authority, and leaves the encoding of `c` with each of its three last fields at
  -- its default if it was 0, and every other field kept; the account reads as that configuration.
  -- Transfers, lengthening and Anchor's layout are as documented.
  pub migrate_config_fills :
      (acc : MigrateConfig) (s s' : Ledger) (c : Config)
      → AreInRange c
      → padded config_space (s.bytes acc.config) ≡ r.encode_config c
      → migrate_config r acc s ≡ ok s'
      → (s'.configs acc.config ≡ some (filled c))
        × (s'.bytes acc.config ≡ r.encode_config (filled c))
        × (acc.authority ≡ c.authority)
        × (s.signed acc.authority ≡ true)
  migrate_config_fills acc s s' c fits old h =
      let m = migrate_config-Migrated r acc s s' h in
      let bytes1 =
        (resize_owned_account-Resized r moving realloc acc.config acc.authority config_space s m.s1
          m.resized).data_bytes
        ∙ old in
      let bytes2 =
        filled_bytes acc.config m.s1 m.s2 m.filling
        ∙ ap fill_config bytes1
        ∙ fill_config-encode_config r layout c fits in
      let (typed, kept) = followed_config r acc.config m.s2 in
      let decoded = layout.decodes (filled c) (filled-AreInRange c fits) in
      let known = authority_known acc.config acc.authority m.s1 m.by_authority in
      (
        rw (m.followed, typed, bytes2) decoded,
        rw (m.followed) bytes2,
        sym known
            ∙ ap (λ bs. from_be_bytes (slice bs 8 40)) bytes1
            ∙ authority_read r layout c fits,
        m.signed,
      )
