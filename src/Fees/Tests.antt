-- ===== src/Fees/Tests.antt =====
use coinflip_program.Base.{◌≡◌, refl}
use coinflip_program.Error.{ok}
use coinflip_program.Fees.{pot_fee}

pot_fee_test : pot_fee 50_000_000 350 ≡ ok 3_500_000
unfolding pot_fee
pot_fee_test = refl
