-- ===== src/Chksum/Cases.antt =====
-- Runs of `chksum`, and its theorems at concrete buffers.
use computer_networks_assign.Prelude.{ℕ, ◌≡◌, refl, some, List, [], ◌∷◌}
use computer_networks_assign.Checksum.{word_at}
use computer_networks_assign.Chksum.{chksum_sum, chksum_fold, chksum}

abbrev five : List ℕ
five = 0x45 ∷ 0x00 ∷ 0xff ∷ 0x12 ∷ 0x07 ∷ []

five_run : chksum five 5 ≡ some 0xecb4
unfolding chksum chksum_sum chksum_fold word_at
five_run = refl
