-- ===== src/Checksum/Cases.antt =====
-- Runs of `csum`, and its theorems at concrete buffers.
use computer_networks_assign.Prelude.{ℕ, ◌≡◌, refl, none, some, List, [], ◌∷◌, arith}
use computer_networks_assign.Checksum.{csum_loop, csum_odd, csum_fold, csum, store_check, word_at}
use computer_networks_assign.Checksum.Words.{double}
use computer_networks_assign.Checksum.Laws.{csum-store_check}

-- Six bytes with a clear check field in the second word.
abbrev header : List ℕ
header = 0x45 ∷ 0x00 ∷ 0 ∷ 0 ∷ 0xff ∷ 0xff ∷ []

header_run : csum header 6 ≡ some 0xffba
unfolding csum csum_loop csum_odd csum_fold word_at
header_run = refl

-- Five bytes in a buffer of five: the third word is read past the end.
csum_past_end : csum (1 ∷ 2 ∷ 3 ∷ 4 ∷ 5 ∷ []) 5 ≡ none
unfolding csum csum_loop csum_odd csum_fold word_at
csum_past_end = refl

csum-store_check_example : csum (store_check header (double 1) 0xffba) (double 3) ≡ some 0
unfolding csum csum_loop csum_odd csum_fold word_at
csum-store_check_example =
    csum-store_check header 1 3 0xffba (omega arith) (omega arith) (omega arith) (omega arith) refl
      refl refl
