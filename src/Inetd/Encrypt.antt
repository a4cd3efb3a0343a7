-- ===== src/Inetd/Encrypt.antt =====
-- What a UDP client of the super servers gets back.
use computer_networks_assign.Prelude.{
  ◌+◌, ◌%◌, ◌<◌, ◌≡◌, refl, [], ◌∷◌, ◌++◌, map, All, ◌==◌, if◌then◌else◌, arith,
}
use computer_networks_assign.Inetd.{Text, encrypt, c_str}

-- The text up to its first digit 0.
abbrev pub until_zero_digit : Text → Text
until_zero_digit [] = []
until_zero_digit (c ∷ cs) = let rest = until_zero_digit cs in if c == b'0' then [] else c ∷ rest

-- The reply, turned back by 48 a byte, is the message only as far as its first digit 0: this is
-- turned into NUL, which ends the loop and the text.
pub encrypt_decodes :
    (mesg : Text)
    → All (λ c. c < 256) mesg
    → map (λ c. (c + b'0') % 256) (c_str (encrypt (mesg ++ 0 ∷ []))) ≡ until_zero_digit (c_str mesg)
unfolding encrypt
encrypt_decodes [] h = refl
encrypt_decodes (c ∷ cs) h = ground (arith, encrypt_decodes cs h.1)
