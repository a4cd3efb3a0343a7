-- ===== src/Inetd/Cases.antt =====
-- A configuration, a kernel that grants every call, and the theorems of the super server there.
use computer_networks_assign.Prelude.{
  ◌-◌, ℕ, ◌+◌, ◌%◌, ◌≡◌, refl, true, false, [], ◌∷◌, map, length, arith,
}
use computer_networks_assign.Prelude.Int.{ℤ, pos, minus_one, ltz}
use computer_networks_assign.Os.{
  trace_of, Call, socket, accept, fork, Trace, Os, Outcome, done, exited, crashed,
}
use computer_networks_assign.Inetd.{
  Service, Server, Text, FdSet, tokens, config_service, config_line, config_lines, sig_handler,
  encrypt, c_str, round,
}
use computer_networks_assign.Inetd.Encrypt.{until_zero_digit, encrypt_decodes}
use computer_networks_assign.Inetd.Config.{Inv, sig_handler-Inv}

-- "a tcp e 8 ./c" and "e udp i 9 ./e"
abbrev line_a : Text
line_a =
    b'a' ∷ b' ' ∷ b't' ∷ b'c' ∷ b'p' ∷ b' ' ∷ b'e' ∷ b' ' ∷ b'8' ∷ b' ' ∷ b'.' ∷ b'/' ∷ b'c' ∷ []

abbrev line_e : Text
line_e =
    b'e' ∷ b' ' ∷ b'u' ∷ b'd' ∷ b'p' ∷ b' ' ∷ b'i' ∷ b' ' ∷ b'9' ∷ b' ' ∷ b'.' ∷ b'/' ∷ b'e' ∷ []

abbrev unit_digit : Text → ℕ
unit_digit [] = 0
unit_digit (c ∷ cs) = c - b'0'

abbrev start : Server
start = record {
  services = [];
  readset = λ fd. false;
  m = minus_one;
  fp = line_a ∷ line_e ∷ [] ∷ line_a ∷ [];
}

abbrev answer : Trace → Call → ℤ
answer tr (socket d t) = pos (length tr + 3)
answer tr (accept fd) = pos 40
answer tr fork = pos 99
answer tr c = pos 0

abbrev kernel : Os
kernel tr c = record { ret = answer tr c; passed = pos 0; text = b'p' ∷ [] }

abbrev value_of : Server → Outcome Server → Server
value_of v (done w tr) = w
value_of v (exited n tr) = v
value_of v (crashed tr) = v

abbrev configured : Server
configured = value_of start (sig_handler unit_digit start kernel [])

configured_services :
    configured.services
    ≡ record { is_tcp = true; fd = pos 3; port = 8; operation = b'.' ∷ b'/' ∷ b'c' ∷ [] }
      ∷ record { is_tcp = false; fd = pos 7; port = 9; operation = b'.' ∷ b'/' ∷ b'e' ∷ [] }
      ∷ []
unfolding sig_handler config_lines config_line config_service tokens
configured_services = refl

start-Inv : Inv start
start-Inv = record { few = omega arith; good = tt; watched = tt; below = tt }

sig_handler-Inv_example : Inv configured
unfolding sig_handler config_lines config_line config_service tokens
sig_handler-Inv_example =
    sig_handler-Inv unit_digit start configured kernel []
      (trace_of (sig_handler unit_digit start kernel [])) refl start-Inv

abbrev tcp_service : Service
tcp_service = record { is_tcp = true; fd = pos 3; port = 8; operation = b'.' ∷ b'/' ∷ b'c' ∷ [] }

-- "b0b": the reply ends before the digit.
encrypt_run : c_str (encrypt (b'b' ∷ b'0' ∷ b'b' ∷ 0 ∷ [])) ≡ b'2' ∷ []
unfolding encrypt
encrypt_run = refl

encrypt_decodes_example :
    map (λ c. (c + b'0') % 256) (c_str (encrypt (b'b' ∷ b'0' ∷ b'b' ∷ 0 ∷ [])))
    ≡ until_zero_digit (b'b' ∷ b'0' ∷ b'b' ∷ [])
encrypt_decodes_example = encrypt_decodes (b'b' ∷ b'0' ∷ b'b' ∷ []) (omega arith)

abbrev two_services : Server
two_services = record start {
  services = tcp_service ∷ record { is_tcp = false; fd = pos 7; port = 9; operation = [] } ∷ [];
}

abbrev one_ready : FdSet
one_ready fd = ltz fd (pos 4)

abbrev after_round : Server
after_round = value_of two_services (round two_services (pos 1) one_ready kernel [])
