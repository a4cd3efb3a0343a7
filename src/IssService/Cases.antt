-- ===== src/IssService/Cases.antt =====
-- A service that starts, that is passed clients and that answers them, and the theorems there.
use computer_networks_assign.Prelude.{
  ℕ, ◌+◌, ◌≡◌, ◌⊎◌, ◌≢◌, ◌<◌, refl, true, false, List, [], ◌∷◌, map, replicate, arith,
}
use computer_networks_assign.Prelude.Int.{ℤ, pos}
use computer_networks_assign.Os.{
  af_inet, stream, loopback_port, Reply, Trace, socket, accept, recvmsg, read, send, Os, Outcome,
  done, exited, crashed, trace_of,
}
use computer_networks_assign.Os.Life.{listening, sock_state, Fresh}
use computer_networks_assign.Os.Unseen.{above, above-absent}
use computer_networks_assign.Inetd.{FdSet}
use computer_networks_assign.IssService.{
  start, Loop, enter, check_first, check_passed, convert_one, convert, terminate, talk, scan, round,
}
use computer_networks_assign.Iss.{Partner, Iss, partner, new_partner}
use computer_networks_assign.IssService.Starting.{sent}
use computer_networks_assign.IssService.Introducing.{new_partner-start}
use computer_networks_assign.IssService.Converting.{answer, talk-answer}
use computer_networks_assign.IssService.Watching.{Watched, round_keeps_clients}

abbrev starting : Os
starting tr (socket d t) = record { ret = pos (above tr + 1); passed = pos 0; text = [] }
starting tr c = record { ret = pos 0; passed = pos 0; text = [] }

starting-Fresh : Fresh starting
starting-Fresh tr d t = above-absent tr (above tr + 1) (omega arith)

-- iss.c gets the numbers over the connection 21.
abbrev other : Partner
other = record { nusfd = pos 20; pid = pos 70 }

abbrev knows_one : Iss
knows_one = record {
  partners = other ∷ [];
  taken = [];
  next_port = pos 0;
  map = λ port. 0;
  readset = λ fd. true;
  maxfp1 = pos 20;
}

abbrev number : Trace → ℕ
number (e ∷ []) = 8000
number tr = 77

abbrev hearing : Os
hearing tr (accept fd) = record { ret = pos 21; passed = pos 0; text = [] }
hearing tr c = record { ret = pos 4; passed = pos (number tr); text = [] }

abbrev begun : Trace
begun = trace_of (start 8000 77 starting [])

new_partner-start_example :
    (sock_state (pos 8) begun ≡ listening af_inet stream (loopback_port 8000))
    × (v' : Iss) × (t' : Trace) × (new_partner (pos 3) knows_one hearing [] ≡ done v' t')
    × (partner v' 8000 ≡ record { nusfd = pos 21; pid = pos 77 })
    × ((q : ℕ) → q ≢ 8000 → 0 < 1 → partner v' q ≡ partner knows_one q)
unfolding start above sent
new_partner-start_example =
    new_partner-start 8000 77 8000 77 (pos 4) (pos 8) (pos 3) knows_one starting hearing begun []
      starting-Fresh refl refl
      (record { first_ret = refl; first_passed = refl; second_ret = refl; second_passed = refl })
      (omega arith) (omega arith) (omega arith) (omega arith) (omega arith)

-- The second client sends "x{y", with '{' at its own index.
abbrev text : List ℕ
text = b'x' ∷ b'{' ∷ b'y' ∷ []

abbrev typing : Os
typing tr (read fd) = record { ret = pos 3; passed = pos 0; text = text }
typing tr c = record { ret = pos 0; passed = pos 0; text = [] }

text_unchanged : map (answer false) text ≡ text
unfolding answer
text_unchanged = refl

text_of_first : map (answer true) text ≡ b'X' ∷ b'[' ∷ b'Y' ∷ []
unfolding answer
text_of_first = refl

talk-answer_example :
    (r : Reply) × (talk (replicate 50 0) 1 (pos 9) typing []
      ≡ done tt (
          record { call = send (pos 9) (map (answer false) text); reply = r }
          ∷ record { call = read (pos 9); reply = typing [] (read (pos 9)) }
          ∷ []))
talk-answer_example =
    talk-answer (replicate 50 0) text 1 b'{' (pos 9) typing [] (omega arith) refl refl refl

-- One client, at 9; another connects, and a third is passed by iss.c.
abbrev before : Loop
before = record { nsfd = pos 9 ∷ []; f = false; readset = λ fd. true; maxfp1 = pos 9 }

abbrev passing : Os
passing tr (accept fd) = record { ret = pos 10; passed = pos 0; text = [] }
passing tr (recvmsg fd) = record { ret = pos 1; passed = pos 11; text = [] }
passing tr c = typing tr c

abbrev value_of : {A : Type 0} → A → Outcome A → A
value_of v (done w tr) = w
value_of v (exited n tr) = v
value_of v (crashed tr) = v

abbrev ready : FdSet
ready fd = true

abbrev after : Loop
after = value_of before (round (replicate 50 0) (pos 4) (pos 8) before (pos 3) ready passing [])

round_run : after.nsfd ≡ pos 9 ∷ pos 10 ∷ pos 11 ∷ []
unfolding round check_first check_passed enter scan talk terminate convert convert_one
round_run = refl

round_keeps_clients_example :
    ((new : List ℤ) × (after.nsfd ≡ pos 9 ∷ new))
    × Watched after.nsfd after.readset
    × (after.readset (pos 4) ≡ true)
    × ((after.f ≡ true) ⊎ (after.readset (pos 8) ≡ true))
unfolding round check_first check_passed enter scan talk terminate convert convert_one
round_keeps_clients_example =
    round_keeps_clients (replicate 50 0) (pos 4) (pos 8) before after (pos 3) ready passing []
      (trace_of (round (replicate 50 0) (pos 4) (pos 8) before (pos 3) ready passing [])) refl refl
      refl
