-- ===== src/Chat/Runaway.antt =====
-- What the server makes of its own answers. `is_there` puts the answer to a new client into the queue
-- that the server itself reads, and the server takes the first message, of whatever type.
use computer_networks_assign.Prelude.{
  ℕ, zero, suc, ◌+◌, Bool, true, false, Option, none, some, List, [], ◌∷◌, ltb, if◌then◌else◌,
}
use computer_networks_assign.Chat.{MessageBuf, Server, joined, round}

-- Rounds of the server alone, while no client takes its answer from the queue.
unfoldable pub rounds : ℕ → Server → Option Server
unfolding round
rounds zero v = some v
rounds (suc n) v = elim (round v) [ none ↦ none | some v' ↦ rounds n v' ]

abbrev pub answer : ℕ → MessageBuf
answer pid = record { mesg_type = pid; mesg_text = joined }

-- All clients are below `pid`.
unfoldable below : ℕ → List ℕ → Bool
below pid [] = true
below pid (p ∷ ps) = let rest = below pid ps in if ltb p pid then rest else false

-- What the queue holds after `k` rounds: at first the message, then the answer to the last round's.
abbrev pub queued : MessageBuf → ℕ → List MessageBuf
queued m zero = m ∷ []
queued m (suc k) = answer (m.mesg_type + suc k) ∷ []

-- `k` numbers from `n` on.
abbrev pub numbers : ℕ → ℕ → List ℕ
numbers n zero = []
numbers n (suc k) = n ∷ numbers (n + 1) k
