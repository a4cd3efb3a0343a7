-- ===== src/Chat.antt =====
-- The chat server on message queues, Message Queues: Assignment_8/q5_chat_server/s.c. A queue is the
-- list of its messages, the oldest first. `text` stands for the bytes of `mesg_text`.
use computer_networks_assign.Prelude.{
  ℕ, ◌+◌, Bool, true, false, ◌||◌, Option, none, some, List, [], ◌∷◌, ◌++◌, length, ltb, ◌==◌,
  if◌then◌else◌,
}
pub mod Broadcast
pub mod Runaway
mod Cases

abbrev pub Text : Type 0
Text = List ℕ

pub record MessageBuf : Type 0 where
  pub mesg_type : ℕ
  pub mesg_text : Text

-- The two queues and the first `total_client` items of `pids`.
pub record Server : Type 0 where
  pub read_queue : List MessageBuf
  pub write_queue : List MessageBuf
  pub pids : List ℕ

-- The size of `pids`
abbrev pub max_pids : ℕ
max_pids = 100

abbrev pub joined : Text
joined = b'1' ∷ b'0' ∷ b'1' ∷ []

unfoldable pub known : ℕ → List ℕ → Bool
known pid [] = false
known pid (p ∷ ps) = p == pid || known pid ps

-- `is_there`: a client that is new is entered, and is told so in the queue that the server reads.
-- `none` is a write behind `pids`.
unfoldable pub is_there : ℕ → Server → Option Server
is_there pid v =
    if known pid v.pids
    then some v
    else if ltb (length v.pids) max_pids
    then some (record v {
      pids = v.pids ++ pid ∷ [];
      read_queue = v.read_queue ++ record { mesg_type = pid + 1; mesg_text = joined } ∷ [];
    })
    else none

-- The body of the loop: the message goes to the client `p`, unless `p` has sent it.
unfoldable pub send_other : MessageBuf → ℕ → List MessageBuf → List MessageBuf
send_other m p q =
    if p == m.mesg_type then q else q ++ record { mesg_type = p; mesg_text = m.mesg_text } ∷ []

-- `for(int i=0;i<total_client;i++)`
unfoldable pub broadcast : MessageBuf → List ℕ → List MessageBuf → List MessageBuf
broadcast m [] q = q
broadcast m (p ∷ ps) q = broadcast m ps (send_other m p q)

-- What is done with a message that `msgrcv` has taken from the queue.
unfoldable pub handle : MessageBuf → Server → Option Server
unfolding is_there broadcast
handle m v = elim (is_there m.mesg_type v) [
  | none ↦ none
  | some v' ↦ some (record v' { write_queue = broadcast m v'.pids v'.write_queue })
]

-- `msgrcv` of a queue with a type: 0 takes the first message, another the first of that type.
unfoldable pub msgrcv : ℕ → List MessageBuf → Option (MessageBuf × List MessageBuf)
msgrcv type [] = none
msgrcv type (m ∷ q) =
    let rest = msgrcv type q in
    if type == 0 || m.mesg_type == type
    then some (m, q)
    else elim rest [ none ↦ none | some r ↦ some (r.0, m ∷ r.1) ]

-- One round of the loop of `main`, when there is a message; without one it waits.
unfoldable pub round : Server → Option Server
unfolding msgrcv handle
round v = elim (msgrcv 0 v.read_queue) [
  | none ↦ some v
  | some r ↦ handle r.0 (record v { read_queue = r.1 })
]

-- What the clients do: `first_time` and `sigint` of c1.c send a text under the process id, and
-- `first_time` waits for the type after it.
unfoldable pub client_sends : ℕ → Text → Server → Server
client_sends pid text v = record v {
  read_queue = v.read_queue ++ record { mesg_type = pid; mesg_text = text } ∷ [];
}
