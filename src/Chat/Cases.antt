-- ===== src/Chat/Cases.antt =====
-- Clients of the chat server, and its theorems on them.
use computer_networks_assign.Prelude.{◌≡◌, refl, true, Option, none, some, [], ◌∷◌, ◌++◌, arith}
use computer_networks_assign.Chat.{MessageBuf, Server, known, is_there, handle}
use computer_networks_assign.Chat.Broadcast.{inbox, distinct, copy, Sound, handle_delivers}

abbrev hello : MessageBuf
hello = record { mesg_type = 20; mesg_text = b'h' ∷ b'i' ∷ [] }

abbrev three : Server
three = record { read_queue = []; write_queue = []; pids = 10 ∷ 20 ∷ 30 ∷ [] }

abbrev value_of : Server → Option Server → Server
value_of v none = v
value_of v (some w) = w

three-Sound : Sound three
unfolding distinct known
three-Sound = (refl, omega arith)

handle_delivers_example :
    Sound (value_of three (handle hello three))
    × (known 20 (value_of three (handle hello three)).pids ≡ true)
    × (inbox 30 (value_of three (handle hello three)).write_queue
        ≡ inbox 30 three.write_queue ++ copy hello (value_of three (handle hello three)).pids 30)
unfolding handle is_there known
handle_delivers_example =
    handle_delivers hello three (value_of three (handle hello three)) 30 refl three-Sound

abbrev empty : Server
empty = record { read_queue = []; write_queue = []; pids = [] }
