-- ===== src/Sockets/Cases.antt =====
-- Kernels on which the socket functions run, and their theorems there.
use computer_networks_assign.Prelude.{◌+◌, ◌≡◌, refl, false, [], length, if◌then◌else◌}
use computer_networks_assign.Prelude.Int.{ℤ, pos, negsuc, minus_one, is_neg}
use computer_networks_assign.Os.{
  trace_of, af_unix, af_inet, stream, dgram, path, any_port, Call, socket, setsockopt, Trace, Os,
  HasExited, connect,
}
use computer_networks_assign.Os.Life.{created, bound, listening, connected, sock_state}
use computer_networks_assign.Sockets.{
  serv_listen, inet_serv_listen, cli_conn, cli_conn_tcp, inet_udp_serv_listen,
}
use computer_networks_assign.Sockets.Listen.{
  RefusesBadFd, Opens, by_serv_listen, by_cli_conn, by_inet_serv_listen, by_inet_udp_serv_listen,
  Opens-sound,
}

-- A kernel that grants every call on a good descriptor; sockets are numbered by the calls made.
abbrev granted : Trace → Call → ℤ
granted tr (socket d t) = pos (length tr + 3)
granted tr (setsockopt fd) = if is_neg fd then minus_one else pos 0
granted tr c = pos 0

abbrev generous : Os
generous tr c = record { ret = granted tr c; passed = pos 9; text = [] }

-- The same, but nobody listens at the other end.
abbrev refused : Trace → Call → ℤ
refused tr (connect fd a) = minus_one
refused tr c = granted tr c

abbrev lonely : Os
lonely tr c = record { ret = refused tr c; passed = pos 9; text = [] }

generous_refuses : RefusesBadFd generous
generous_refuses tr (pos n) h = cc
generous_refuses tr (negsuc n) h = refl

-- Each of the four functions returns on this kernel.
unix_run :
    Opens generous []
      (listening af_unix stream (path "./fsock"))
      (pos 3)
      (trace_of (serv_listen "./fsock" generous []))
unfolding serv_listen
unix_run = by_serv_listen "./fsock" (pos 3) _ refl

client_run :
    Opens generous []
      (connected af_unix stream (path "./fsock"))
      (pos 3)
      (trace_of (cli_conn "./fsock" "./csock" generous []))
unfolding cli_conn
client_run = by_cli_conn "./fsock" "./csock" (pos 3) _ refl

udp_run :
    Opens generous []
      (bound af_inet dgram (any_port 7000))
      (pos 3)
      (trace_of (inet_udp_serv_listen 7000 generous []))
unfolding inet_udp_serv_listen
udp_run = by_inet_udp_serv_listen 7000 (pos 3) _ refl

tcp_run :
    Opens generous []
      (listening af_inet stream (any_port 5000))
      (pos 3)
      (trace_of (inet_serv_listen 5000 generous []))
unfolding inet_serv_listen
tcp_run = by_inet_serv_listen 5000 (pos 3) _ refl

Opens-sound_example :
    (is_neg (pos 3) ≡ false)
    × (sock_state (pos 3) (trace_of (inet_serv_listen 5000 generous []))
        ≡ listening af_inet stream (any_port 5000))
Opens-sound_example = Opens-sound generous_refuses tcp_run

-- The connection failed, and the descriptor is returned all the same.
cli_conn_tcp_hides_failure :
    sock_state (pos 3) (trace_of (cli_conn_tcp (pos 1) 5000 lonely [])) ≡ created af_inet stream
unfolding cli_conn_tcp sock_state
cli_conn_tcp_hides_failure = refl

-- The option is set on the global `usfd`, which is not open here.
cli_conn_tcp_ends : HasExited (cli_conn_tcp minus_one 5000 generous [])
unfolding cli_conn_tcp
cli_conn_tcp_ends = tt
