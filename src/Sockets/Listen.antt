-- ===== src/Sockets/Listen.antt =====
-- What a server may rely on when a function of functions_needed.c returns a descriptor to it.
use Prim.Native.String.{String}
use computer_networks_assign.Prelude.{ℕ, ◌≡◌, true, false, ◌∷◌, arith, ◌⊎◌}
use computer_networks_assign.Prelude.Int.{ℤ, is_neg, is_zero, eqz_self}
use computer_networks_assign.Os.{
  af_unix, af_inet, stream, dgram, path, any_port, loopback_port, socket, setsockopt, HasExited,
  Trace, Os, done,
}
use computer_networks_assign.Os.Life.{SockState, created, bound, listening, connected, sock_state}
use computer_networks_assign.Sockets.{
  serv_listen, inet_serv_listen, cli_conn, cli_conn_tcp, inet_udp_serv_listen, cli_conn_udp,
}

-- `serv_listen` returns a descriptor only if it is a stream socket that listens on the path.
pub serv_listen_Listening :
    (os : Os) (tr tr' : Trace) (name : String) (fd : ℤ)
    → serv_listen name os tr ≡ done fd tr'
    → (is_neg fd ≡ false) × (sock_state fd tr' ≡ listening af_unix stream (path name))
unfolding serv_listen sock_state
serv_listen_Listening os tr tr' name fd e = ground (arith, eqz_self fd)

-- The kernel refuses to set options on a negative descriptor (EBADF).
abbrev pub RefusesBadFd : Os → Type 0
RefusesBadFd os =
    (tr : Trace) (fd : ℤ) → is_neg fd ≡ true → is_zero (os tr (setsockopt fd)).ret ≡ false

inet_serv_listen_state :
    (os : Os) (tr tr' : Trace) (port : ℕ) (fd : ℤ)
    → inet_serv_listen port os tr ≡ done fd tr'
    → is_neg fd ≡ false
    → sock_state fd tr' ≡ listening af_inet stream (any_port port)
unfolding inet_serv_listen sock_state
inet_serv_listen_state os tr tr' port fd e h = ground (arith, eqz_self fd)

inet_serv_listen_positive :
    (os : Os) (tr tr' : Trace) (port : ℕ) (fd : ℤ)
    → RefusesBadFd os
    → inet_serv_listen port os tr ≡ done fd tr'
    → is_neg fd ≡ false
unfolding inet_serv_listen
inet_serv_listen_positive os tr tr' port fd k e =
    let made = os tr (socket af_inet stream) in
    ground (arith, k (record { call = socket af_inet stream; reply = made } ∷ tr) made.ret)

-- The test of `socket` in `inet_serv_listen` is for 0, so that a failure gets past it. On a kernel
-- that refuses bad descriptors the next call stops it: what the function returns is then a stream
-- socket that listens on the port.
pub inet_serv_listen_Listening :
    (os : Os) (tr tr' : Trace) (port : ℕ) (fd : ℤ)
    → RefusesBadFd os
    → inet_serv_listen port os tr ≡ done fd tr'
    → (is_neg fd ≡ false) × (sock_state fd tr' ≡ listening af_inet stream (any_port port))
inet_serv_listen_Listening os tr tr' port fd k e =
    let h = inet_serv_listen_positive os tr tr' port fd k e in
    (h, inet_serv_listen_state os tr tr' port fd e h)

-- A UDP server gets a bound socket.
pub inet_udp_serv_listen_Bound :
    (os : Os) (tr tr' : Trace) (port : ℕ) (fd : ℤ)
    → inet_udp_serv_listen port os tr ≡ done fd tr'
    → (is_neg fd ≡ false) × (sock_state fd tr' ≡ bound af_inet dgram (any_port port))
unfolding inet_udp_serv_listen sock_state
inet_udp_serv_listen_Bound os tr tr' port fd e = ground (arith, eqz_self fd)

pub cli_conn_Connected :
    (os : Os) (tr tr' : Trace) (server name : String) (fd : ℤ)
    → cli_conn server name os tr ≡ done fd tr'
    → (is_neg fd ≡ false) × (sock_state fd tr' ≡ connected af_unix stream (path server))
unfolding cli_conn sock_state
cli_conn_Connected os tr tr' server name fd e = ground (arith, eqz_self fd)

-- `cli_conn_tcp` returns a descriptor that is connected, or else one that is only created, after the
-- line about the failed connection: its caller cannot tell the two.
cli_conn_tcp_states :
    (os : Os) (tr tr' : Trace) (usfd fd : ℤ) (port : ℕ)
    → cli_conn_tcp usfd port os tr ≡ done fd tr'
    → (is_neg fd ≡ false)
      × ((sock_state fd tr' ≡ connected af_inet stream (loopback_port port))
          ⊎ (sock_state fd tr' ≡ created af_inet stream))
unfolding cli_conn_tcp sock_state
cli_conn_tcp_states os tr tr' usfd fd port e = ground (arith, eqz_self fd)

-- The option is set on the wrong descriptor: while the global `usfd` holds no open socket, the TCP
-- client never gets a connection, and ends the process.
pub cli_conn_tcp_needs_usfd :
    (os : Os) (tr : Trace) (usfd : ℤ) (port : ℕ)
    → RefusesBadFd os
    → is_neg usfd ≡ true
    → HasExited (cli_conn_tcp usfd port os tr)
unfolding cli_conn_tcp
cli_conn_tcp_needs_usfd os tr usfd port k h =
    let made = os tr (socket af_inet stream) in
    ground (arith, k (record { call = socket af_inet stream; reply = made } ∷ tr) usfd)

cli_conn_udp_state :
    (os : Os) (tr tr' : Trace) (fd : ℤ)
    → cli_conn_udp os tr ≡ done fd tr'
    → (is_neg fd ≡ false) × (sock_state fd tr' ≡ created af_inet dgram)
unfolding cli_conn_udp sock_state
cli_conn_udp_state os tr tr' fd e = ground (arith, eqz_self fd)

-- A run of one of the functions that returned a descriptor, with the state that the descriptor should
-- be in.
pub data Opens (os : Os) (tr : Trace) : SockState → ℤ → Trace → Type 0 where
  by_serv_listen :
      (name : String) (fd : ℤ) (tr' : Trace)
      → serv_listen name os tr ≡ done fd tr'
      → Opens os tr (listening af_unix stream (path name)) fd tr'
  by_cli_conn :
      (server name : String) (fd : ℤ) (tr' : Trace)
      → cli_conn server name os tr ≡ done fd tr'
      → Opens os tr (connected af_unix stream (path server)) fd tr'
  by_inet_serv_listen :
      (port : ℕ) (fd : ℤ) (tr' : Trace)
      → inet_serv_listen port os tr ≡ done fd tr'
      → Opens os tr (listening af_inet stream (any_port port)) fd tr'
  by_inet_udp_serv_listen :
      (port : ℕ) (fd : ℤ) (tr' : Trace)
      → inet_udp_serv_listen port os tr ≡ done fd tr'
      → Opens os tr (bound af_inet dgram (any_port port)) fd tr'
  by_cli_conn_udp :
      (fd : ℤ) (tr' : Trace)
      → cli_conn_udp os tr ≡ done fd tr'
      → Opens os tr (created af_inet dgram) fd tr'

-- On a kernel that refuses options on a negative descriptor, what `serv_listen`, `cli_conn`,
-- `inet_serv_listen` or `inet_udp_serv_listen` returns, or `cli_conn_udp` leaves in `usfd`, is not
-- negative, and is, by the calls of the trace, a socket that listens on the path or the port, is
-- connected to the server's path, is bound to the port, or is a datagram socket just created.
-- (`inet_serv_listen` tests the result of `socket` for 0 only.)
pub Opens-sound :
    {os : Os} {tr : Trace} {st : SockState} {fd : ℤ} {tr' : Trace}
    → RefusesBadFd os
    → Opens os tr st fd tr'
    → (is_neg fd ≡ false) × (sock_state fd tr' ≡ st)
Opens-sound {os} {tr} k (by_serv_listen name fd tr' e) = serv_listen_Listening os tr tr' name fd e
Opens-sound {os} {tr} k (by_cli_conn server name fd tr' e) =
    cli_conn_Connected os tr tr' server name fd e
Opens-sound {os} {tr} k (by_inet_serv_listen port fd tr' e) =
    inet_serv_listen_Listening os tr tr' port fd k e
Opens-sound {os} {tr} k (by_inet_udp_serv_listen port fd tr' e) =
    inet_udp_serv_listen_Bound os tr tr' port fd e
Opens-sound {os} {tr} k (by_cli_conn_udp fd tr' e) = cli_conn_udp_state os tr tr' fd e
