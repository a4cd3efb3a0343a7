-- ===== src/Sockets.antt =====
-- The socket functions that the servers share, as functions_needed.c collects them.
use Prim.Native.String.{String}
use computer_networks_assign.Prelude.{if◌then◌else◌, ℕ, not}
use computer_networks_assign.Prelude.Int.{ℤ, pos, minus_one, is_neg, is_zero}
use computer_networks_assign.Os.{
  af_unix, af_inet, stream, dgram, path, any_port, loopback_port, socket, setsockopt, unlink, bind,
  connect, listen, sendmsg, recvmsg, perror, print, M, pure, ◌>>=◌, ◌>>◌, ask, sys, call, exit,
  die_if,
}
pub mod Listen
mod Cases

-- The fd passing sender side
unfoldable pub send_fd : ℤ → ℤ → M ℤ
send_fd fd fd_to_send = do
  r ← sys (sendmsg fd fd_to_send)
  if is_neg r then (call (perror "sendmsg") >> pure minus_one) else pure (pos 0)

unfoldable pub serv_listen : String → M ℤ
serv_listen name = do
  fd ← sys (socket af_unix stream)
  die_if (is_neg fd) "socket" 1
  call (unlink name)
  b ← sys (bind fd (path name))
  die_if (is_neg b) "bind" 1
  l ← sys (listen fd 10)
  die_if (is_neg l) "listen" 1
  pure fd

-- The fd passing acceptor side
unfoldable pub recv_fd : ℤ → M ℤ
recv_fd fd = do
  m ← ask (recvmsg fd)
  if is_neg m.ret then (call (perror "recvmsg") >> pure minus_one) else pure m.passed

-- A client of `serv_listen server`, bound to a name of its own.
unfoldable pub cli_conn : String → String → M ℤ
cli_conn server name = do
  fd ← sys (socket af_unix stream)
  die_if (is_neg fd) "socket" 1
  o ← sys (setsockopt fd)
  die_if (not (is_zero o)) "setsockopt" 1
  call (unlink name)
  b ← sys (bind fd (path name))
  die_if (not (is_zero b)) "bind" 1
  c ← sys (connect fd (path server))
  die_if (is_neg c) "connect" 1
  pure fd

-- TCP server side. The test of `socket` is for 0, and not for a negative result.
unfoldable pub inet_serv_listen : ℕ → M ℤ
inet_serv_listen port = do
  sfd ← sys (socket af_inet stream)
  die_if (is_zero sfd) "socket" 1
  o ← sys (setsockopt sfd)
  die_if (not (is_zero o)) "setsockopt" 1
  b ← sys (bind sfd (any_port port))
  die_if (is_neg b) "bind" 1
  l ← sys (listen sfd 10)
  die_if (is_neg l) "listen" 1
  pure sfd

-- TCP client side. The option is set on the global `usfd`, and a failed `connect` is only reported.
unfoldable pub cli_conn_tcp : ℤ → ℕ → M ℤ
cli_conn_tcp usfd port = do
  sfd ← sys (socket af_inet stream)
  if is_neg sfd then (call (print "socket creation failed") >> exit 0) else pure tt
  o ← sys (setsockopt usfd)
  die_if (not (is_zero o)) "setsockopt" 1
  c ← sys (connect sfd (loopback_port port))
  if is_neg c then call (print "Error : Connect Failed") else pure tt
  pure sfd

-- UDP server side
unfoldable pub inet_udp_serv_listen : ℕ → M ℤ
inet_udp_serv_listen port = do
  usfd ← sys (socket af_inet dgram)
  die_if (is_neg usfd) "UDP socket" 1
  o ← sys (setsockopt usfd)
  die_if (not (is_zero o)) "setsockopt" 1
  b ← sys (bind usfd (any_port port))
  die_if (is_neg b) "UDP bind" 1
  pure usfd

-- UDP client side. The descriptor is left in the global `usfd`; the address that is filled in is lost,
-- and nothing is returned.
unfoldable pub cli_conn_udp : M ℤ
cli_conn_udp = do
  usfd ← sys (socket af_inet dgram)
  if is_neg usfd then (call (print "socket creation failed") >> exit 0) else pure tt
  o ← sys (setsockopt usfd)
  die_if (not (is_zero o)) "setsockopt" 1
  pure usfd
