-- ===== src/Aos.antt =====
-- The dispatcher of the platforms, Mid_exam/Q1/aos.c: the servers S1 to S4 connect over Unix domain
-- sockets, and each gets the first client of one TCP port. The socket functions of the file are those
-- of Sockets.antt.
use Prim.Native.String.{String}
use computer_networks_assign.Prelude.{ℕ}
use computer_networks_assign.Prelude.Int.{ℤ, is_neg}
use computer_networks_assign.Os.{
  accept, kill, sigusr1, shared_int, M, pure, ◌>>=◌, ◌>>◌, ask, sys, call, die_if,
}
use computer_networks_assign.Sockets.{send_fd, serv_listen, inet_serv_listen}
pub mod Handing
pub mod Connecting
mod Cases

abbrev pub path1 : String
path1 = "./fsock1"

abbrev pub path2 : String
path2 = "./fsock2"

abbrev pub path3 : String
path3 = "./fsock3"

abbrev pub path4 : String
path4 = "./fsock4"

-- `if((nufd = accept(ufd,…)) < 0) { perror(text); exit(1); }`
unfoldable pub accepted : ℤ → String → M ℤ
accepted fd text = do n ← sys (accept fd); die_if (is_neg n) text 1; pure n

-- `if(send_fd(nufd,nsfd)<0) { perror("send fd"); exit(1); }`
unfoldable pub sent : ℤ → ℤ → M (Unit {0})
unfolding send_fd
sent nufd nsfd = do r ← send_fd nufd nsfd; die_if (is_neg r) "send fd" 1

-- The first client of `port` goes to the server behind `nufd`.
unfoldable pub relay : ℕ → String → ℤ → M (Unit {0})
unfolding inet_serv_listen accepted sent send_fd
relay port text nufd = do sfd ← inet_serv_listen port; nsfd ← accepted sfd text; sent nufd nsfd

-- S4 is also sent SIGUSR1, before the descriptor.
unfoldable pub relay_signalled : ℤ → ℕ → String → ℤ → M (Unit {0})
unfolding inet_serv_listen accepted sent send_fd
relay_signalled s4_pid port text nufd = do
  sfd ← inet_serv_listen port
  nsfd ← accepted sfd text
  call (kill s4_pid sigusr1)
  sent nufd nsfd

-- The descriptors over which the servers are reached.
pub record Platforms : Type 0 where
  pub nufd_s1 : ℤ
  pub nufd_s2 : ℤ
  pub nufd_s3 : ℤ
  pub nufd_s4 : ℤ
  pub s4_pid : ℤ

-- The connections that the servers make to the four sockets, and the process id that S4 has left in
-- the shared segment.
unfoldable pub accept_platforms : ℤ → ℤ → ℤ → ℤ → M Platforms
accept_platforms ufd_s1 ufd_s2 ufd_s3 ufd_s4 = accepted ufd_s1 "accept s1" >>= λ nufd_s1.
    accepted ufd_s2 "accept s2" >>= λ nufd_s2. accepted ufd_s3 "accept s3" >>= λ nufd_s3.
    accepted ufd_s4 "accept s4" >>= λ nufd_s4. ask shared_int >>= λ m. pure (record {
      nufd_s1 = nufd_s1;
      nufd_s2 = nufd_s2;
      nufd_s3 = nufd_s3;
      nufd_s4 = nufd_s4;
      s4_pid = m.passed;
    })

unfoldable pub connect_platforms : M Platforms
connect_platforms = serv_listen path1 >>= λ ufd_s1. serv_listen path2 >>= λ ufd_s2.
    serv_listen path3 >>= λ ufd_s3.
    serv_listen path4 >>= λ ufd_s4. accept_platforms ufd_s1 ufd_s2 ufd_s3 ufd_s4

unfoldable pub dispatch : Platforms → M (Unit {0})
unfolding relay relay_signalled
dispatch p = do
  relay 5000 "inet 1 accept" p.nufd_s1
  relay 6000 "inet 2_1 accept" p.nufd_s2
  relay 7000 "inet 3 accept" p.nufd_s3
  relay_signalled p.s4_pid 8000 "inet 4 accept" p.nufd_s4

unfoldable pub main : M (Unit {0})
unfolding connect_platforms dispatch
main = connect_platforms >>= dispatch
