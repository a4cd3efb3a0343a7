-- ===== src/Nitnetd.antt =====
-- The super server with a limit for each service, End_lab_exam/ques_1/nitnetd.c: its counting
-- semaphores and the loop of its `main`. The configuration and `encrypt` are those of Inetd.antt.
use computer_networks_assign.Prelude.{
  ℕ, ◌+◌, ◌%◌, Bool, true, false, not, ◌&&◌, ◌||◌, List, [], ◌∷◌, ◌==◌, if◌then◌else◌,
}
use computer_networks_assign.Prelude.Int.{ℤ, pos, negsuc, minus_one, ◌+ℤ◌, is_neg, is_zero, ltz}
use computer_networks_assign.Os.{
  accept, close, fork, waitpid, perror, M, pure, ◌>>=◌, ◌>>◌, ask, sys, call, exit, die_if,
}
use computer_networks_assign.Sockets.{send_fd}
use computer_networks_assign.Inetd.{Service, Server, FdSet, fd_set, serve_udp, child}
pub mod Limits
mod Cases

-- `struct sem_buf`
pub record Sem : Type 0 where
  pub max : ℤ
  pub count : ℤ

unfoldable pub sem_value : Sem → ℤ
sem_value s = s.count

unfoldable pub semaphore_wait : Sem → Sem
semaphore_wait s = record s { count = s.count +ℤ minus_one }

unfoldable pub semaphore_release : Sem → Sem
semaphore_release s = if ltz s.count s.max then record s { count = s.count +ℤ pos 1 } else s

unfoldable pub semaphore_init : ℤ → Sem
semaphore_init count = record { max = count; count = count }

-- The globals `s1`, of the first service, and `s2`, of every other.
pub record Sems : Type 0 where
  pub s1 : Sem
  pub s2 : Sem

abbrev pub initial : Sems
unfolding semaphore_init
initial = record { s1 = semaphore_init (pos 2); s2 = semaphore_init (pos 3) }

-- `(i==0 && sem_value(&s1)<=0) || (i==1 && sem_value(&s2)<=0)`
unfoldable pub occupied : ℕ → Sems → Bool
unfolding sem_value
occupied i sems =
    (i == 0 && not (ltz (pos 0) (sem_value sems.s1)))
    || (i == 1 && not (ltz (pos 0) (sem_value sems.s2)))

unfoldable pub wait_for : ℕ → Sems → Sems
wait_for i sems =
    if i == 0
    then record sems { s1 = semaphore_wait sems.s1 }
    else record sems { s2 = semaphore_wait sems.s2 }

unfoldable pub release_of : ℕ → Sems → Sems
release_of i sems =
    if i == 0
    then record sems { s1 = semaphore_release sems.s1 }
    else record sems { s2 = semaphore_release sems.s2 }

-- `WIFEXITED`: the low seven bits of the status are 0.
abbrev pub wifexited : ℤ → Bool
wifexited (pos status) = status % 128 == 0
wifexited (negsuc n) = false

-- The parent waits for the child before it goes on.
unfoldable pub parent : ℕ → Sems → ℤ → ℤ → M Sems
parent i sems nsfd p = do
  call (close nsfd)
  w ← ask (waitpid p)
  pure (if wifexited w.passed then release_of i sems else sems)

-- The connection goes to the other server over `nufd` when the limit is reached, and is served here
-- all the same.
unfoldable pub forward : ℤ → ℕ → Sems → ℤ → M (Unit {0})
unfolding send_fd
forward nufd i sems nsfd =
    if occupied i sems then (send_fd nufd nsfd >>= λ r. die_if (is_neg r) "send_fd" 1) else pure tt

unfoldable pub start : ℕ → Sems → Service → ℤ → M Sems
unfolding child
start i sems s nsfd = do
  p ← sys fork
  if is_neg p
      then (call (perror "Fork") >> pure sems)
      else if is_zero p
      then (child s nsfd >> pure sems)
      else parent i sems nsfd p

unfoldable pub serve_tcp : ℤ → ℕ → Sems → Service → M Sems
serve_tcp nufd i sems s = do
  nsfd ← sys (accept s.fd)
  die_if (is_neg nsfd) "Accept" 1
  forward nufd i sems nsfd
  start i (wait_for i sems) s nsfd

-- What is done for the service `i`, if it is in the set.
abbrev pub visit : ℤ → ℕ → Sems → Service → FdSet → M Sems
visit nufd i sems s set =
    if set s.fd
    then if s.is_tcp then serve_tcp nufd i sems s else (serve_udp s >> pure sems)
    else pure sems

abbrev pub rearm : Service → FdSet → FdSet
rearm s set = if set s.fd then set else fd_set s.fd set

-- `for(int i=0;i<used;i++)`, from the service `i` on
unfoldable pub scan : ℤ → ℕ → Sems → List Service → FdSet → M (FdSet × Sems)
scan nufd i sems [] set = pure (set, sems)
scan nufd i sems (s ∷ ss) set =
    visit nufd i sems s set >>= λ sems'. scan nufd (i + 1) sems' ss (rearm s set)
