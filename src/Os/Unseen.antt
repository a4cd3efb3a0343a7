-- ===== src/Os/Unseen.antt =====
-- For runs on concrete operating systems: descriptors that a trace has not seen.
use computer_networks_assign.Prelude.{ℕ, ◌+◌, ◌<◌, ◌≡◌, refl, ap, ◌∙◌, [], ◌∷◌, arith}
use computer_networks_assign.Prelude.Int.{ℤ, pos, negsuc}
use computer_networks_assign.Os.{
  Call, socket, setsockopt, accept, bind, connect, listen, close, unlink, sendmsg, recvmsg,
  recvfrom, sendto, recv, read, send, thread, fork, waitpid, dup2, execv, kill, killpg, setpgid,
  mkfifo, open_file, write, poll, malloc, ioctl_hwaddr, if_nametoindex, inet_pton, getaddrinfo,
  shared_int, perror, print, Trace,
}
use computer_networks_assign.Os.Life.{absent, after_call, sock_state}

abbrev size : ℤ → ℕ
size (pos n) = n
size (negsuc n) = 0

-- More than every descriptor of a trace.
unfoldable pub above : Trace → ℕ
above [] = 3
above (e ∷ tr) = above tr + size e.reply.ret

after_call-absent : (n : ℕ) (c : Call) (r : ℤ) → size r < n → after_call (pos n) c r absent ≡ absent
after_call-absent n (socket d t) (pos m) h = ground arith
after_call-absent n (socket d t) (negsuc m) h = refl
after_call-absent n (bind fd a) r h = ground arith
after_call-absent n (connect fd a) r h = ground arith
after_call-absent n (listen fd k) r h = ground arith
after_call-absent n (close fd) r h = ground arith
after_call-absent n (setsockopt _) r h = refl
after_call-absent n (unlink _) r h = refl
after_call-absent n (accept _) r h = refl
after_call-absent n (sendmsg _ _) r h = refl
after_call-absent n (recvmsg _) r h = refl
after_call-absent n (recvfrom _) r h = refl
after_call-absent n (sendto _ _) r h = refl
after_call-absent n fork r h = refl
after_call-absent n (recv _) r h = refl
after_call-absent n (read _) r h = refl
after_call-absent n (send _ _) r h = refl
after_call-absent n (thread _ _) r h = refl
after_call-absent n (waitpid _) r h = refl
after_call-absent n (dup2 _ _) r h = refl
after_call-absent n (execv _) r h = refl
after_call-absent n (kill _ _) r h = refl
after_call-absent n (killpg _ _) r h = refl
after_call-absent n (setpgid _ _) r h = refl
after_call-absent n (mkfifo _) r h = refl
after_call-absent n (open_file _) r h = refl
after_call-absent n (write _ _) r h = refl
after_call-absent n poll r h = refl
after_call-absent n (malloc _) r h = refl
after_call-absent n (ioctl_hwaddr _ _) r h = refl
after_call-absent n (if_nametoindex _) r h = refl
after_call-absent n (inet_pton _) r h = refl
after_call-absent n (getaddrinfo _) r h = refl
after_call-absent n shared_int r h = refl
after_call-absent n (perror _) r h = refl
after_call-absent n (print _) r h = refl

pub above-absent : (tr : Trace) (n : ℕ) → above tr < n → sock_state (pos n) tr ≡ absent
unfolding above sock_state
above-absent [] n h = refl
above-absent (e ∷ tr) n h =
    ap (after_call (pos n) e.call e.reply.ret) (above-absent tr n (omega arith))
    ∙ after_call-absent n e.call e.reply.ret (omega arith)
