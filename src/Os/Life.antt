-- ===== src/Os/Life.antt =====
-- What a trace says of a descriptor: the life of a socket, by the calls on it that succeeded.
use computer_networks_assign.Prelude.{◌≡◌, [], ◌∷◌, ◌&&◌, not, if◌then◌else◌}
use computer_networks_assign.Prelude.Int.{ℤ, is_neg, eqz}
use computer_networks_assign.Os.{
  Domain, SockType, Address, Call, socket, bind, connect, listen, close, Trace, Os,
}

pub data SockState : Type 0 where
  absent : SockState
  created : Domain → SockType → SockState
  bound listening connected : Domain → SockType → Address → SockState

abbrev after_bind : Address → SockState → SockState
after_bind a (created d t) = bound d t a
after_bind a s = s

abbrev after_listen : SockState → SockState
after_listen (bound d t a) = listening d t a
after_listen s = s

abbrev after_connect : Address → SockState → SockState
after_connect a (created d t) = connected d t a
after_connect a (bound d t _) = connected d t a
after_connect a s = s

-- The state of `fd` after one more call `c` that returned `r`.
abbrev pub after_call : ℤ → Call → ℤ → SockState → SockState
after_call fd (socket d t) r s = if eqz fd r && not (is_neg r) then created d t else s
after_call fd (bind g a) r s = if eqz fd g && not (is_neg r) then after_bind a s else s
after_call fd (listen g n) r s = if eqz fd g && not (is_neg r) then after_listen s else s
after_call fd (connect g a) r s = if eqz fd g && not (is_neg r) then after_connect a s else s
after_call fd (close g) r s = if eqz fd g then absent else s
after_call fd _ r s = s

unfoldable pub sock_state : ℤ → Trace → SockState
sock_state fd [] = absent
sock_state fd (e ∷ tr) = after_call fd e.call e.reply.ret (sock_state fd tr)

-- `socket` never gives out a descriptor that is still open.
abbrev pub Fresh : Os → Type 0
Fresh os =
    (tr : Trace) (d : Domain) (t : SockType) → sock_state (os tr (socket d t)).ret tr ≡ absent
