-- ===== src/Chardev/Cases.antt =====
-- Sessions with the device, and its theorems at them, with numbers printed by their last digit.
use computer_networks_assign.Prelude.{
  ℕ, ◌+◌, ◌%◌, ◌≤◌, ◌≢◌, ◌≡◌, refl, some, [], ◌∷◌, take, All, arith,
}
use computer_networks_assign.Prelude.Int.{pos}
use computer_networks_assign.Chardev.{Device, Decimal, message, loaded, read_loop, device_read}
use computer_networks_assign.Chardev.Reading.{Pending}
use computer_networks_assign.Chardev.Sessions.{sessions, sessions_count}
use computer_networks_assign.Chardev.Exclusive.{System, opens, releases, run, fresh, run_exclusive}

one_digit : (n : ℕ) → All (λ c. c ≢ 0) ((n % 10 + 48) ∷ [])
one_digit n = omega arith

abbrev last_digit : Decimal
last_digit = record {
  print = λ n. (n % 10 + 48) ∷ [];
  short = λ n. omega arith;
  no_nul = λ n. one_digit n;
}

abbrev in_use : Device
in_use = record loaded {
  device_open_count = 1;
  msg = b'h' ∷ b'i' ∷ 0 ∷ [];
  msg_ptr = some 0;
  uses = 1;
}

read_run :
    device_read in_use 5
    ≡ some (record {
      device = record in_use { msg_ptr = some 2 };
      out = b'h' ∷ b'i' ∷ [];
      bytes_read = pos 2;
    })
unfolding device_read read_loop
read_run = refl

in_use-Pending : Pending in_use (b'h' ∷ b'i' ∷ [])
in_use-Pending = record { at = 0; rest = []; ptr = refl; here = refl; is_text = omega arith }

sessions_count_example :
    (d' : Device) × (sessions last_digit ((7 ∷ 0 ∷ 30 ∷ []) ∷ (80 ∷ []) ∷ []) loaded
      ≡ some (take 37 (message last_digit 0) ∷ take 80 (message last_digit 1) ∷ [], d'))
sessions_count_example = sessions_count last_digit ((7 ∷ 0 ∷ 30 ∷ []) ∷ (80 ∷ []) ∷ [])

run_exclusive_example :
    (s : System) × (run last_digit fresh (opens ∷ opens ∷ releases ∷ []) ≡ some s)
    × (s.holders ≤ 1)
    × (s.device.device_open_count ≡ s.holders)
    × (s.device.uses ≡ s.holders)
run_exclusive_example = run_exclusive last_digit (opens ∷ opens ∷ releases ∷ [])
