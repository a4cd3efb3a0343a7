-- ===== src/Chardev/Sessions.antt =====
-- Processes that open the device, read it and close it, one after the other.
use computer_networks_assign.Prelude.{
  ◌%◌, ◌^◌, ℕ, ◌+◌, ◌≡◌, refl, ◌∙◌, ap, Option, none, some, if◌then◌else◌, List, [], ◌∷◌, length,
  take, arith,
}
use computer_networks_assign.Prelude.Int.{is_neg}
use computer_networks_assign.Chardev.{
  Device, Decimal, message, buf_len, device_open, device_release, loaded,
}
use computer_networks_assign.Chardev.Reading.{reads, total, reads-Pending, device_open-Pending}

-- A process opens the device, reads it in pieces of the sizes `lens`, and closes it; one that the
-- device refuses reads nothing. What it has read, and the device behind it.
unfoldable pub session : Decimal → List ℕ → Device → Option (List ℕ × Device)
session dec lens d = elim (device_open dec d) [
  | none ↦ none
  | some (d', ret) ↦ if is_neg ret then some ([], d') else elim (reads d' lens) [
    | none ↦ none
    | some (out, d'') ↦ some (out, (device_release d'').0)
  ]
]

-- One process after the other.
unfoldable pub sessions : Decimal → List (List ℕ) → Device → Option (List (List ℕ) × Device)
sessions dec [] d = some ([], d)
sessions dec (lens ∷ rest) d = elim (session dec lens d) [
  | none ↦ none
  | some (out, d') ↦ elim (sessions dec rest d') [
    | none ↦ none
    | some (outs, e) ↦ some (out ∷ outs, e)
  ]
]

-- What they are to read, when `n` processes have opened the device before.
abbrev pub messages : Decimal → ℕ → List (List ℕ) → List (List ℕ)
messages dec n [] = []
messages dec n (lens ∷ rest) =
    take (total lens) (message dec (n % 2 ^ 32)) ∷ messages dec (n + 1) rest

-- The device between two processes, the `n`th of which has just closed it.
record Between (n : ℕ) (d : Device) : Type 0 where
  free : d.device_open_count ≡ 0
  size : length d.msg ≡ buf_len
  opens : d.counter ≡ n % 2 ^ 32

session-Between :
    (dec : Decimal) (n : ℕ) (lens : List ℕ) (d : Device)
    → Between n d
    → (d' : Device) × (session dec lens d ≡ some (take (total lens) (message dec (n % 2 ^ 32)), d'))
      × Between (n + 1) d'
unfolding session device_release
session-Between dec n lens d b =
    let (d1, opened, w, one, _, size, counted) = device_open-Pending dec d b.free b.size in
    let (d2, run, same) = reads-Pending d1 (message dec d.counter) lens w in
    (
      (device_release d2).0,
      ground (arith, opened, run, b.opens),
      record {
        free = omega (arith, ap (λ (x : Device). x.device_open_count) same, one);
        size = ap (λ (x : Device). length x.msg) same ∙ size;
        opens = omega (arith, ap (λ (x : Device). x.counter) same, counted, b.opens);
      },
    )

sessions-messages :
    (dec : Decimal) (n : ℕ) (processes : List (List ℕ)) (d : Device)
    → Between n d
    → (d' : Device) × (sessions dec processes d ≡ some (messages dec n processes, d'))
unfolding sessions
sessions-messages dec n [] d b = (d, refl)
sessions-messages dec n (lens ∷ rest) d b =
    let (d1, one, b') = session-Between dec n lens d b in
    let (d2, more) = sessions-messages dec (n + 1) rest d1 b' in (d2, ground (arith, one, more))

-- From the loaded driver, processes one after the other open the device, read it in pieces of any sizes
-- and close it: each gets as much as its sizes add up to, however they are cut, of the message with the
-- number of the opens before it, modulo 2 ^ 32.
pub sessions_count :
    (dec : Decimal) (processes : List (List ℕ))
    → (d' : Device) × (sessions dec processes loaded ≡ some (messages dec 0 processes, d'))
sessions_count dec processes =
    sessions-messages dec 0 processes loaded (record { free = refl; size = refl; opens = refl })
