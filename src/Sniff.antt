-- ===== src/Sniff.antt =====
-- The packet sniffer, RAW_Sockets_Assignment_20/packet_sniffing/sniff.c: what it counts, and what it
-- prints of each packet. A character is its code; memory that a pointer does not reach is a fault.
use computer_networks_assign.Prelude.{
  ℕ, zero, suc, ◌+◌, ◌-◌, ◌*◌, ◌/◌, ◌%◌, Bool, true, false, not, ◌&&◌, Option, none, some, List, [],
  ◌∷◌, ◌++◌, length, take, drop, replicate, get_elem?, ltb, leb, ◌==◌, if◌then◌else◌,
}
pub mod Packets
pub mod Rows
pub mod Dump
pub mod Fields
pub mod Payload
pub mod Bounds
pub mod Counting
mod Cases

infixl 5 ◌>>=◌
abbrev pub ◌>>=◌ {ℓ κ} : {A : Type ℓ} {B : Type κ} → Option A → (A → Option B) → Option B
none >>= f = none
some a >>= f = f a

-- A digit of `%X`
abbrev pub hex_digit : ℕ → ℕ
hex_digit d = if ltb d 10 then d + 48 else d + 55

-- `printf(" %02X", ...)` of a byte
abbrev pub print_hex : ℕ → List ℕ
print_hex b = 32 ∷ hex_digit (b / 16) ∷ hex_digit (b % 16) ∷ []

-- A character of the right-hand column
abbrev pub print_char : ℕ → ℕ
print_char b = if leb 32 b && leb b 128 then b else 46

abbrev pub gap : List ℕ
gap = replicate 9 32

-- The loop over `j` from `from`, for `count` bytes.
unfoldable pub print_chars : List ℕ → ℕ → ℕ → Option (List ℕ)
print_chars bytes from zero = some []
print_chars bytes from (suc count) = do
  b ← get_elem? bytes from
  rest ← print_chars bytes (from + 1) count
  some (print_char b ∷ rest)

-- What the loop body of `PrintData` prints before, with and behind the byte `i`.
abbrev pub end_of_row : List ℕ → ℕ → Option (List ℕ)
end_of_row bytes i =
    if not (i == 0) && (i % 16 == 0)
    then print_chars bytes (i - 16) 16 >>= (λ chars. some (gap ++ (chars ++ 10 ∷ [])))
    else some []

abbrev pub start_of_row : ℕ → List ℕ
start_of_row i = if i % 16 == 0 then replicate 3 32 else []

abbrev pub last_row : List ℕ → ℕ → ℕ → Option (List ℕ)
last_row bytes size i =
    if i + 1 == size
    then print_chars bytes (i - i % 16) (i % 16 + 1)
      >>= (λ chars. some (replicate (3 * (15 - i % 16)) 32 ++ (gap ++ (chars ++ 10 ∷ []))))
    else some []

-- The loop from `i`, with `left` bytes left to `size`.
unfoldable pub print_from : List ℕ → ℕ → ℕ → ℕ → Option (List ℕ)
print_from bytes size i zero = some []
print_from bytes size i (suc left) = do
  before ← end_of_row bytes i
  b ← get_elem? bytes i
  behind ← last_row bytes size i
  rest ← print_from bytes size (i + 1) left
  some (before ++ (start_of_row i ++ (print_hex b ++ (behind ++ rest))))

-- `PrintData`
abbrev pub print_data : List ℕ → ℕ → Option (List ℕ)
print_data bytes size = print_from bytes size 0 size
