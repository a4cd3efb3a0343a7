-- ===== src/Chardev.antt =====
-- The read-only character device of Device_driver_Assignment_11/chardev/chardev.c. The kernel and
-- its `sprintf` are not part of the repository: `Decimal` states what the driver needs of `%d`.
use computer_networks_assign.Prelude.{
  replicate, ltb, ℕ, zero, suc, ◌+◌, ◌-◌, ◌%◌, ◌^◌, ◌≤◌, ◌≢◌, Bool, true, false, Option, none, some,
  List, [], ◌∷◌, ◌++◌, length, get_elem?, drop, All, ◌==◌, if◌then◌else◌,
}
use computer_networks_assign.Prelude.Int.{ℤ, pos, negsuc, is_neg}
pub mod Reading
pub mod Sessions
pub mod Exclusive
mod Cases

-- BUF_LEN
abbrev pub buf_len : ℕ
buf_len = 80

-- The static variables of the driver, and the use count of the module that `try_module_get` and
-- `module_put` keep in the kernel. `msg_ptr` is an offset into `msg`, `none` for a null pointer.
pub record Device : Type 0 where
  pub major : ℤ
  pub device_open_count : ℕ
  pub counter : ℕ
  pub msg : List ℕ
  pub msg_ptr : Option ℕ
  pub uses : ℕ

-- The driver as it is loaded, before `init_module`.
abbrev pub loaded : Device
loaded = record {
  major = pos 0;
  device_open_count = 0;
  counter = 0;
  msg = replicate buf_len 0;
  msg_ptr = none;
  uses = 0;
}

-- `init_module`, where `register_chrdev` returns `registered`.
unfoldable pub init_module : Device → ℤ → Device × ℤ
init_module d registered =
    let d' = record d { major = registered } in
    if is_neg registered then (d', registered) else (d', pos 0)

-- What `%d` prints for an `int`, given as its 32-bit pattern: at most 11 characters, none a NUL.
pub record Decimal : Type 0 where
  pub print : ℕ → List ℕ
  pub short : (n : ℕ) → length (print n) ≤ 11
  pub no_nul : (n : ℕ) → All (λ c. c ≢ 0) (print n)

-- "I already told you "
abbrev pub head_text : List ℕ
head_text =
    b'I' ∷ b' ' ∷ b'a' ∷ b'l' ∷ b'r' ∷ b'e' ∷ b'a' ∷ b'd' ∷ b'y' ∷ b' ' ∷ b't' ∷ b'o' ∷ b'l' ∷ b'd'
    ∷ b' ' ∷ b'y' ∷ b'o' ∷ b'u' ∷ b' ' ∷ []

-- " times Hello world!\n"
abbrev pub tail_text : List ℕ
tail_text =
    b' ' ∷ b't' ∷ b'i' ∷ b'm' ∷ b'e' ∷ b's' ∷ b' ' ∷ b'H' ∷ b'e' ∷ b'l' ∷ b'l' ∷ b'o' ∷ b' ' ∷ b'w'
    ∷ b'o' ∷ b'r' ∷ b'l' ∷ b'd' ∷ b'!' ∷ 10 ∷ []

abbrev pub message : Decimal → ℕ → List ℕ
message dec n = head_text ++ (dec.print n ++ tail_text)

-- `sprintf` into a buffer: the text and its NUL over the first bytes. `none` is an overflow.
unfoldable pub sprintf_into : List ℕ → List ℕ → Option (List ℕ)
sprintf_into buf text =
    if ltb (length text) (length buf) then some (text ++ (0 ∷ drop (length text + 1) buf)) else none

-- -EBUSY
abbrev pub busy : ℤ
busy = negsuc 15

-- -EINVAL
abbrev pub invalid : ℤ
invalid = negsuc 21

-- `device_open`; `none` is an overflow of `msg`.
unfoldable pub device_open : Decimal → Device → Option (Device × ℤ)
device_open dec d =
    if d.device_open_count == 0
    then elim (sprintf_into d.msg (message dec d.counter)) [
      | none ↦ none
      | some text ↦ some (
        record d {
          device_open_count = (d.device_open_count + 1) % 2 ^ 32;
          counter = (d.counter + 1) % 2 ^ 32;
          msg = text;
          msg_ptr = some 0;
          uses = d.uses + 1;
        },
        pos 0,
      )
    ]
    else some (d, busy)

unfoldable pub device_release : Device → Device × ℤ
device_release d = (
  record d { device_open_count = (d.device_open_count + 2 ^ 32 - 1) % 2 ^ 32; uses = d.uses - 1 },
  pos 0,
)

-- `while (length && *msg_Ptr) { put_user(*(msg_Ptr++), buffer++); length--; bytes_read++; }`:
-- the bytes put, and the pointer behind them. `none` is a read outside `msg`.
unfoldable pub read_loop : List ℕ → ℕ → ℕ → Option (List ℕ × ℕ)
read_loop msg p zero = some ([], p)
read_loop msg p (suc len) = elim (get_elem? msg p) [
  | none ↦ none
  | some c ↦ elim (c == 0) [
    | true ↦ some ([], p)
    | false ↦ elim (read_loop msg (p + 1) len) [ none ↦ none | some (out, q) ↦ some (c ∷ out, q) ]
  ]
]

-- What a read does: the bytes in the user's buffer, and the value returned.
pub record Read : Type 0 where
  pub device : Device
  pub out : List ℕ
  pub bytes_read : ℤ

-- `device_read`; `none` is a read through a null pointer or outside `msg`.
unfoldable pub device_read : Device → ℕ → Option Read
device_read d len = elim d.msg_ptr [
  | none ↦ none
  | some p ↦ elim (get_elem? d.msg p) [
    | none ↦ none
    | some c ↦
        if c == 0
        then some (record { device = d; out = []; bytes_read = pos 0 })
        else elim (read_loop d.msg p len) [
          | none ↦ none
          | some (out, q) ↦ some (record {
            device = record d { msg_ptr = some q };
            out = out;
            bytes_read = pos (length out);
          })
        ]
  ]
]

unfoldable pub device_write : Device → List ℕ → Device × ℤ
device_write d text = (d, invalid)
