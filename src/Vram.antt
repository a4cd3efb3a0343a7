-- ===== src/Vram.antt =====
-- The video memory driver Device_driver_Assignment_11/Device-Dirvers-2/MY/VRAM/video_ram.c: the read
-- and write of its file, and the resources that it takes when it is loaded. The memory is a function
-- on the offsets of the mapping.
use computer_networks_assign.Prelude.{
  ℕ, zero, suc, ◌+◌, ◌-◌, ◌%◌, ◌^◌, Bool, true, false, Option, none, some, List, [], ◌∷◌, ltb, leb,
  ◌==◌, if◌then◌else◌,
}
use computer_networks_assign.Prelude.Int.{ℤ, pos, negsuc, minus_one, is_neg, eqz}
pub mod Transfer
pub mod Faults
pub mod Loading
mod Cases

-- VRAM_SIZE
abbrev pub vram_size : ℕ
vram_size = 0x00020000

-- -EFAULT
abbrev pub efault : ℤ
efault = negsuc 13

-- The bytes that a loop of `my_read` has put into the user's buffer: all, or those before a byte of
-- the buffer that cannot be written. `outside` is an access behind the mapping.
pub data Copied : Type 0 where
  copied : List ℕ → Copied
  faulted : List ℕ → Copied
  outside : Copied

unfoldable pub prepend : ℕ → Copied → Copied
prepend b (copied bs) = copied (b ∷ bs)
prepend b (faulted bs) = faulted (b ∷ bs)
prepend b outside = outside

-- `for (i = 0; i < len; i++)`, from `i` on, with `n` bytes left. `ok i` says that `copy_to_user`
-- succeeds at `buf + i`.
unfoldable pub read_loop : (ℕ → ℕ) → (ℕ → Bool) → ℕ → ℕ → ℕ → Copied
unfolding prepend
read_loop vram ok off i zero = copied []
read_loop vram ok off i (suc n) =
    let rest = read_loop vram ok off (i + 1) n in
    if ltb (off + i) vram_size
    then if ok i then prepend (vram (off + i)) rest else faulted []
    else outside

-- `len`, or what is left; the sum is one of 64 bits.
abbrev pub clip : ℕ → ℕ → ℕ
clip off len = if ltb vram_size ((off + len) % 2 ^ 64) then vram_size - off else len

-- What a call returns, the file position behind it, and the user's buffer or the memory.
pub record Read : Type 0 where
  pub ret : ℤ
  pub off : ℕ
  pub buf : List ℕ

pub record Written : Type 0 where
  pub ret : ℤ
  pub off : ℕ
  pub vram : ℕ → ℕ

unfoldable pub end_read : ℕ → ℕ → Copied → Option Read
end_read off len (copied bs) = some (record { ret = pos len; off = off + len; buf = bs })
end_read off len (faulted bs) = some (record { ret = efault; off = off; buf = bs })
end_read off len outside = none

-- `my_read`; `none` is an access outside the mapping.
unfoldable pub my_read : (ℕ → ℕ) → (ℕ → Bool) → ℕ → ℕ → Option Read
unfolding read_loop end_read
my_read vram ok len off =
    if leb vram_size off
    then some (record { ret = pos 0; off = off; buf = [] })
    else end_read off (clip off len) (read_loop vram ok off 0 (clip off len))

pub data Stored : Type 0 where
  stored : (ℕ → ℕ) → Stored
  faulted : (ℕ → ℕ) → Stored
  outside : Stored

-- `iowrite8`
abbrev pub iowrite8 : ℕ → ℕ → (ℕ → ℕ) → ℕ → ℕ
iowrite8 byte p vram x = if x == p then byte else vram x

-- The loop of `my_write`. `user i` is the byte at `buf + i`, `none` where `copy_from_user` fails.
unfoldable pub write_loop : (ℕ → ℕ) → (ℕ → Option ℕ) → ℕ → ℕ → ℕ → Stored
write_loop vram user off i zero = stored vram
write_loop vram user off i (suc n) = elim (user i) [
  | none ↦ faulted vram
  | some byte ↦
      let rest = write_loop (iowrite8 byte (off + i) vram) user off (i + 1) n in
      if ltb (off + i) vram_size then rest else outside
]

unfoldable pub end_write : ℕ → ℕ → Stored → Option Written
end_write off len (stored vram) = some (record { ret = pos len; off = off + len; vram = vram })
end_write off len (faulted vram) = some (record { ret = efault; off = off; vram = vram })
end_write off len outside = none

unfoldable pub my_write : (ℕ → ℕ) → (ℕ → Option ℕ) → ℕ → ℕ → Option Written
unfolding write_loop end_write
my_write vram user len off =
    if leb vram_size off
    then some (record { ret = pos 0; off = off; vram = vram })
    else end_write off (clip off len) (write_loop vram user off 0 (clip off len))

-- A pointer that a call returns: NULL, one that holds an error (ERR_PTR), or one to an object.
pub data Pointer : Type 0 where
  null : Pointer
  err_ptr : Pointer
  object : Pointer

-- `NULL == p` fails.
abbrev pub not_null : Pointer → Bool
not_null null = false
not_null err_ptr = true
not_null object = true

abbrev pub is_object : Pointer → Bool
is_object null = false
is_object err_ptr = false
is_object object = true

-- What the calls of `vram_init` answer: `ioremap` returns NULL (false) or the mapping, `class_create` and
-- `device_create` a pointer, `alloc_chrdev_region` and `cdev_add` a number.
pub record Answers : Type 0 where
  pub ioremap : Bool
  pub alloc_chrdev_region : ℤ
  pub class_create : Pointer
  pub device_create : Pointer
  pub cdev_add : ℤ

-- The resources that the module holds.
pub record Held : Type 0 where
  pub mapping : Bool
  pub region : Bool
  pub class : Bool
  pub device : Bool
  pub cdev : Bool

abbrev pub nothing : Held
nothing = record { mapping = false; region = false; class = false; device = false; cdev = false }

-- The undoing calls, each on what is held.
abbrev pub unregister_chrdev_region : Held → Held
unregister_chrdev_region h = record h { region = false }

abbrev pub class_destroy : Held → Held
class_destroy h = record h { class = false }

abbrev pub device_destroy : Held → Held
device_destroy h = record h { device = false }

abbrev pub cdev_del : Held → Held
cdev_del h = record h { cdev = false }

abbrev pub iounmap : Held → Held
iounmap h = record h { mapping = false }

-- The steps of `vram_init`, each from what is held before it. `cdev_add` is compared with -1 alone; a
-- device is added when it returns 0.
unfoldable pub init_cdev : Answers → Held → Held × ℤ
init_cdev a h =
    if eqz a.cdev_add minus_one
    then (unregister_chrdev_region (class_destroy (device_destroy h)), minus_one)
    else (record h { cdev = eqz a.cdev_add (pos 0) }, pos 0)

unfoldable pub init_device : Answers → Held → Held × ℤ
unfolding init_cdev
init_device a h =
    if not_null a.device_create
    then init_cdev a (record h { device = is_object a.device_create })
    else (unregister_chrdev_region (class_destroy h), minus_one)

unfoldable pub init_class : Answers → Held → Held × ℤ
unfolding init_device
init_class a h =
    if not_null a.class_create
    then init_device a (record h { class = is_object a.class_create })
    else (unregister_chrdev_region h, minus_one)

unfoldable pub vram_init : Answers → Held × ℤ
unfolding init_class
vram_init a =
    let mapped = record nothing { mapping = true } in
    if a.ioremap
    then if is_neg a.alloc_chrdev_region
      then (mapped, minus_one)
      else init_class a (record mapped { region = true })
    else (nothing, minus_one)

unfoldable pub vram_exit : Held → Held
vram_exit h = iounmap (unregister_chrdev_region (class_destroy (device_destroy (cdev_del h))))
