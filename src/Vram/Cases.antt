-- ===== src/Vram/Cases.antt =====
-- Calls at the end of the memory and with a buffer that ends early, and the theorems there.
use computer_networks_assign.Prelude.{
  ℕ, ◌+◌, ◌&&◌, ◌<◌, ◌≡◌, refl, ◌⊎◌, true, false, not, some, List, [], ◌∷◌, get_elem?, take, ltb,
  arith,
}
use computer_networks_assign.Prelude.Int.{pos, negsuc, minus_one, eqz}
use computer_networks_assign.Vram.{
  Read, Written, object, err_ptr, Answers, nothing, efault, vram_size, my_read, my_write, vram_init,
  vram_exit,
}
use computer_networks_assign.Vram.Transfer.{segment, available, my_read-my_write}
use computer_networks_assign.Vram.Faults.{my_read_ways}
use computer_networks_assign.Vram.Loading.{none_is_null, vram_init_ways}

-- Two bytes before the end of the memory.
abbrev near_end : ℕ
near_end = 0x0001fffe

abbrev blank : ℕ → ℕ
blank x = 7

abbrev four : List ℕ
four = 1 ∷ 2 ∷ 3 ∷ 4 ∷ []

read_run :
    my_read blank (λ i. true) 5 near_end
    ≡ some (record { ret = pos 2; off = vram_size; buf = 7 ∷ 7 ∷ [] })
unfolding my_read
read_run = refl

my_read-my_write_example :
    (w : Written) × (my_write blank (get_elem? four) 4 near_end ≡ some w)
    × (w.ret ≡ pos (available near_end 4))
    × (my_read w.vram (λ i. true) 4 near_end
        ≡ some (record { ret = w.ret; off = w.off; buf = take (available near_end 4) four }))
my_read-my_write_example =
    my_read-my_write blank four (λ i. true) 4 near_end (omega arith) (omega arith) (λ j. refl)

my_read_ways_example :
    (r : Read) × (k : ℕ) × (my_read blank (λ i. ltb i 3) 5 9 ≡ some r)
    × (r.buf ≡ segment blank 9 k)
    × ((j : ℕ) → j < k → ltb j 3 ≡ true)
    × (((k ≡ available 9 5) × (r.ret ≡ pos k) × (r.off ≡ 9 + k))
        ⊎ ((k < available 9 5) × (ltb k 3 ≡ false) × (r.ret ≡ efault) × (r.off ≡ 9)))
my_read_ways_example = my_read_ways blank (λ i. ltb i 3) 5 9 (omega arith)

-- `device_create` fails, and `cdev_add` with another error than -1.
abbrev busy_cdev : Answers
busy_cdev = record {
  ioremap = true;
  alloc_chrdev_region = pos 0;
  class_create = object;
  device_create = err_ptr;
  cdev_add = negsuc 15;
}

-- The driver is loaded all the same, with neither the device nor the character device.
busy_run : (vram_init busy_cdev).1 ≡ pos 0
unfolding vram_init
busy_run = refl

vram_init_ways_example :
    ((none_is_null busy_cdev && not (eqz (negsuc 15) minus_one) ≡ true)
      × (vram_init busy_cdev ≡ (
        record { mapping = true; region = true; class = true; device = false; cdev = false },
        pos 0,
      ))
      × (vram_exit (vram_init busy_cdev).0 ≡ nothing))
    ⊎ ((none_is_null busy_cdev && not (eqz (negsuc 15) minus_one) ≡ false)
        × (vram_init busy_cdev ≡ (record nothing { mapping = true }, minus_one)))
vram_init_ways_example = vram_init_ways busy_cdev
