-- ===== src/Vram/Loading.antt =====
-- What the driver holds after it is loaded, or after loading has failed.
use computer_networks_assign.Prelude.{◌≡◌, Bool, true, false, not, ◌&&◌, ◌⊎◌, arith}
use computer_networks_assign.Prelude.Int.{pos, minus_one, is_neg, eqz}
use computer_networks_assign.Vram.{
  Pointer, null, err_ptr, object, is_object, Answers, nothing, init_cdev, init_device, init_class,
  vram_init, vram_exit,
}

abbrev pub is_null : Pointer → Bool
is_null null = true
is_null err_ptr = false
is_null object = false

-- The mapping is there, the region is taken, and neither the class nor the device is NULL.
abbrev pub none_is_null : Answers → Bool
none_is_null a =
    a.ioremap
    && not (is_neg a.alloc_chrdev_region)
    && not (is_null a.class_create)
    && not (is_null a.device_create)

-- `vram_init` returns 0 or -1. It returns 0 exactly when `ioremap` and `alloc_chrdev_region` succeed,
-- neither `class_create` nor `device_create` returns NULL, which they do not return when they fail, and
-- `cdev_add` does not return -1. Then it holds the mapping and the region, the class and the device only
-- if their calls returned one and no ERR_PTR, and the character device only if `cdev_add` returned 0;
-- and if both did return one, `vram_exit` gives all back. When it returns -1 it has given back what it
-- took, but for the mapping, which it keeps whenever `ioremap` had succeeded.
pub vram_init_ways :
    (a : Answers)
    → ((none_is_null a && not (eqz a.cdev_add minus_one) ≡ true)
        × (vram_init a ≡ (
          record {
            mapping = true;
            region = true;
            class = is_object a.class_create;
            device = is_object a.device_create;
            cdev = eqz a.cdev_add (pos 0);
          },
          pos 0,
        ))
        × (vram_exit (vram_init a).0 ≡ nothing))
      ⊎ ((none_is_null a && not (eqz a.cdev_add minus_one) ≡ false)
          × (vram_init a ≡ (record nothing { mapping = a.ioremap }, minus_one)))
unfolding vram_init vram_exit init_class init_device init_cdev
vram_init_ways a = ground arith
