-- ===== src/Virt/Tests.antt =====
-- Runs of core/virt.c.
use asor.Base.{ℕ, ◌+◌, ◌≡◌, none, some, [], ◌∷◌}
use asor.Virt.{VirtArchOps, free_virt_ops, enable_hw_virt}
use asor.Virt.Registry.{register_all, enable-register}

abbrev counting : VirtArchOps ℕ
counting = record { enable = λ s. (0, s + 1) }

abbrev failing : VirtArchOps ℕ
failing = record { enable = λ s. (1, s) }

enable-register_example :
    enable_hw_virt
      (register_all (none ∷ some counting ∷ some failing ∷ []) (free_virt_ops none (some failing)))
      5
    ≡ counting.enable 5
enable-register_example = enable-register none (some failing) none counting (some failing ∷ []) 5
