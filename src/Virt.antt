-- ===== src/Virt.antt =====
-- core/virt.c: the registry of the architecture's operations. Function pointers are functions from
-- a state to a result and the state behind; the state `S` is the architecture's.
mod Tests
pub mod Registry
use asor.Base.{ℕ, ◌-◌, ◌^◌, Bool, true, false, not, ◌||◌, Option, none, some, if◌then◌else◌}

pub record VirtArchOps (S : Type 0) : Type 0 where
  pub enable : S → ℕ × S

-- An `int` that is negative is written in two's complement.
abbrev pub minus_one : ℕ
minus_one = 2 ^ 32 - 1

abbrev pub is_null : {A : Type 0} → Option A → Bool
is_null none = true
is_null (some a) = false

-- The results are the returned value and `virt_arch_ops`.
pub register_virt_ops :
    {S : Type 0} → Option (VirtArchOps S) → Option (VirtArchOps S) → ℕ × Option (VirtArchOps S)
register_virt_ops ops virt_arch_ops =
    if not (is_null virt_arch_ops) || is_null ops then (minus_one, virt_arch_ops) else (0, ops)

pub free_virt_ops :
    {S : Type 0} → Option (VirtArchOps S) → Option (VirtArchOps S) → Option (VirtArchOps S)
free_virt_ops ops virt_arch_ops = none

pub get_virt_arch_ops : {S : Type 0} → Option (VirtArchOps S) → Option (VirtArchOps S)
get_virt_arch_ops virt_arch_ops = virt_arch_ops

enable_ops : {S : Type 0} → Option (VirtArchOps S) → S → ℕ × S
enable_ops none s = (minus_one, s)
enable_ops (some ops) s = ops.enable s

pub enable_hw_virt : {S : Type 0} → Option (VirtArchOps S) → S → ℕ × S
enable_hw_virt virt_arch_ops s = enable_ops (get_virt_arch_ops virt_arch_ops) s
