-- ===== src/Virt/Registry.antt =====
-- The registry keeps the operations that were registered first, until they are freed.
use asor.Base.{◌≡◌, refl, Option, none, some, List, [], ◌∷◌}
use asor.Virt.{
  VirtArchOps, register_virt_ops, free_virt_ops, get_virt_arch_ops, enable_ops, enable_hw_virt,
}

-- A sequence of registrations, the first one first.
abbrev pub register_all :
    {S : Type 0} → List (Option (VirtArchOps S)) → Option (VirtArchOps S) → Option (VirtArchOps S)
register_all [] r = r
register_all (ops ∷ rest) r = register_all rest ((register_virt_ops ops r).1)

registered_stays :
    {S : Type 0} (rest : List (Option (VirtArchOps S))) (ops : VirtArchOps S)
    → register_all rest (some ops) ≡ some ops
unfolding register_virt_ops
registered_stays [] ops = refl
registered_stays (o ∷ rest) ops = registered_stays rest ops

-- From an empty or freed registry, whatever is registered behind the first operations (also NULL)
-- is refused, and `enable_hw_virt` then runs the first ones: its result and its effect are theirs.
pub enable-register :
    {S : Type 0} (ops old given : Option (VirtArchOps S)) (first : VirtArchOps S)
    (rest : List (Option (VirtArchOps S))) (s : S)
    → enable_hw_virt (register_all (none ∷ some first ∷ rest) (free_virt_ops given old)) s
      ≡ first.enable s
unfolding register_virt_ops free_virt_ops enable_hw_virt enable_ops get_virt_arch_ops
enable-register ops old given first rest s = rw (registered_stays rest first)
