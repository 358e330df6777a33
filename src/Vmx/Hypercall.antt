-- ===== src/Vmx/Hypercall.antt =====
-- The hypercall from the guest's side to the hypervisor's answer.
use asor.Base.{
  ℕ, ◌+◌, ◌/◌, ◌%◌, ◌^◌, ◌≡◌, refl, ap, ◌∙◌, bit_and, bit_or, true, some, ◌==◌, if◌then◌else◌,
  arith,
}
use asor.Base.Bits.{bit_and_ones, bit_and_shifted, bit_or_sum, bit_or_comm}
use asor.Vmx.{
  Vmx, AsorGuest, vmcs_write, exi_reason, guest_rflags, vmx_vmexit, vmx_exit, vmx_vmabort,
  vmx_vmskip, hypercall, is_hypercall, handle_hypercall, exit_handler, hypercall_mask,
  hypercall_bit, vmx_vmcall,
}

field : (num : ℕ) → bit_or (bit_and num hypercall_mask) hypercall_bit ≡ 2 ^ 12 + num % 2 ^ 12
field num =
    ap (λ (t : ℕ). bit_or t hypercall_bit) (bit_and_ones 12 num)
    ∙ bit_or_comm (num % 2 ^ 12) hypercall_bit
    ∙ bit_or_sum 12 1 (num % 2 ^ 12) (omega arith)

-- What the hypervisor is to answer.
abbrev pub answer : ℕ → ℕ
answer num =
    if num == 1
    then vmx_vmexit
    else if num == 2
    then vmx_vmabort
    else if num == 3
    then vmx_vmskip
    else vmx_exit

is_hypercall_lem :
    (num : ℕ) (s : Vmx)
    → s.hypercall_field ≡ 2 ^ 12 + num % 2 ^ 12
    → s.vmcs exi_reason % 2 ^ 8 ≡ vmx_vmcall
    → is_hypercall s ≡ true
unfolding is_hypercall
is_hypercall_lem num s e h =
    let b : bit_and s.hypercall_field hypercall_bit ≡ 2 ^ 12 = omega (
      arith,
      bit_and_shifted 12 s.hypercall_field 1,
      bit_and_ones 1 (s.hypercall_field / 2 ^ 12),
    ) in
    rw (bit_and_ones 8 (s.vmcs exi_reason), h, b)

handle_hypercall_lem :
    (num : ℕ) (s : Vmx)
    → s.hypercall_field ≡ 2 ^ 12 + num % 2 ^ 12
    → handle_hypercall s ≡ (answer (num % 2 ^ 12), record s { hypercall_field = 0 })
unfolding handle_hypercall
handle_hypercall_lem num s h =
    let e : bit_and s.hypercall_field hypercall_mask ≡ num % 2 ^ 12 =
      omega (arith, bit_and_ones 12 s.hypercall_field) in
    rw e (branches (num % 2 ^ 12) (record s { hypercall_field = 0 }))
  where
    branches :
        (n : ℕ) (s' : Vmx)
        → ◌≡◌ {A = ℕ × Vmx}
            (if n == 1
              then (vmx_vmexit, s')
              else if n == 2
              then (vmx_vmabort, s')
              else if n == 3
              then (vmx_vmskip, s')
              else (vmx_exit, s'))
            (answer n, s')
    branches n s' = ground arith

-- The state behind the exit.
abbrev pub answered : ℕ → Vmx → Vmx
answered num g = vmcs_write guest_rflags (g.vmcs guest_rflags) (record (hypercall num g) {
  exits = (g.exits + 1) % 2 ^ 32;
  rflags = g.vmcs guest_rflags;
  hypercall_field = 0;
})

pub exit_handler_run :
    (guest : AsorGuest) (num : ℕ) (g : Vmx)
    → g.vmcs exi_reason % 2 ^ 8 ≡ vmx_vmcall
    → exit_handler (some guest) (hypercall num g) ≡ (answer (num % 2 ^ 12), answered num g)
unfolding exit_handler hypercall
exit_handler_run guest num g h =
    let s1 = record (hypercall num g) {
      exits = (g.exits + 1) % 2 ^ 32;
      rflags = g.vmcs guest_rflags;
    } in
    rw (is_hypercall_lem num s1 (field num) h, handle_hypercall_lem num s1 (field num))

-- When the guest makes the hypercall `num` in the state `g` and the exit's reason is VMCALL, the
-- handler answers by the low twelve bits of `num` alone: 1 leaves the loop, 2 aborts, 3 skips, and
-- any other number exits. The guest's own handler is not called, the exit is counted, the request
-- is cleared, and the VMCS is as the guest left it.
pub exit_handler-hypercall :
    (guest : AsorGuest) (num enc : ℕ) (g : Vmx)
    → g.vmcs exi_reason % 2 ^ 8 ≡ vmx_vmcall
    → let r = exit_handler (some guest) (hypercall num g) in
      (r.0 ≡ answer (num % 2 ^ 12))
      × (r.1.hypercall_field ≡ 0)
      × (r.1.exits ≡ (g.exits + 1) % 2 ^ 32)
      × (r.1.launched ≡ g.launched)
      × (r.1.vmcs enc ≡ g.vmcs enc)
unfolding hypercall
exit_handler-hypercall guest num enc g h =
    rw (exit_handler_run guest num g h) (refl, refl, refl, refl, same)
  where
    same : (if enc == guest_rflags then g.vmcs guest_rflags else g.vmcs enc) ≡ g.vmcs enc
    same = ground arith
