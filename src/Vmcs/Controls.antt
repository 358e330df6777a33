-- ===== src/Vmcs/Controls.antt =====
-- The controls that `init_vmcs` writes are ones that the processor accepts.
use asor.Base.{
  ℕ, ◌^◌, ◌≡◌, refl, ap, sym, ◌∙◌, ◌⊎◌, inl, inr, min, max, bit_and, bit_or, false, ◌==◌, true,
  Bool-cases, arith, ◌-◌,
}
use asor.Base.Bits.{bit, bit_ext, bit-bit_and, bit-bit_or}
use asor.Vmcs.{
  Setup, Platform, VmxCtrlMsr, adjust, write_all, init_vmcs_ctrl, init_vmcs_host, host_fields,
  init_vmcs_guest, guest_fields, set_controls, init_vmcs,
}
use asor.Vmcs.Encoding.{
  pin_controls, ent_controls, exi_controls, cpu_exec_ctrl0, cpu_exec_ctrl1, host_cr0, host_cr4,
  host_sel_cs, host_sel_ss, host_sel_ds, host_sel_es, host_sel_fs, host_sel_gs, host_sel_tr,
  vmcs_link_ptr, guest_ar_cs, guest_ar_tr, guest_rflags, guest_actv_state, guest_intr_state,
}

-- What the processor demands of a control word: every bit that must be set is set, and every bit
-- that is set may be set.
abbrev pub Accepted : VmxCtrlMsr → ℕ → Type 0
Accepted msr v = (bit_and v msr.set ≡ msr.set) × (bit_and v msr.clr ≡ v)

-- What a capability register promises: a bit that must be set may be set.
abbrev pub IsConsistent : VmxCtrlMsr → Type 0
IsConsistent msr = bit_and msr.set msr.clr ≡ msr.set

adjust-Accepted : (ctrl : ℕ) (msr : VmxCtrlMsr) → IsConsistent msr → Accepted msr (adjust ctrl msr)
adjust-Accepted ctrl msr h = (
  bit_ext _ _
      λ i. omega (arith, digit i, digits i, consistent i, bit-bit_and (adjust ctrl msr) msr.set i),
  bit_ext _ _ λ i. omega (arith, digit i, digits i, bit-bit_and (adjust ctrl msr) msr.clr i),
)
  where
    digit : (i : ℕ) → bit (adjust ctrl msr) i ≡ min (bit (bit_or ctrl msr.set) i) (bit msr.clr i)
    digit i = bit-bit_and (bit_or ctrl msr.set) msr.clr i

    digits : (i : ℕ) → bit (bit_or ctrl msr.set) i ≡ max (bit ctrl i) (bit msr.set i)
    digits i = bit-bit_or ctrl msr.set i

    consistent : (i : ℕ) → bit msr.set i ≡ min (bit msr.set i) (bit msr.clr i)
    consistent i = ap (λ (t : ℕ). bit t i) (sym h) ∙ bit-bit_and msr.set msr.clr i

-- The fields behind the host's and the guest's part are as init_vmcs_ctrl left them, but for the
-- controls of entry and exit.
fields_kept :
    (p : Platform) (s : Setup)
    → let s' = init_vmcs_guest p (init_vmcs_host p s) in
      (s'.vmcs pin_controls ≡ s.vmcs pin_controls)
      × (s'.vmcs cpu_exec_ctrl0 ≡ s.vmcs cpu_exec_ctrl0)
      × (s'.vmcs cpu_exec_ctrl1 ≡ s.vmcs cpu_exec_ctrl1)
      × (s'.vmcs ent_controls ≡ s.ctrl_enter)
      × (s'.vmcs exi_controls ≡ s.ctrl_exit)
unfolding init_vmcs_guest init_vmcs_host write_all host_fields guest_fields
fields_kept p s = (refl, refl, refl, refl, refl)

-- What the host's and the guest's part write that does not depend on the platform's addresses.
pub record StateWritten (p : Platform) (s : Setup) : Type 0 where
  pub cr0 : s.vmcs host_cr0 ≡ p.cr0
  pub cr4 : s.vmcs host_cr4 ≡ p.cr4
  pub cs : s.vmcs host_sel_cs ≡ 0x8
  pub ss : s.vmcs host_sel_ss ≡ 0x10
  pub ds : s.vmcs host_sel_ds ≡ 0x10
  pub es : s.vmcs host_sel_es ≡ 0x10
  pub fs : s.vmcs host_sel_fs ≡ 0x10
  pub gs : s.vmcs host_sel_gs ≡ 0x10
  pub tr : s.vmcs host_sel_tr ≡ 0x80
  pub link : s.vmcs vmcs_link_ptr ≡ 2 ^ 64 - 1
  pub code : s.vmcs guest_ar_cs ≡ 0xa09b
  pub task : s.vmcs guest_ar_tr ≡ 0x8b
  pub flags : s.vmcs guest_rflags ≡ 0x2
  pub activity : s.vmcs guest_actv_state ≡ 0
  pub interrupts : s.vmcs guest_intr_state ≡ 0

pub init_vmcs-StateWritten :
    (p : Platform) (s : Setup) → StateWritten p ((init_vmcs false false p s).1)
unfolding init_vmcs init_vmcs_guest init_vmcs_host write_all host_fields guest_fields
init_vmcs-StateWritten p s = record {
  cr0 = refl;
  cr4 = refl;
  cs = refl;
  ss = refl;
  ds = refl;
  es = refl;
  fs = refl;
  gs = refl;
  tr = refl;
  link = refl;
  code = refl;
  task = refl;
  flags = refl;
  activity = refl;
  interrupts = refl;
}

-- What init_vmcs_ctrl writes.
record ControlsWritten (s s' : Setup) : Type 0 where
  pin : s'.vmcs pin_controls ≡ s.ctrl_pin
  cpu : s'.vmcs cpu_exec_ctrl0 ≡ s.ctrl_cpu_0
  secondary :
      (bit_and s.ctrl_cpu_rev_0.set (2 ^ 31) ≡ 0)
      ⊎ (s'.vmcs cpu_exec_ctrl1 ≡ adjust s.ctrl_cpu_1 s.ctrl_cpu_rev_1)
  enter : s'.ctrl_enter ≡ s.ctrl_enter
  leave : s'.ctrl_exit ≡ s.ctrl_exit

ctrl_written : (s : Setup) → ControlsWritten s (init_vmcs_ctrl s)
unfolding init_vmcs_ctrl write_all
ctrl_written s = elim (Bool-cases (bit_and s.ctrl_cpu_rev_0.set (2 ^ 31) == 0)) [
  | inl off ↦ rw off (record {
    pin = refl;
    cpu = refl;
    secondary = inl (ground arith);
    enter = refl;
    leave = refl;
  })
  | inr on ↦
      rw on (record { pin = refl; cpu = refl; secondary = inr refl; enter = refl; leave = refl })
]

-- The secondary controls stay as they are when they are not among the demanded ones.
pub init_vmcs_secondary :
    (p : Platform) (s : Setup)
    → bit_and s.ctrl_cpu_rev_0.set (2 ^ 31) ≡ 0
    → (init_vmcs false false p s).1.vmcs cpu_exec_ctrl1 ≡ s.vmcs cpu_exec_ctrl1
unfolding init_vmcs init_vmcs_ctrl set_controls write_all
init_vmcs_secondary p s off =
    let (kp, k0, k1, ke, kx) = fields_kept p (init_vmcs_ctrl (set_controls s)) in
    let e : (bit_and s.ctrl_cpu_rev_0.set (2 ^ 31) == 0) ≡ true = ground arith in rw (k1, e) refl

-- When vmcs_clear and make_vmcs_current succeed and each capability register allows what it
-- demands, `init_vmcs` returns 0, and whatever the variables of the controls held, the words that it
-- writes for the pin-based, primary, entry and exit controls are ones that the processor accepts;
-- so is the word for the secondary controls, unless they are not among the demanded ones.
pub init_vmcs_lem :
    (p : Platform) (s : Setup)
    → IsConsistent s.ctrl_pin_rev
    → IsConsistent s.ctrl_enter_rev
    → IsConsistent s.ctrl_exit_rev
    → IsConsistent s.ctrl_cpu_rev_0
    → IsConsistent s.ctrl_cpu_rev_1
    → (s' : Setup) × (init_vmcs false false p s ≡ (0, s'))
      × Accepted s.ctrl_pin_rev (s'.vmcs pin_controls)
      × Accepted s.ctrl_cpu_rev_0 (s'.vmcs cpu_exec_ctrl0)
      × Accepted s.ctrl_enter_rev (s'.vmcs ent_controls)
      × Accepted s.ctrl_exit_rev (s'.vmcs exi_controls)
      × ((bit_and s.ctrl_cpu_rev_0.set (2 ^ 31) ≡ 0)
          ⊎ Accepted s.ctrl_cpu_rev_1 (s'.vmcs cpu_exec_ctrl1))
unfolding init_vmcs set_controls
init_vmcs_lem p s hp he hx h0 h1 =
    let s1 = set_controls s in
    let w = ctrl_written s1 in
    let (kp, k0, k1, ke, kx) = fields_kept p (init_vmcs_ctrl s1) in
    (
      init_vmcs_guest p (init_vmcs_host p (init_vmcs_ctrl s1)),
      refl,
      rw (kp, w.pin) (adjust-Accepted _ s.ctrl_pin_rev hp),
      rw (k0, w.cpu) (adjust-Accepted _ s.ctrl_cpu_rev_0 h0),
      rw (ke, w.enter) (adjust-Accepted _ s.ctrl_enter_rev he),
      rw (kx, w.leave) (adjust-Accepted _ s.ctrl_exit_rev hx),
      elim w.secondary [
        | inl off ↦ inl off
        | inr on ↦ inr (rw (k1, on) (adjust-Accepted _ s.ctrl_cpu_rev_1 h1))
      ],
    )
