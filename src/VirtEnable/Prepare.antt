-- ===== src/VirtEnable/Prepare.antt =====
-- `prepare_guest`: the VMCS and the page tables of the guest make the processor ready to enter it.
use asor.Base.{
  ℕ, ◌+◌, ◌/◌, ◌%◌, ◌^◌, ◌≤◌, ◌<◌, ◌≡◌, ◌≢◌, ◌⊎◌, refl, ap, subst, sym, ◌∙◌, inl, inr, true, none,
  some, List, ◌∷◌, length, ltb, if◌then◌else◌, bit_and, bit_or, arith,
}
use asor.Base.Bits.{bit_and_comm, bit_and-zero}
use asor.Memory.{zero_page, write_word}
use asor.PageAlloc.Chain.{IsFree}
use asor.Vmcs.{Platform, Setup, VmxCtrlMsr}
use asor.Vmcs.Encoding.{
  pin_controls, ent_controls, exi_controls, cpu_exec_ctrl0, cpu_exec_ctrl1, host_cr0, host_cr4,
  host_sel_cs, host_sel_ss, host_sel_ds, host_sel_es, host_sel_fs, host_sel_gs, host_sel_tr,
  vmcs_link_ptr, guest_ar_cs, guest_ar_tr, guest_rflags, guest_actv_state, guest_intr_state,
}
use asor.Vmcs.Controls.{
  Accepted, IsConsistent, init_vmcs_lem, init_vmcs_secondary, StateWritten, init_vmcs-StateWritten,
}
use asor.Ept.Access.{access}
use asor.Ept.Walk.{translate}
use asor.Ept.Setup.{table_room}
use asor.Ept.Tables.{Spare}
use asor.Ept.Identity.{ident}
use asor.SetupEpt.{EptState, eptp_field, cpu_secondary, cpu_ept, end_of_memory}
use asor.SetupEpt.Root.{unowned}
use asor.SetupEpt.Identity.{HasEpt, field_after, setup_ept-EptEnabled}
use asor.InitVmx.{VmxState}
use asor.InitVmx.Registers.{Fixed, Fixed-more, new_page_lem, stamped_page_lem}
use asor.Vmx.{Vmx}
use asor.VirtEnable.{
  Machine, Environment, setup_of, with_setup, ept_of, with_ept, run_of, platform_of, new_vmcs,
  init_guest_vmcs, prepare_guest,
}
use asor.VirtEnable.Contract.{VmcsReady, StateReady, EntryReady, IsProcessor, CapsAgree}

-- The machine with the page `w` for the VMCS.
abbrev with_vmcs : ℕ → Machine → Machine
with_vmcs w m = record m {
  vmx = record m.vmx {
    pages = record {
      mem = write_word w (m.vmx.basic.revision % 2 ^ 31) (zero_page w m.vmx.pages.mem);
      freelist = m.vmx.pages.mem w;
    };
  };
  guest_vmcs = w;
}

with_vmcs-VmcsReady :
    (w : ℕ) (m : Machine) → w % 2 ^ 12 ≡ 0 → w ≢ m.vmx.vmxon_region → VmcsReady (with_vmcs w m)
with_vmcs-VmcsReady w m al ne = record { aligned = al; other = ne; revision = ground arith }

-- The controls behind `init_vmcs`: those that `setup_ept` changes, and the others.
record ControlsReady (c : VmxState) (s : Setup) : Type 0 where
  pin : Accepted c.ctrl_pin_rev (s.vmcs pin_controls)
  cpu : Accepted c.ctrl_cpu_rev_0 (s.vmcs cpu_exec_ctrl0)
  secondary : (s.vmcs cpu_exec_ctrl1 ≡ 0) ⊎ Accepted c.ctrl_cpu_rev_1 (s.vmcs cpu_exec_ctrl1)
  enter : Accepted c.ctrl_enter_rev (s.vmcs ent_controls)
  leave : Accepted c.ctrl_exit_rev (s.vmcs exi_controls)

no_demand : (msr : VmxCtrlMsr) → msr.set ≡ 0 → IsConsistent msr
no_demand msr e = rw e (bit_and_comm 0 msr.clr ∙ bit_and-zero msr.clr)

init_guest_vmcs_lem :
    (env : Environment) (g : Vmx → Vmx) (m : Machine) (w : ℕ) (xs : List ℕ)
    → IsProcessor env m.vmx g
    → CapsAgree m.vmx
    → IsFree m.vmx.pages (w ∷ xs)
    → Spare unowned (w ∷ xs)
    → w ≢ m.vmx.vmxon_region
    → m.vmcs cpu_exec_ctrl1 ≡ 0
    → (s : Setup) × (init_guest_vmcs env m ≡ (0, with_setup s (with_vmcs w m)))
      × ControlsReady m.vmx s
      × StateWritten (platform_of env (with_vmcs w m)) s
unfolding init_guest_vmcs new_vmcs
init_guest_vmcs_lem env g m w xs p caps f sp ne fresh =
    let (taken, free) = new_page_lem m.vmx.pages w xs f sp in
    let ready = with_vmcs-VmcsReady w m sp.1 ne in
    let clear = p.vmcs_clear_ok (with_vmcs w m) ready in
    let cur = p.make_vmcs_current_ok (with_vmcs w m) ready in
    let plat = platform_of env (with_vmcs w m) in
    let (s, run, pin, cpu, enter, leave, secondary) =
      init_vmcs_lem plat (setup_of (with_vmcs w m)) caps.pin caps.enter caps.leave caps.cpu
        (no_demand m.vmx.ctrl_cpu_rev_1 caps.optional) in
    (
      s,
      rw (taken, clear, cur, run) refl,
      record {
        pin = pin;
        cpu = cpu;
        secondary = elim secondary [
          | inl off ↦ inl (
              sym (ap (λ (r : ℕ × Setup). r.1.vmcs cpu_exec_ctrl1) run)
              ∙ init_vmcs_secondary plat (setup_of (with_vmcs w m)) off
              ∙ fresh)
          | inr on ↦ inr on
        ];
        enter = enter;
        leave = leave;
      },
      subst (λ (r : ℕ × Setup). StateWritten plat r.1) run
          (init_vmcs-StateWritten plat (setup_of (with_vmcs w m))),
    )

one_more :
    (msr : VmxCtrlMsr) (v b : ℕ)
    → bit_and b msr.clr ≡ b
    → Accepted msr v
    → Accepted msr (bit_or v b) × (bit_and (bit_or v b) b ≡ b)
one_more msr v b h a = Fixed-more msr.set msr.clr v b h a

-- A word that holds the bit alone.
alone :
    (msr : VmxCtrlMsr) (v b : ℕ)
    → msr.set ≡ 0
    → bit_and b msr.clr ≡ b
    → v ≡ 0
    → Accepted msr (bit_or v b) × (bit_and (bit_or v b) b ≡ b)
alone msr v b none_set h z = one_more msr v b h (rw (none_set, z) (zero_accepted msr.clr))
  where
    zero_accepted : (clr : ℕ) → (bit_and 0 0 ≡ 0) × (bit_and 0 clr ≡ 0)
    zero_accepted clr = (refl, bit_and_comm 0 clr ∙ bit_and-zero clr)

-- `setup_ept` changes none of the fields of the state.
kept-StateReady :
    (c : VmxState) (p : Platform) (s : Setup) (eptp : ℕ) (f : ℕ → ℕ)
    → Fixed (c.msr 0x486) (c.msr 0x487) p.cr0
    → Fixed (c.msr 0x488) (c.msr 0x489) p.cr4
    → StateWritten p s
    → ((e : ℕ) → f e ≡ field_after eptp s e)
    → StateReady c f
kept-StateReady c p s eptp f fix0 fix4 w fields = record {
  host_0 = subst (Fixed (c.msr 0x486) (c.msr 0x487)) (sym (fields host_cr0 ∙ w.cr0)) fix0;
  host_4 = subst (Fixed (c.msr 0x488) (c.msr 0x489)) (sym (fields host_cr4 ∙ w.cr4)) fix4;
  host_code = let e = fields host_sel_cs ∙ w.cs in (omega (arith, e), omega (arith, e));
  host_task = let e = fields host_sel_tr ∙ w.tr in (omega (arith, e), omega (arith, e));
  host_stack = omega (arith, fields host_sel_ss ∙ w.ss);
  host_data = (omega (arith, fields host_sel_ds ∙ w.ds), omega (arith, fields host_sel_es ∙ w.es));
  host_more = (omega (arith, fields host_sel_fs ∙ w.fs), omega (arith, fields host_sel_gs ∙ w.gs));
  link = fields vmcs_link_ptr ∙ w.link;
  guest_code = let e = fields guest_ar_cs ∙ w.code in (omega (arith, e), omega (arith, e));
  guest_task = let e = fields guest_ar_tr ∙ w.task in (omega (arith, e), omega (arith, e));
  flags = fields guest_rflags ∙ w.flags;
  active = fields guest_actv_state ∙ w.activity;
  interruptible = fields guest_intr_state ∙ w.interrupts;
}

-- With EPT switched on in these controls, and the pointer to the root `q`.
ready_to_enter :
    (c : VmxState) (s : Setup) (q : ℕ) (v : Vmx)
    → CapsAgree c
    → ControlsReady c s
    → q % 2 ^ 12 ≡ 0
    → ((e : ℕ) → v.vmcs e ≡ field_after (q + 94) s e)
    → StateReady c v.vmcs
    → EntryReady c v
ready_to_enter c s q v caps r al fields state =
    let (cpu, cpu_on) = one_more c.ctrl_cpu_rev_0 _ cpu_secondary caps.secondary r.cpu in
    let (two, two_on) : Accepted c.ctrl_cpu_rev_1 (bit_or (s.vmcs cpu_exec_ctrl1) cpu_ept)
        × (bit_and (bit_or (s.vmcs cpu_exec_ctrl1) cpu_ept) cpu_ept ≡ cpu_ept) =
      elim r.secondary [
        | inl z ↦ alone c.ctrl_cpu_rev_1 _ cpu_ept caps.optional caps.ept z
        | inr on ↦ one_more c.ctrl_cpu_rev_1 _ cpu_ept caps.ept on
      ] in
    record {
      pin = subst (λ x. Accepted c.ctrl_pin_rev x) (sym (fields pin_controls)) r.pin;
      cpu = subst (λ x. Accepted c.ctrl_cpu_rev_0 x) (sym (fields cpu_exec_ctrl0)) cpu;
      secondary = subst (λ x. Accepted c.ctrl_cpu_rev_1 x) (sym (fields cpu_exec_ctrl1)) two;
      enter = subst (λ x. Accepted c.ctrl_enter_rev x) (sym (fields ent_controls)) r.enter;
      leave = subst (λ x. Accepted c.ctrl_exit_rev x) (sym (fields exi_controls)) r.leave;
      secondary_on = ap (λ x. bit_and x cpu_secondary) (fields cpu_exec_ctrl0) ∙ cpu_on;
      ept_on = ap (λ x. bit_and x cpu_ept) (fields cpu_exec_ctrl1) ∙ two_on;
      write_back = omega (arith, fields eptp_field);
      four_levels = omega (arith, fields eptp_field);
      state = state;
    }

caps-HasEpt :
    (e : EptState) (c : VmxState)
    → CapsAgree c
    → e.setup.ctrl_cpu_rev_0 ≡ c.ctrl_cpu_rev_0
    → e.setup.ctrl_cpu_rev_1 ≡ c.ctrl_cpu_rev_1
    → e.ept_vpid ≡ c.ept_vpid
    → HasEpt e
caps-HasEpt e c caps e0 e1 e2 = record {
  secondary = λ z. absurd (
      omega (
        arith,
        sym caps.secondary
            ∙ bit_and_comm cpu_secondary c.ctrl_cpu_rev_0.clr
            ∙ ap (λ (r : VmxCtrlMsr). bit_and r.clr cpu_secondary) (sym e0)
            ∙ z,
      ));
  ept = λ z. absurd (
      omega (
        arith,
        sym caps.ept
            ∙ bit_and_comm cpu_ept c.ctrl_cpu_rev_1.clr
            ∙ ap (λ (r : VmxCtrlMsr). bit_and r.clr cpu_ept) (sym e1)
            ∙ z,
      ));
  wb = rw e2 caps.wb;
  pwl4 = rw e2 caps.pwl4;
}

-- What `prepare_guest` leaves: a processor that can enter the guest, and its page tables.
pub record Prepared (q ram_size ga : ℕ) (m m' : Machine) : Type 0 where
  pub ready : EntryReady m.vmx (run_of m')
  pub root : m'.pml4 ≡ q
  pub guest : m'.current ≡ m.current
  pub map :
      translate 3 m'.vmx.pages.mem m'.pml4 ga
      ≡ (if ltb ga (end_of_memory ram_size) then some (ident 7 ga) else none)
  pub allowed :
      access 3 m'.vmx.pages.mem m'.pml4 ga ≡ (if ltb ga (end_of_memory ram_size) then 7 else 0)

pub prepare_guest_lem :
    (fuel : ℕ) (env : Environment) (g : Vmx → Vmx) (m : Machine) (w q ga : ℕ) (xs : List ℕ)
    → IsProcessor env m.vmx g
    → CapsAgree m.vmx
    → Fixed (m.vmx.msr 0x486) (m.vmx.msr 0x487) m.vmx.cr0
    → Fixed (m.vmx.msr 0x488) (m.vmx.msr 0x489) m.vmx.cr4
    → IsFree m.vmx.pages (w ∷ q ∷ xs)
    → Spare unowned (w ∷ q ∷ xs)
    → w ≢ m.vmx.vmxon_region
    → m.vmcs cpu_exec_ctrl1 ≡ 0
    → env.ram_size % 2 ^ 12 ≡ 0
    → env.ram_size ≤ 2 ^ 48
    → end_of_memory env.ram_size / 2 ^ 12 < fuel
    → table_room (end_of_memory env.ram_size) ≤ length xs
    → ga < 2 ^ 48
    → (m' : Machine) × (prepare_guest fuel env m ≡ some m') × Prepared q env.ram_size ga m m'
unfolding prepare_guest
prepare_guest_lem fuel env g m w q ga xs p caps fix0 fix4 f sp ne fresh whole small hf room hga =
    let (s, run, controls, written) = init_guest_vmcs_lem env g m w (q ∷ xs) p caps f sp ne fresh in
    let m1 = with_setup s (with_vmcs w m) in
    let (e, run', on) =
      setup_ept-EptEnabled fuel env.ram_size q ga xs true (ept_of m1)
        (caps-HasEpt (ept_of m1) m.vmx caps refl refl refl)
        (stamped_page_lem m.vmx.pages w (m.vmx.basic.revision % 2 ^ 31) (q ∷ xs) f sp) sp.3 whole
        small hf room hga in
    (
      with_ept e m1,
      rw (run, run') refl,
      record {
        ready = ready_to_enter m.vmx s q (run_of (with_ept e m1)) caps controls sp.3.1 on.fields (
            kept-StateReady m.vmx (platform_of env (with_vmcs w m)) s (q + 94) _ fix0 fix4 written
              on.fields);
        root = on.root;
        guest = refl;
        map = on.map;
        allowed = on.allowed;
      },
    )
