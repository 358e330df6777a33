-- ===== src/Vmcs/Encoding.antt =====
-- The encodings of the fields of the VMCS that x86/vmx.c writes (`enum Encoding` of x86/vmx.h).
use asor.Base.{ℕ}

abbrev pub vpid : ℕ
vpid = 0x0

abbrev pub guest_sel_es : ℕ
guest_sel_es = 0x800

abbrev pub guest_sel_cs : ℕ
guest_sel_cs = 0x802

abbrev pub guest_sel_ss : ℕ
guest_sel_ss = 0x804

abbrev pub guest_sel_ds : ℕ
guest_sel_ds = 0x806

abbrev pub guest_sel_fs : ℕ
guest_sel_fs = 0x808

abbrev pub guest_sel_gs : ℕ
guest_sel_gs = 0x80a

abbrev pub guest_sel_ldtr : ℕ
guest_sel_ldtr = 0x80c

abbrev pub guest_sel_tr : ℕ
guest_sel_tr = 0x80e

abbrev pub host_sel_es : ℕ
host_sel_es = 0xc00

abbrev pub host_sel_cs : ℕ
host_sel_cs = 0xc02

abbrev pub host_sel_ss : ℕ
host_sel_ss = 0xc04

abbrev pub host_sel_ds : ℕ
host_sel_ds = 0xc06

abbrev pub host_sel_fs : ℕ
host_sel_fs = 0xc08

abbrev pub host_sel_gs : ℕ
host_sel_gs = 0xc0a

abbrev pub host_sel_tr : ℕ
host_sel_tr = 0xc0c

abbrev pub vmcs_link_ptr : ℕ
vmcs_link_ptr = 0x2800

abbrev pub vmcs_link_ptr_hi : ℕ
vmcs_link_ptr_hi = 0x2801

abbrev pub guest_efer : ℕ
guest_efer = 0x2806

abbrev pub host_efer : ℕ
host_efer = 0x2c02

abbrev pub pin_controls : ℕ
pin_controls = 0x4000

abbrev pub cpu_exec_ctrl0 : ℕ
cpu_exec_ctrl0 = 0x4002

abbrev pub pf_error_mask : ℕ
pf_error_mask = 0x4006

abbrev pub pf_error_match : ℕ
pf_error_match = 0x4008

abbrev pub cr3_target_count : ℕ
cr3_target_count = 0x400a

abbrev pub exi_controls : ℕ
exi_controls = 0x400c

abbrev pub ent_controls : ℕ
ent_controls = 0x4012

abbrev pub cpu_exec_ctrl1 : ℕ
cpu_exec_ctrl1 = 0x401e

abbrev pub guest_limit_es : ℕ
guest_limit_es = 0x4800

abbrev pub guest_limit_cs : ℕ
guest_limit_cs = 0x4802

abbrev pub guest_limit_ss : ℕ
guest_limit_ss = 0x4804

abbrev pub guest_limit_ds : ℕ
guest_limit_ds = 0x4806

abbrev pub guest_limit_fs : ℕ
guest_limit_fs = 0x4808

abbrev pub guest_limit_gs : ℕ
guest_limit_gs = 0x480a

abbrev pub guest_limit_ldtr : ℕ
guest_limit_ldtr = 0x480c

abbrev pub guest_limit_tr : ℕ
guest_limit_tr = 0x480e

abbrev pub guest_limit_gdtr : ℕ
guest_limit_gdtr = 0x4810

abbrev pub guest_limit_idtr : ℕ
guest_limit_idtr = 0x4812

abbrev pub guest_ar_es : ℕ
guest_ar_es = 0x4814

abbrev pub guest_ar_cs : ℕ
guest_ar_cs = 0x4816

abbrev pub guest_ar_ss : ℕ
guest_ar_ss = 0x4818

abbrev pub guest_ar_ds : ℕ
guest_ar_ds = 0x481a

abbrev pub guest_ar_fs : ℕ
guest_ar_fs = 0x481c

abbrev pub guest_ar_gs : ℕ
guest_ar_gs = 0x481e

abbrev pub guest_ar_ldtr : ℕ
guest_ar_ldtr = 0x4820

abbrev pub guest_ar_tr : ℕ
guest_ar_tr = 0x4822

abbrev pub guest_intr_state : ℕ
guest_intr_state = 0x4824

abbrev pub guest_actv_state : ℕ
guest_actv_state = 0x4826

abbrev pub guest_sysenter_cs : ℕ
guest_sysenter_cs = 0x482a

abbrev pub host_sysenter_cs : ℕ
host_sysenter_cs = 0x4c00

abbrev pub guest_cr0 : ℕ
guest_cr0 = 0x6800

abbrev pub guest_cr3 : ℕ
guest_cr3 = 0x6802

abbrev pub guest_cr4 : ℕ
guest_cr4 = 0x6804

abbrev pub guest_base_es : ℕ
guest_base_es = 0x6806

abbrev pub guest_base_cs : ℕ
guest_base_cs = 0x6808

abbrev pub guest_base_ss : ℕ
guest_base_ss = 0x680a

abbrev pub guest_base_ds : ℕ
guest_base_ds = 0x680c

abbrev pub guest_base_fs : ℕ
guest_base_fs = 0x680e

abbrev pub guest_base_gs : ℕ
guest_base_gs = 0x6810

abbrev pub guest_base_ldtr : ℕ
guest_base_ldtr = 0x6812

abbrev pub guest_base_tr : ℕ
guest_base_tr = 0x6814

abbrev pub guest_base_gdtr : ℕ
guest_base_gdtr = 0x6816

abbrev pub guest_base_idtr : ℕ
guest_base_idtr = 0x6818

abbrev pub guest_dr7 : ℕ
guest_dr7 = 0x681a

abbrev pub guest_rsp : ℕ
guest_rsp = 0x681c

abbrev pub guest_rip : ℕ
guest_rip = 0x681e

abbrev pub guest_rflags : ℕ
guest_rflags = 0x6820

abbrev pub guest_sysenter_esp : ℕ
guest_sysenter_esp = 0x6824

abbrev pub guest_sysenter_eip : ℕ
guest_sysenter_eip = 0x6826

abbrev pub host_cr0 : ℕ
host_cr0 = 0x6c00

abbrev pub host_cr3 : ℕ
host_cr3 = 0x6c02

abbrev pub host_cr4 : ℕ
host_cr4 = 0x6c04

abbrev pub host_base_fs : ℕ
host_base_fs = 0x6c06

abbrev pub host_base_gs : ℕ
host_base_gs = 0x6c08

abbrev pub host_base_tr : ℕ
host_base_tr = 0x6c0a

abbrev pub host_base_gdtr : ℕ
host_base_gdtr = 0x6c0c

abbrev pub host_base_idtr : ℕ
host_base_idtr = 0x6c0e

abbrev pub host_sysenter_eip : ℕ
host_sysenter_eip = 0x6c12

abbrev pub host_rip : ℕ
host_rip = 0x6c16
