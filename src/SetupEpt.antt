-- ===== src/SetupEpt.antt =====
-- x86/ept.c, `__setup_ept` and `setup_ept`: the root table, the EPT pointer and the identity map.
-- EptState holds the state of the VMCS, the pages, the static variables `eptp` and `pml4`, and what
-- was printed. `ram_size` is what fwcfg_get_u64(FW_CFG_RAM_SIZE) reads of the firmware.
pub mod Root
pub mod Identity
pub mod Line
mod Tests
use asor.Base.{
  ℕ, ◌+◌, ◌%◌, ◌^◌, Bool, true, false, not, ◌&&◌, ◌||◌, Option, none, some, List, [], ◌∷◌, ltb,
  ◌==◌, if◌then◌else◌, ◌>>=◌, bit_and, bit_or,
}
use asor.Memory.{virt_to_phys, zero_page}
use asor.PageAlloc.{Pages, alloc_page}
use asor.Vmcs.{Setup, write_all}
use asor.Vmcs.Encoding.{cpu_exec_ctrl0, cpu_exec_ctrl1}
use asor.Ept.{ept_ra, ept_wa, ept_ea, setup_ept_range}

-- The texts that `__setup_ept` prints.
pub data Message : Type 0 where
  ept_missing wb_missing pwl4_missing : Message

pub record EptState : Type 0 where
  pub setup : Setup
  pub pages : Pages
  pub ept_vpid : ℕ
  pub eptp : ℕ
  pub pml4 : ℕ
  -- the newest first
  pub printed : List Message

-- The encoding EPTP.
abbrev pub eptp_field : ℕ
eptp_field = 0x201a

abbrev pub cpu_secondary : ℕ
cpu_secondary = 2 ^ 31

abbrev pub cpu_ept : ℕ
cpu_ept = 2 ^ 1

abbrev pub ept_mem_type_wb : ℕ
ept_mem_type_wb = 6

abbrev pub eptp_ad_flag : ℕ
eptp_ad_flag = 2 ^ 6

abbrev pub ept_cap_pwl4 : ℕ
ept_cap_pwl4 = 2 ^ 6

abbrev pub ept_cap_wb : ℕ
ept_cap_wb = 2 ^ 14

abbrev pub ept_cap_2m_page : ℕ
ept_cap_2m_page = 2 ^ 16

pub ept_2m_supported : EptState → Bool
ept_2m_supported s = not (bit_and s.ept_vpid ept_cap_2m_page == 0)

-- (3 << EPTP_PG_WALK_LEN_SHIFT) is 24.
abbrev pub eptp_value : ℕ → Bool → ℕ
eptp_value hpa enable_ad =
    let eptp = bit_or (bit_or ept_mem_type_wb 24) hpa in
    if enable_ad then bit_or eptp eptp_ad_flag else eptp

-- The writes of `__setup_ept`, each after the read that it needs.
pub write_eptp : ℕ → Setup → Setup
write_eptp eptp s =
    let s1 = record s { vmcs = write_all ((eptp_field, eptp) ∷ []) s.vmcs } in
    let s2 = record s1 {
      vmcs =
          write_all ((cpu_exec_ctrl0, bit_or (s1.vmcs cpu_exec_ctrl0) cpu_secondary) ∷ []) s1.vmcs;
    } in
    record s2 {
      vmcs = write_all ((cpu_exec_ctrl1, bit_or (s2.vmcs cpu_exec_ctrl1) cpu_ept) ∷ []) s2.vmcs;
    }

-- `__setup_ept`: the results are the returned value and the state.
pub setup_eptp : ℕ → Bool → EptState → ℕ × EptState
setup_eptp hpa enable_ad s =
    if bit_and s.setup.ctrl_cpu_rev_0.clr cpu_secondary == 0
      || bit_and s.setup.ctrl_cpu_rev_1.clr cpu_ept == 0
    then (1, record s { printed = ept_missing ∷ s.printed })
    else if bit_and s.ept_vpid ept_cap_wb == 0
    then (1, record s { printed = wb_missing ∷ s.printed })
    else if bit_and s.ept_vpid ept_cap_pwl4 == 0
    then (1, record s { printed = pwl4_missing ∷ s.printed })
    else (
      0,
      record s {
        eptp = eptp_value hpa enable_ad;
        setup = write_eptp (eptp_value hpa enable_ad) s.setup;
      },
    )

-- The end of the memory that is mapped: at least 4 GB.
abbrev pub end_of_memory : ℕ → ℕ
end_of_memory ram_size = if ltb ram_size (2 ^ 32) then 2 ^ 32 else ram_size

-- `fuel` bounds the loops of `setup_ept_range`.
pub setup_ept : ℕ → ℕ → Bool → EptState → Option (ℕ × EptState)
setup_ept fuel ram_size enable_ad s = do
  let (pml4, pages) = alloc_page s.pages
  let (failed, s1) =
      setup_eptp (virt_to_phys pml4) enable_ad (record s { pml4 = pml4; pages = pages })
  (phys, pages') ←
      if not (failed == 0)
      then some (0, s1.pages)
      else setup_ept_range fuel pml4 0 (end_of_memory ram_size) false
          (not enable_ad && ept_2m_supported s1) (bit_or (bit_or ept_wa ept_ra) ept_ea)
          (record s1.pages { mem = zero_page pml4 s1.pages.mem })
  some (if not (failed == 0) then (1, s1) else (0, record s1 { pages = pages' }))
