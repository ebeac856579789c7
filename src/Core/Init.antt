-- ===== src/Core/Init.antt =====
-- src/core/core.c: `rv_core_init` and `rv_core_init_csr_regs`, the hart after reset.
use riscv_em.Base.{
  ℕ, zero, suc, ◌+◌, ◌-◌, ◌*◌, ◌/◌, ◌^◌, false, none, some, List, [], ◌∷◌, ◌++◌, replicate, bit_or,
}
use riscv_em.Types.{Arch, by_arch, xlen, xlen_bytes, user_mode, supervisor_mode, machine_mode}
use riscv_em.Trap.Regs.{
  TrapRegs, TrapSetup, TrapHandling, m_bank, reg_set, status, isa, edeleg, ideleg, ie, tvec,
  scratch, epc, cause, tval, ip,
}
use riscv_em.Mmu.{mmu_init}
use riscv_em.Csr.{
  Callbacks, by_value, by_mmu, by_trap_m, by_trap_s, by_pmp_cfg, by_pmp_addr, CsrReg, CsrFile,
  put_reg, access_ro, access_rw,
}
use riscv_em.Core.Run.{Cpu}

-- The masks of csr.h
module _ (a : Arch) where
  abbrev pub mask_wr_all : ℕ
  mask_wr_all = 2 ^ xlen a - 1

  abbrev pub mstatus_mask : ℕ
  mstatus_mask = by_arch a 0x807FF9BB 0x8000000F007FF9BB

  abbrev pub tvec_mask : ℕ
  tvec_mask = by_arch a 0xFFFFFFFC 0xFFFFFFFFFFFFFFFC

  abbrev pub sstatus_mask : ℕ
  sstatus_mask = by_arch a 0x800DE133 0x80000003000DE133

  abbrev pub satp_mask : ℕ
  satp_mask = by_arch a 0x803FFFFF 0xF0000FFFFFFFFFFF

abbrev pub mip_mie_mask : ℕ
mip_mie_mask = 0xBBB

abbrev pub medeleg_mask : ℕ
medeleg_mask = 0xF3FF

abbrev pub sip_sie_mask : ℕ
sip_sie_mask = 0x333

abbrev pub sedeleg_mask : ℕ
sedeleg_mask = 0xF1FF

-- An assignment to one entry of the array, by its index
abbrev pub Setting : Type 0
Setting = ℕ × CsrReg

-- `INIT_CSR_REG_DEFAULT`
abbrev pub init_csr_reg_default : (index access_flags init_val mask warl : ℕ) → Setting
init_csr_reg_default index access_flags init_val mask warl = (
  index,
  record {
    access_flags = access_flags;
    value = init_val;
    mask = mask;
    warl_always_enabled = warl;
    callbacks = by_value;
  },
)

-- `INIT_CSR_REG_SPECIAL`, which leaves the value of the cleared array
abbrev pub init_csr_reg_special : (index access_flags mask warl : ℕ) → Callbacks → Setting
init_csr_reg_special index access_flags mask warl callbacks = (
  index,
  record {
    access_flags = access_flags;
    value = 0;
    mask = mask;
    warl_always_enabled = warl;
    callbacks = callbacks;
  },
)

-- `for(i = start; ...; i++)`, with `n` rounds
abbrev pub for_each : ℕ → ℕ → (ℕ → Setting) → List Setting
for_each zero start f = []
for_each (suc n) start f = f start ∷ for_each n (start + 1) f

-- The levels' access flags, joined
abbrev pub m_rw : ℕ
m_rw = access_rw machine_mode

abbrev pub m_ro : ℕ
m_ro = access_ro machine_mode

abbrev pub ms_rw : ℕ
ms_rw = bit_or (access_rw machine_mode) (access_rw supervisor_mode)

abbrev pub all_ro : ℕ
all_ro = bit_or (bit_or (access_ro machine_mode) (access_ro supervisor_mode)) (access_ro user_mode)

module _ (a : Arch) where
  abbrev pub xstatus_warl_bits : ℕ
  xstatus_warl_bits = by_arch a 0 (bit_or (2 * 2 ^ 32) (2 * 2 ^ 34))

  abbrev pub machine_settings : List Setting
  machine_settings =
      init_csr_reg_default 0xF11 m_ro 0 0 0
      ∷ init_csr_reg_default 0xF12 m_ro 0 0 0
      ∷ init_csr_reg_default 0xF13 m_ro 0 0 0
      ∷ init_csr_reg_default 0xF14 m_ro 0 0 0
      ∷ init_csr_reg_special 0x300 m_rw (mstatus_mask a) xstatus_warl_bits (by_trap_m status)
      ∷ init_csr_reg_special 0x301 m_ro (mask_wr_all a) 0 (by_trap_m isa)
      ∷ init_csr_reg_special 0x302 m_rw medeleg_mask 0 (by_trap_m edeleg)
      ∷ init_csr_reg_special 0x303 m_rw mip_mie_mask 0 (by_trap_m ideleg)
      ∷ init_csr_reg_special 0x304 m_rw mip_mie_mask 0 (by_trap_m ie)
      ∷ init_csr_reg_special 0x305 m_rw (tvec_mask a) 0 (by_trap_m tvec)
      ∷ init_csr_reg_default 0x306 m_rw 0 0 0
      ∷ init_csr_reg_special 0x340 m_rw (mask_wr_all a) 0 (by_trap_m scratch)
      ∷ init_csr_reg_special 0x341 m_rw (mask_wr_all a) 0 (by_trap_m epc)
      ∷ init_csr_reg_special 0x342 m_rw (mask_wr_all a) 0 (by_trap_m cause)
      ∷ init_csr_reg_special 0x343 m_rw (mask_wr_all a) 0 (by_trap_m tval)
      ∷ init_csr_reg_special 0x344 m_rw mip_mie_mask 0 (by_trap_m ip)
      ∷ []

  -- `PMP_NR_CFG_REGS` and `PMP_NR_ADDR_REGS`, and the registers up to their `_WARL_MAX`
  abbrev pub protection_settings : List Setting
  protection_settings =
      for_each (16 / xlen_bytes a) 0
        (λ i. init_csr_reg_special (0x3A0 + i) m_rw (mask_wr_all a) 0 (by_pmp_cfg i))
      ++ for_each (16 - 16 / xlen_bytes a) (16 / xlen_bytes a)
          (λ i. init_csr_reg_default (0x3A0 + i) m_ro 0 0 0)
      ++ for_each 16 0
          (λ i. init_csr_reg_special (0x3B0 + i) m_rw (mask_wr_all a) 0 (by_pmp_addr i))
      ++ for_each (64 - 16) 16 (λ i. init_csr_reg_default (0x3B0 + i) m_ro 0 0 0)

  abbrev pub supervisor_settings : List Setting
  supervisor_settings =
      init_csr_reg_special 0x100 ms_rw (sstatus_mask a) 0 (by_trap_s status)
      ∷ init_csr_reg_special 0x102 ms_rw sedeleg_mask 0 (by_trap_s edeleg)
      ∷ init_csr_reg_special 0x103 ms_rw sip_sie_mask 0 (by_trap_s ideleg)
      ∷ init_csr_reg_special 0x104 ms_rw sip_sie_mask 0 (by_trap_s ie)
      ∷ init_csr_reg_special 0x105 ms_rw (tvec_mask a) 0 (by_trap_s tvec)
      ∷ init_csr_reg_default 0x106 ms_rw 0 0 0
      ∷ init_csr_reg_special 0x140 ms_rw (mask_wr_all a) 0 (by_trap_s scratch)
      ∷ init_csr_reg_special 0x141 ms_rw (mask_wr_all a) 0 (by_trap_s epc)
      ∷ init_csr_reg_special 0x142 ms_rw (mask_wr_all a) 0 (by_trap_s cause)
      ∷ init_csr_reg_special 0x143 ms_rw (mask_wr_all a) 0 (by_trap_s tval)
      ∷ init_csr_reg_special 0x144 ms_rw sip_sie_mask 0 (by_trap_s ip)
      ∷ init_csr_reg_special 0x180 ms_rw (satp_mask a) 0 by_mmu
      ∷ []

  -- The bodies of the last two loops are one statement each: the second statement of each pair runs
  -- once, with the index that the loop leaves.
  abbrev pub counter_settings : List Setting
  counter_settings =
      (init_csr_reg_default 0xB00 m_rw 0 (mask_wr_all a) 0
        ∷ init_csr_reg_default 0xB80 m_rw 0 (mask_wr_all a) 0
        ∷ init_csr_reg_default 0xB02 m_rw 0 (mask_wr_all a) 0
        ∷ init_csr_reg_default 0xB82 m_rw 0 (mask_wr_all a) 0
        ∷ init_csr_reg_default 0xC00 all_ro 0 (mask_wr_all a) 0
        ∷ init_csr_reg_default 0xC80 all_ro 0 (mask_wr_all a) 0
        ∷ init_csr_reg_default 0xC01 all_ro 0 (mask_wr_all a) 0
        ∷ init_csr_reg_default 0xC81 all_ro 0 (mask_wr_all a) 0
        ∷ [])
      ++ for_each (32 - 3) 3 (λ i. init_csr_reg_default (0xB00 + i) m_ro 0 0 0)
      ++ (init_csr_reg_default (0xC00 + 32) all_ro 0 0 0 ∷ [])
      ++ for_each (32 - 3) 3 (λ i. init_csr_reg_default (0xB80 + i) m_rw 0 0 0)
      ++ (init_csr_reg_default (0xC80 + 32) all_ro 0 0 0 ∷ [])

  abbrev pub apply_settings : (ℕ → CsrReg) → List Setting → ℕ → CsrReg
  apply_settings regs [] = regs
  apply_settings regs ((index, reg) ∷ others) = apply_settings (put_reg regs index reg) others

  -- `memset` of the structure
  abbrev pub zero_csr_regs : ℕ → CsrReg
  zero_csr_regs k = (init_csr_reg_default k 0 0 0 0).1

  abbrev pub zero_setup : TrapSetup
  zero_setup = record {
    isa_reg = 0;
    edeleg_reg = 0;
    ideleg_reg = 0;
    tvec_reg = 0;
    counteren_reg = 0;
  }

  abbrev pub zero_handling : TrapHandling
  zero_handling = record { scratch_reg = 0; epc_reg = 0; cause_reg = 0; tval_reg = 0 }

  abbrev pub zero_trap : TrapRegs
  zero_trap = record {
    shared = record { status_reg = 0; ie_reg = 0; ip_reg = 0 };
    m_setup = zero_setup;
    m_handling = zero_handling;
    s_setup = zero_setup;
    s_handling = zero_handling;
    u_setup = zero_setup;
    u_handling = zero_handling;
  }

  -- `RV_SUPPORTED_EXTENSIONS`: I, M, A, S and U; and the width of the build
  abbrev pub supported_isa : ℕ
  supported_isa =
      bit_or (2 ^ 8 + 2 ^ 12 + 2 ^ 0 + 2 ^ 18 + 2 ^ 20) (by_arch a (1 * 2 ^ 30) (2 * 2 ^ 62))

  unfoldable pub rv_core_init_csr_regs : CsrFile
  rv_core_init_csr_regs = record {
    csr_regs =
        apply_settings zero_csr_regs
          (machine_settings ++ protection_settings ++ supervisor_settings ++ counter_settings);
    trap = reg_set zero_trap m_bank isa supported_isa;
    pmp = record { cfg = replicate 16 0; addr = replicate 16 0 };
    mmu = mmu_init;
  }

  -- The state of the bus is an argument; `execute_cb` is null.
  unfoldable pub rv_core_init : {β : Type 0} → β → Cpu β
  rv_core_init bus = record {
    hart = record {
      core = record {
        x = replicate 32 0;
        pc = 0x1000;
        next_pc = 0;
        instruction = 0;
        rd = 0;
        rs1 = 0;
        rs2 = 0;
        func3 = 0;
        func5 = 0;
        func6 = 0;
        func7 = 0;
        immediate = 0;
        jump_offset = 0;
      };
      lr_valid = false;
      lr_address = 0;
      rest = some (record {
        curr_priv_mode = machine_mode;
        curr_cycle = 0;
        sync_trap_pending = false;
        sync_trap_cause = 0;
        sync_trap_tval = 0;
        csr = rv_core_init_csr_regs;
        bus = bus;
      });
    };
    execute_cb = none;
  }
