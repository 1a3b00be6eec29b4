-- ===== src/LocalApic.antt =====
-- kernel/src/acpi/local_apic.rs and kernel/src/ipi.rs: the registers of the local APIC.
pub mod Modes
pub mod Icr
mod Examples
use miniature.Base.{
  ℕ, zero, suc, ◌+◌, ◌*◌, ◌/◌, ◌%◌, ◌^◌, Bool, true, false, bit_or, ltb, ◌==◌, if◌then◌else◌,
  Outcome, done, panic, spins, ◌>>=◌, ◌>>◌, assert,
}

-- The instructions that reach a device in a state `S`: `rdmsr` and `wrmsr`, volatile reads and
-- writes of 32 bits, and `outb`. A read may change the state.
pub record Device (S : Type 0) : Type 0 where
  pub rdmsr : S → ℕ → ℕ × S
  pub wrmsr : S → ℕ → ℕ → S
  pub read_volatile : S → ℕ → ℕ × S
  pub write_volatile : S → ℕ → ℕ → S
  pub outb : S → ℕ → ℕ → S

pub record LocalApic : Type 0 where
  pub base : ℕ
  pub x2 : Bool

abbrev pub dword : ℕ
dword = 2 ^ 32

-- `IpiKind`, with its codes.
pub data IpiKind : Type 0 where
  wakeup switch pit : IpiKind

abbrev pub ipi_code : IpiKind → ℕ
ipi_code wakeup = 0x40
ipi_code switch = 0x42
ipi_code pit = 0x43

pub data IpiTarget : Type 0 where
  current all other : IpiTarget

abbrev pub target_code : IpiTarget → ℕ
target_code current = 1
target_code all = 2
target_code other = 3

-- The words of the command register: `LocalApic::ipi`, `ipi_nmi`, and `ipi`. A shift of a `u64` keeps
-- its low 64 bits.
abbrev pub shift : Bool → ℕ
shift true = 32
shift false = 56

abbrev pub ipi_word : Bool → ℕ → IpiKind → ℕ
ipi_word x2 apic_id kind = bit_or (bit_or 0x40 (ipi_code kind)) (apic_id * 2 ^ shift x2 % 2 ^ 64)

abbrev pub ipi_nmi_word : Bool → ℕ → ℕ
ipi_nmi_word x2 apic_id = bit_or (bit_or (apic_id * 2 ^ shift x2 % 2 ^ 64) (2 ^ 14)) (4 * 2 ^ 8)

abbrev pub ipi_target_word : IpiKind → IpiTarget → ℕ
ipi_target_word kind target = bit_or (bit_or (target_code target * 2 ^ 18) (2 ^ 14)) (ipi_code kind)

-- The bit `PENDING`.
abbrev pub is_pending : ℕ → Bool
is_pending v = v / 2 ^ 12 % 2 == 1

module _ {S : Type 0} (d : Device S) where
  -- The address is computed in 32 bits.
  abbrev pub register_address : LocalApic → ℕ → Outcome ℕ
  register_address a reg = assert (ltb (a.base % dword + reg) dword) >> done (a.base % dword + reg)

  pub read : LocalApic → ℕ → S → Outcome (ℕ × S)
  read a reg s = register_address a reg >>= λ addr. done (d.read_volatile s addr)

  unfoldable pub write : LocalApic → ℕ → ℕ → S → Outcome S
  write a reg value s = register_address a reg >>= λ addr. done (d.write_volatile s addr value)

  -- `rdmsr(..) as u32`
  abbrev pub rdmsr_u32 : ℕ → S → Outcome (ℕ × S)
  rdmsr_u32 reg s = let (v, s') = d.rdmsr s reg in done (v % dword, s')

  abbrev pub wrmsr : ℕ → ℕ → S → Outcome S
  wrmsr reg value s = done (d.wrmsr s reg value)

  pub id : LocalApic → S → Outcome (ℕ × S)
  id a s = if a.x2 then rdmsr_u32 0x802 s else read a 0x20 s

  pub version : LocalApic → S → Outcome (ℕ × S)
  version a s = if a.x2 then rdmsr_u32 0x803 s else read a 0x30 s

  pub eoi : LocalApic → S → Outcome S
  eoi a s = if a.x2 then wrmsr 0x80B 0 s else write a 0xB0 0 s

  -- The error status is updated by a write.
  pub esr : LocalApic → S → Outcome (ℕ × S)
  esr a s =
      if a.x2
      then (wrmsr 0x828 0 s >>= λ s'. rdmsr_u32 0x828 s')
      else (write a 0x280 0 s >>= λ s'. read a 0x280 s')

  pub lvt_timer : LocalApic → S → Outcome (ℕ × S)
  lvt_timer a s = if a.x2 then rdmsr_u32 0x832 s else read a 0x320 s

  pub set_lvt_timer : LocalApic → ℕ → S → Outcome S
  set_lvt_timer a value s = if a.x2 then wrmsr 0x832 value s else write a 0x320 value s

  pub init_count : LocalApic → S → Outcome (ℕ × S)
  init_count a s = if a.x2 then rdmsr_u32 0x838 s else read a 0x380 s

  pub set_init_count : LocalApic → ℕ → S → Outcome S
  set_init_count a value s = if a.x2 then wrmsr 0x838 value s else write a 0x380 value s

  pub cur_count : LocalApic → S → Outcome (ℕ × S)
  cur_count a s = if a.x2 then rdmsr_u32 0x839 s else read a 0x390 s

  pub div_conf : LocalApic → S → Outcome (ℕ × S)
  div_conf a s = if a.x2 then rdmsr_u32 0x83E s else read a 0x3E0 s

  pub set_div_conf : LocalApic → ℕ → S → Outcome S
  set_div_conf a value s = if a.x2 then wrmsr 0x83E value s else write a 0x3E0 value s

  pub lvt_error : LocalApic → S → Outcome (ℕ × S)
  lvt_error a s = if a.x2 then rdmsr_u32 0x837 s else read a 0x370 s

  pub set_lvt_error : LocalApic → ℕ → S → Outcome S
  set_lvt_error a value s = if a.x2 then wrmsr 0x837 value s else write a 0x370 value s

  abbrev pub setup_error_int : LocalApic → S → Outcome S
  setup_error_int a s = set_lvt_error a 49 s

  -- The high half is read first.
  pub icr : LocalApic → S → Outcome (ℕ × S)
  icr a s = if a.x2 then done (d.rdmsr s 0x830) else (do
    (high, s₁) ← read a 0x310 s
    (low, s₂) ← read a 0x300 s₁
    done (high * dword + low, s₂))

  -- The loops of `set_icr`: as long as a command is pending.
  pub wait_idle : ℕ → LocalApic → S → Outcome S
  wait_idle zero a s = spins
  wait_idle (suc fuel) a s = do
    (v, s') ← read a 0x300 s
    let rest = wait_idle fuel a s'
    if is_pending v then rest else done s'

  -- The rounds of each loop are a parameter.
  pub set_icr : ℕ → LocalApic → ℕ → S → Outcome S
  set_icr fuel a value s = if a.x2 then wrmsr 0x830 value s else (do
    s₁ ← wait_idle fuel a s
    s₂ ← write a 0x310 (value / dword % dword) s₁
    s₃ ← write a 0x300 (value % dword) s₂
    wait_idle fuel a s₃)

  abbrev pub ipi : ℕ → LocalApic → ℕ → IpiKind → S → Outcome S
  ipi fuel a apic_id kind s = set_icr fuel a (ipi_word a.x2 apic_id kind) s

  abbrev pub ipi_nmi : ℕ → LocalApic → ℕ → S → Outcome S
  ipi_nmi fuel a apic_id s = set_icr fuel a (ipi_nmi_word a.x2 apic_id) s

  abbrev pub ipi_all : ℕ → LocalApic → IpiKind → IpiTarget → S → Outcome S
  ipi_all fuel a kind target s = set_icr fuel a (ipi_target_word kind target) s

  -- The software enable bit of the spurious interrupt register; in both modes through memory.
  abbrev pub enable : LocalApic → S → Outcome S
  enable a s = read a 0xf0 s >>= λ (v, s'). write a 0xf0 (bit_or v 0x100) s'

  -- On the first processor, and on the others; the flag is what the processor can do. `& 0xffff0000` keeps
  -- the bits from 16 to 31.
  pub setup_apic : LocalApic → ℕ → Bool → Bool → S → Outcome (LocalApic × S)
  setup_apic a apic_base is_bsp has_x2apic s =
      if is_bsp
      then (do
        let s₁ = d.wrmsr s 0x1B (bit_or apic_base 0x800)
        let a' = record a { base = apic_base / 2 ^ 16 % 2 ^ 16 * 2 ^ 16; x2 = has_x2apic }
        let s₂ = d.outb (d.outb s₁ 0x21 0xff) 0xa1 0xff
        s₃ ← enable a' s₂
        s₄ ← set_lvt_error a' 49 s₃
        done (a', s₄))
      else (enable a s >>= λ s'. done (a, s'))
