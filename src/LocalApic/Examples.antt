-- ===== src/LocalApic/Examples.antt =====
-- A device with one register that counts reads, and one that stores.
use miniature.Base.{
  ℕ, ◌+◌, ◌-◌, ◌*◌, ◌/◌, ◌%◌, ◌^◌, ◌≡◌, refl, ap, false, ◌==◌, if◌then◌else◌, done, arith,
}
use miniature.LocalApic.{Device, dword, set_icr}
use miniature.LocalApic.Modes.{Registers, Speaks, Refines, driver, manual, driver-Refines}
use miniature.LocalApic.Icr.{set_icr-returns}

-- The state is the number of reads for which a command stays pending, and the last word that was written.
abbrev State : Type 0
State = ℕ × ℕ

abbrev registers : Registers State
registers = record { get = λ s n. ((s.0 + n) % dword, s); set = λ s n v. (n, v) }

-- A device of both modes, at the base 0xfee00000.
abbrev device : Device State
device = record {
  rdmsr = λ s reg. ((s.0 + (reg - 0x800)) % dword, s);
  wrmsr = λ s reg v. (reg - 0x800, v);
  read_volatile = λ s addr. ((s.0 + (addr - 0xfee00000) / 16) % dword, s);
  write_volatile = λ s addr v. ((addr - 0xfee00000) / 16, v);
  outb = λ s port v. s;
}

device-Speaks : Speaks device registers 0xfee00000 false
device-Speaks = (
  omega arith,
  λ s reg. ap (λ n. ((s.0 + n) % dword, s)) (index reg),
  λ s reg v. ap (λ n. (n, v)) (index reg),
)
  where
    index : (reg : ℕ) → (0xfee00000 + 16 * reg - 0xfee00000) / 16 ≡ reg
    index reg = omega arith

driver-Refines_example :
    Refines (driver device (record { base = 0xfee00000; x2 = false })) (manual registers)
driver-Refines_example = driver-Refines device registers 0xfee00000 false device-Speaks

-- A command stays pending for two reads after it is written.
abbrev sender : Device State
sender = record {
  rdmsr = λ s reg. (0, s);
  wrmsr = λ s reg v. s;
  read_volatile = λ s addr. if s.0 == 0 then (0, s) else (2 ^ 12, (s.0 - 1, s.1));
  write_volatile = λ s addr v. if addr == 0xfee00300 then (2, s.1 + v) else (s.0, v * dword);
  outb = λ s port v. s;
}

set_icr-returns_example :
    set_icr sender 3 (record { base = 0xfee00000; x2 = false }) 0x0300000000000042 (1, 0)
    ≡ done (0, 0x0300000000000042)
set_icr-returns_example =
    set_icr-returns sender 0xfee00000 3 1 2 0x0300000000000042 (1, 0) (0, 0) (0, 0x0300000000000042)
      (omega arith) (omega arith) (omega arith) (refl, (refl, refl)) (refl, (refl, (refl, refl)))
