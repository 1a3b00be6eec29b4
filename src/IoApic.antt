-- ===== src/IoApic.antt =====
-- kernel/src/acpi/io_apic.rs: which input of which I/O APIC each of the 16 legacy interrupts takes,
-- and what is written to its redirection table.
pub mod Routes
mod Examples
use miniature.Base.{
  ℕ, zero, suc, ◌+◌, ◌-◌, ◌*◌, ◌/◌, ◌%◌, ◌^◌, bit_or, Bool, true, false, not, ◌&&◌, ◌||◌, List, [],
  ◌∷◌, ◌++◌, Option, none, some, ltb, leb, ◌==◌, if◌then◌else◌, Outcome, done, panic, ◌>>=◌, ◌>>◌,
  assert,
}

-- `MadtIoApic` and `MadtInterruptSrcOverride` of shared/src/arg.rs.
pub record MadtIoApic : Type 0 where
  pub id : ℕ
  pub address : ℕ
  pub gsi_base : ℕ

pub record MadtInterruptSrcOverride : Type 0 where
  pub bus_source : ℕ
  pub irq_source : ℕ
  pub gsi : ℕ
  pub flags : ℕ

pub data ApicTriggerMode : Type 0 where
  edge level : ApicTriggerMode

pub data ApicPolarity : Type 0 where
  active_high active_low : ApicPolarity

pub data DestinationMode : Type 0 where
  physical logical : DestinationMode

pub data DeliveryMode : Type 0 where
  fixed lowest_priority smi nmi init ext_int : DeliveryMode

pub data TriggerMode : Type 0 where
  conforms_to_specs edge level : TriggerMode

pub data Polarity : Type 0 where
  conforms_to_specs active_high active_low : Polarity

pub record MapInfo : Type 0 where
  pub dest : ℕ
  pub mask : Bool
  pub trigger_mode : ApicTriggerMode
  pub polarity : ApicPolarity
  pub dest_mode : DestinationMode
  pub delivery_mode : DeliveryMode
  pub vector : ℕ

-- `as u64` of the enumerations and of `bool`.
abbrev trigger_bit : ApicTriggerMode → ℕ
trigger_bit ApicTriggerMode.edge = 0
trigger_bit ApicTriggerMode.level = 1

abbrev polarity_bit : ApicPolarity → ℕ
polarity_bit ApicPolarity.active_high = 0
polarity_bit ApicPolarity.active_low = 1

abbrev dest_bit : DestinationMode → ℕ
dest_bit physical = 0
dest_bit logical = 1

abbrev delivery_bits : DeliveryMode → ℕ
delivery_bits fixed = 0
delivery_bits lowest_priority = 1
delivery_bits smi = 2
delivery_bits nmi = 4
delivery_bits init = 5
delivery_bits ext_int = 7

abbrev mask_bit : Bool → ℕ
mask_bit true = 1
mask_bit false = 0

abbrev pub raw_bits : MapInfo → ℕ
raw_bits info = bit_or (info.dest * 2 ^ 56) (
    bit_or (mask_bit info.mask * 2 ^ 16) (
      bit_or (trigger_bit info.trigger_mode * 2 ^ 15) (
        bit_or (polarity_bit info.polarity * 2 ^ 13) (
          bit_or (dest_bit info.dest_mode * 2 ^ 11)
            (bit_or (delivery_bits info.delivery_mode * 2 ^ 8) info.vector)))))

pub as_raw : MapInfo → Outcome ℕ
as_raw info = assert (leb 0x20 info.vector) >> assert (leb info.vector 0xFE) >> done (raw_bits info)

-- A write of a value to a register of the I/O APIC at an address.
pub record RegWrite : Type 0 where
  pub base : ℕ
  pub reg : ℕ
  pub value : ℕ

pub write_ioredtbl : ℕ → ℕ → ℕ → Outcome (List RegWrite)
write_ioredtbl base idx value =
    assert (ltb idx 24)
    >> done (
        record { base = base; reg = 0x10 + idx * 2; value = value % 2 ^ 32 }
        ∷ record { base = base; reg = 0x10 + idx * 2 + 1; value = value / 2 ^ 32 }
        ∷ [])

pub record IoApic : Type 0 where
  pub base : ℕ
  pub gsi_base : ℕ
  pub count : ℕ

pub record Override : Type 0 where
  pub bus_irq : ℕ
  pub gsi : ℕ
  pub trigger_mode : TriggerMode
  pub polarity : Polarity

-- `none` is the reserved value.
abbrev pub polarity_of : ℕ → Option Polarity
polarity_of zero = some Polarity.conforms_to_specs
polarity_of (suc zero) = some Polarity.active_high
polarity_of (suc (suc zero)) = none
polarity_of (suc (suc (suc n))) = some Polarity.active_low

abbrev pub trigger_of : ℕ → Option TriggerMode
trigger_of zero = some TriggerMode.conforms_to_specs
trigger_of (suc zero) = some TriggerMode.edge
trigger_of (suc (suc zero)) = none
trigger_of (suc (suc (suc n))) = some TriggerMode.level

pub src_overrides : List MadtInterruptSrcOverride → List Override
src_overrides [] = []
src_overrides (entry ∷ entries) =
    let rest = src_overrides entries in
    elim (polarity_of (entry.flags % 4)) [
      | none ↦ rest
      | some polarity ↦ elim (trigger_of (entry.flags / 4 % 4)) [
        | none ↦ rest
        | some trigger_mode ↦
            record {
              bus_irq = entry.irq_source;
              gsi = entry.gsi;
              trigger_mode = trigger_mode;
              polarity = polarity;
            }
            ∷ rest
      ]
    ]

-- The registers of the devices, by address and index, as they are read.
module _ (read_reg : ℕ → ℕ → ℕ) where
  abbrev pub max_redirection_table_entries : ℕ → ℕ
  max_redirection_table_entries base = read_reg base 1 / 2 ^ 16 % 2 ^ 8

  abbrev pub id : ℕ → ℕ
  id base = read_reg base 0 / 2 ^ 24 % 2 ^ 4

  pub io_apics : List MadtIoApic → Outcome (List IoApic)
  io_apics [] = done []
  io_apics (entry ∷ entries) =
      assert (id entry.address == entry.id)
      >> (io_apics entries >>= λ rest. done (
          record {
            base = entry.address;
            gsi_base = entry.gsi_base;
            count = max_redirection_table_entries entry.address;
          }
          ∷ rest))

pub find_override : List Override → ℕ → Option Override
find_override [] irq = none
find_override (over ∷ overrides) irq =
    if over.bus_irq == irq then some over else find_override overrides irq

pub any_override : (Override → Bool) → List Override → Bool
any_override test [] = false
any_override test (over ∷ overrides) = test over || any_override test overrides

pub record Gsi : Type 0 where
  pub gsi : ℕ
  pub trigger_mode : TriggerMode
  pub polarity : Polarity

-- `none` is the conflict that makes the interrupt inaccessible.
pub gsi_of : List Override → ℕ → Option Gsi
gsi_of overrides irq = elim (find_override overrides irq) [
  | some over ↦
      some (record { gsi = over.gsi; trigger_mode = over.trigger_mode; polarity = over.polarity })
  | none ↦
      if any_override (λ over. over.gsi == irq && not (over.bus_irq == irq)) overrides
        && not (any_override (λ over. over.bus_irq == irq) overrides)
      then none
      else some (record {
        gsi = irq;
        trigger_mode = TriggerMode.conforms_to_specs;
        polarity = Polarity.conforms_to_specs;
      })
]

-- The sum is a checked `u32`.
pub find_io_apic : List IoApic → ℕ → Outcome (Option IoApic)
find_io_apic [] gsi = done none
find_io_apic (ia ∷ ias) gsi =
    let rest = find_io_apic ias gsi in
    if leb ia.gsi_base gsi
    then (assert (ltb (ia.gsi_base + ia.count) (2 ^ 32))
        >> (if ltb gsi (ia.gsi_base + ia.count) then done (some ia) else rest))
    else rest

abbrev apic_polarity : Polarity → ApicPolarity
apic_polarity Polarity.active_high = ApicPolarity.active_high
apic_polarity Polarity.active_low = ApicPolarity.active_low
apic_polarity Polarity.conforms_to_specs = ApicPolarity.active_high

abbrev apic_trigger_mode : TriggerMode → ApicTriggerMode
apic_trigger_mode TriggerMode.edge = ApicTriggerMode.edge
apic_trigger_mode TriggerMode.level = ApicTriggerMode.level
apic_trigger_mode TriggerMode.conforms_to_specs = ApicTriggerMode.edge

abbrev pub map_info : ℕ → ℕ → Gsi → MapInfo
map_info bsp_lapic_id legacy_irq g = record {
  dest = bsp_lapic_id % 2 ^ 8;
  mask = false;
  trigger_mode = apic_trigger_mode g.trigger_mode;
  polarity = apic_polarity g.polarity;
  dest_mode = physical;
  delivery_mode = fixed;
  vector = 32 + legacy_irq;
}

-- One round of the loop over the legacy interrupts.
pub map_legacy : List IoApic → List Override → ℕ → ℕ → Outcome (List RegWrite)
map_legacy ias overrides bsp_lapic_id legacy_irq = elim (gsi_of overrides legacy_irq) [
  | none ↦ done []
  | some g ↦ find_io_apic ias g.gsi >>= λ found. elim found [
    | none ↦ done []
    | some ia ↦ as_raw (map_info bsp_lapic_id legacy_irq g) >>= λ raw.
        write_ioredtbl ia.base ((g.gsi - ia.gsi_base) % 2 ^ 8) raw
  ]
]

-- `for legacy_irq in 0..16`, from the interrupt that `left` rounds are left for.
pub map_all : List IoApic → List Override → ℕ → ℕ → Outcome (List RegWrite)
map_all ias overrides bsp_lapic_id zero = done []
map_all ias overrides bsp_lapic_id (suc left) =
    map_legacy ias overrides bsp_lapic_id (16 - suc left) >>= λ writes.
    map_all ias overrides bsp_lapic_id left >>= λ rest. done (writes ++ rest)

pub setup_io_apic :
    (ℕ → ℕ → ℕ) → ℕ → List MadtIoApic → List MadtInterruptSrcOverride → Outcome (List RegWrite)
setup_io_apic read_reg bsp_lapic_id madt_io_apics madt_src_overrides =
    io_apics read_reg madt_io_apics >>= λ ias.
    map_all ias (src_overrides madt_src_overrides) bsp_lapic_id 16
