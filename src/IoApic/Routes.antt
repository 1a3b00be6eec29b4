-- ===== src/IoApic/Routes.antt =====
-- How the legacy interrupts are spread over the inputs of the I/O APICs.
use mathlib.Core.Bool.{false≢true}
use miniature.Base.{
  ℕ, zero, suc, ◌+◌, ◌-◌, ◌*◌, ◌%◌, ◌^◌, ◌/◌, ◌≤◌, ◌<◌, ◌≡◌, ◌≢◌, refl, sym, ap, ◌∙◌, subst, inl,
  inr, Bool, true, false, not, ◌&&◌, ◌||◌, Bool-cases, Option-cases, List, [], ◌∷◌, ◌++◌, Option,
  none, some, ltb, leb, ◌==◌, ==_iff, ltb→lt, lt→ltb, leb→le, done, All, arith,
}
use miniature.IoApic.{
  IoApic, Override, Gsi, raw_bits, RegWrite, as_raw, map_info, write_ioredtbl, find_override,
  any_override, gsi_of, find_io_apic, map_legacy, map_all,
}

some-injective {ℓ} : {A : Type ℓ} {a b : A} → some a ≡ some b → a ≡ b
some-injective e = cc

-- The test of the conflict, on an override that is in the list.
any_override-holds :
    (test : Override → Bool) (overrides : List Override) (irq : ℕ) (over : Override)
    → find_override overrides irq ≡ some over
    → test over ≡ true
    → any_override test overrides ≡ true
unfolding find_override any_override
any_override-holds test [] irq over f h = cc
any_override-holds test (o ∷ os) irq over f h = elim (Bool-cases (o.bus_irq == irq)) [
  | inl here ↦
      rw
        (
          any_override,
          subst (λ x. test x ≡ true) (sym (some-injective (rw (find_override, here) at f))) h,
        )
        refl
  | inr later ↦
      rw (any_override, any_override-holds test os irq over (rw (find_override, later) at f) h)
        (or_true (test o))
]
  where
    or_true : (b : Bool) → b || true ≡ true
    or_true true = refl
    or_true false = refl

find_override-bus_irq :
    (overrides : List Override) (irq : ℕ) {over : Override}
    → find_override overrides irq ≡ some over
    → over.bus_irq ≡ irq
unfolding find_override
find_override-bus_irq [] irq f = cc
find_override-bus_irq (o ∷ os) irq f = elim (Bool-cases (o.bus_irq == irq)) [
  | inl here ↦
      subst (λ x. x.bus_irq ≡ irq) (some-injective (rw (find_override, here) at f))
        ((==_iff o.bus_irq irq).0 here)
  | inr later ↦ find_override-bus_irq os irq (rw (find_override, later) at f)
]

any_override-absent :
    (overrides : List Override) (irq : ℕ)
    → find_override overrides irq ≡ none
    → any_override (λ over. over.bus_irq == irq) overrides ≡ false
unfolding find_override any_override
any_override-absent [] irq f = refl
any_override-absent (o ∷ os) irq f = elim (Bool-cases (o.bus_irq == irq)) [
  | inl here ↦ cc (rw (find_override, here) at f)
  | inr later ↦
      rw (any_override, later) (any_override-absent os irq (rw (find_override, later) at f))
]

-- The input of an interrupt without an override, and that no override of another one claims it.
free_gsi :
    (overrides : List Override) (irq : ℕ) {g : Gsi}
    → find_override overrides irq ≡ none
    → gsi_of overrides irq ≡ some g
    → (g.gsi ≡ irq)
      × (any_override (λ over. over.gsi == irq && not (over.bus_irq == irq)) overrides ≡ false)
unfolding gsi_of
free_gsi overrides irq f e =
    elim (Bool-cases
      (any_override (λ over. over.gsi == irq && not (over.bus_irq == irq)) overrides)) [
        | inl conflict ↦ cc (rw (gsi_of, f, conflict, any_override-absent overrides irq f) at e)
        | inr clear ↦ (ap Gsi.gsi (some-injective (sym (rw (gsi_of, f, clear) at e))), clear)
      ]

claimed_gsi :
    (overrides : List Override) (irq : ℕ) {over : Override} {g : Gsi}
    → find_override overrides irq ≡ some over
    → gsi_of overrides irq ≡ some g
    → over.gsi ≡ g.gsi
unfolding gsi_of
claimed_gsi overrides irq f e = ap Gsi.gsi (some-injective (rw (gsi_of, f) at e))

-- An interrupt with an override is never on the input of one without.
claimed-free :
    (overrides : List Override) (i j : ℕ) {over : Override} {g h : Gsi}
    → i ≢ j
    → find_override overrides i ≡ some over
    → find_override overrides j ≡ none
    → gsi_of overrides i ≡ some g
    → gsi_of overrides j ≡ some h
    → g.gsi ≢ h.gsi
claimed-free overrides i j {over} {g} {h} ne f k e l q =
    let (at, clear) = free_gsi overrides j k l in
    let claims : over.gsi ≡ j = claimed_gsi overrides i f e ∙ q ∙ at in
    let bus = find_override-bus_irq overrides i f in
    false≢true (
      sym clear
      ∙ any_override-holds (λ o. o.gsi == j && not (o.bus_irq == j)) overrides i over f
          (passes over.gsi over.bus_irq i j claims bus ne))
  where
    passes : (gsi bus i j : ℕ) → gsi ≡ j → bus ≡ i → i ≢ j → (gsi == j) && not (bus == j) ≡ true
    passes gsi bus i j p q ne = ground arith

-- Two legacy interrupts take the same input only if overrides of both say so.
pub gsi_of-apart :
    (overrides : List Override) (i j : ℕ) {g h : Gsi}
    → i ≢ j
    → gsi_of overrides i ≡ some g
    → gsi_of overrides j ≡ some h
    → g.gsi ≡ h.gsi
    → (find_override overrides i ≢ none) × (find_override overrides j ≢ none)
gsi_of-apart overrides i j ne e l q = elim (Option-cases (find_override overrides i)) [
  | inl a ↦ elim (Option-cases (find_override overrides j)) [
    | inl b ↦ absurd (ne (sym (free_gsi overrides i a e).0 ∙ q ∙ (free_gsi overrides j b l).0))
    | inr (over, b) ↦ absurd (claimed-free overrides j i (λ r. ne (sym r)) b a l e (sym q))
  ]
  | inr (over, a) ↦ elim (Option-cases (find_override overrides j)) [
    | inl b ↦ absurd (claimed-free overrides i j ne a b e l q)
    | inr (over', b) ↦ ((λ z. cc), (λ z. cc))
  ]
]

-- An I/O APIC with at most the 24 inputs that the writes allow for, below the last interrupt number.
abbrev pub IsSmall : IoApic → Type 0
IsSmall ia = (ia.count ≤ 24) × (ia.gsi_base + ia.count < 2 ^ 32)

-- The I/O APIC has the input.
abbrev pub HasInput : ℕ → IoApic → Type 0
HasInput gsi ia = (ia.gsi_base ≤ gsi) × (gsi < ia.gsi_base + ia.count)

-- What the search answers: the first I/O APIC of the list that has the input, and none only if none
-- has it.
abbrev pub Serves : List IoApic → ℕ → Option IoApic → Type 0
Serves ias gsi none = All (λ ia. ¬ HasInput gsi ia) ias
Serves ias gsi (some ia) =
    (before : List IoApic) × (after : List IoApic) × (ias ≡ before ++ ia ∷ after)
    × All (λ other. ¬ HasInput gsi other) before
    × HasInput gsi ia
    × (ia.count ≤ 24)

Serves-cons :
    (ia : IoApic) (ias : List IoApic) (gsi : ℕ) (found : Option IoApic)
    → ¬ HasInput gsi ia
    → Serves ias gsi found
    → Serves (ia ∷ ias) gsi found
Serves-cons ia ias gsi none not_here s = (not_here, s)
Serves-cons ia ias gsi (some other) not_here (before, after, e, none_before, has, small) =
    (ia ∷ before, after, ap (λ xs. ia ∷ xs) e, (not_here, none_before), has, small)

le→leb : (a b : ℕ) → a ≤ b → leb a b ≡ true
le→leb a b h = ground arith

find_io_apic-Serves :
    (ias : List IoApic) (gsi : ℕ)
    → All IsSmall ias
    → (found : Option IoApic) × (find_io_apic ias gsi ≡ done found) × Serves ias gsi found
unfolding find_io_apic
find_io_apic-Serves [] gsi s = (none, refl, tt)
find_io_apic-Serves (ia ∷ ias) gsi (s, ss) =
    let (found, e, serves) = find_io_apic-Serves ias gsi ss in
    elim (Bool-cases (leb ia.gsi_base gsi)) [
      | inr below ↦ (
        found,
        rw (find_io_apic, below) e,
        Serves-cons ia ias gsi found (λ h. false≢true (sym below ∙ le→leb ia.gsi_base gsi h.0))
            serves,
      )
      | inl from ↦ elim (Bool-cases (ltb gsi (ia.gsi_base + ia.count))) [
        | inr above ↦ (
          found,
          rw (find_io_apic, from, lt→ltb (ia.gsi_base + ia.count) (2 ^ 32) s.1, above) e,
          Serves-cons ia ias gsi found
              (λ h. false≢true (sym above ∙ lt→ltb gsi (ia.gsi_base + ia.count) h.1)) serves,
        )
        | inl to ↦ (
          some ia,
          rw (find_io_apic, from, lt→ltb (ia.gsi_base + ia.count) (2 ^ 32) s.1, to),
          (
            [],
            ias,
            refl,
            tt,
            (leb→le ia.gsi_base gsi from, ltb→lt gsi (ia.gsi_base + ia.count) to),
            s.0,
          ),
        )
      ]
    ]

as_raw_done :
    (bsp irq : ℕ) (g : Gsi) → irq < 16 → (raw : ℕ) × (as_raw (map_info bsp irq g) ≡ done raw)
unfolding as_raw
as_raw_done bsp irq g h = (raw_bits (map_info bsp irq g), rw (as_raw, low irq, high irq h) refl)
  where
    low : (irq : ℕ) → leb 0x20 (32 + irq) ≡ true
    low irq = ground arith

    high : (irq : ℕ) → irq < 16 → leb (32 + irq) 0xFE ≡ true
    high irq h = ground arith

-- The two halves of an entry of the redirection table.
abbrev pub entry : IoApic → ℕ → ℕ → List RegWrite
entry ia gsi raw =
    record { base = ia.base; reg = 0x10 + (gsi - ia.gsi_base) * 2; value = raw % 2 ^ 32 }
    ∷ record { base = ia.base; reg = 0x10 + (gsi - ia.gsi_base) * 2 + 1; value = raw / 2 ^ 32 }
    ∷ []

-- What is written for an interrupt: nothing exactly if its input is shut out or no I/O APIC of the
-- list has it, else the entry of its input in the first I/O APIC that has it.
abbrev pub Written : ℕ → ℕ → Gsi → Option IoApic → List RegWrite → Type 0
Written bsp irq g none ws = ws ≡ []
Written bsp irq g (some ia) ws =
    (raw : ℕ) × (as_raw (map_info bsp irq g) ≡ done raw) × (ws ≡ entry ia g.gsi raw)

abbrev pub MapsTo : List IoApic → ℕ → ℕ → Option Gsi → List RegWrite → Type 0
MapsTo ias bsp irq none ws = ws ≡ []
MapsTo ias bsp irq (some g) ws =
    (found : Option IoApic) × Serves ias g.gsi found × Written bsp irq g found ws

abbrev pub Maps : List IoApic → List Override → ℕ → ℕ → List RegWrite → Type 0
Maps ias overrides bsp irq ws = MapsTo ias bsp irq (gsi_of overrides irq) ws

write_ioredtbl_done :
    (ia : IoApic) (gsi raw : ℕ)
    → HasInput gsi ia
    → ia.count ≤ 24
    → write_ioredtbl ia.base ((gsi - ia.gsi_base) % 2 ^ 8) raw ≡ done (entry ia gsi raw)
unfolding write_ioredtbl
write_ioredtbl_done ia gsi raw has small =
    let idx : (gsi - ia.gsi_base) % 2 ^ 8 ≡ gsi - ia.gsi_base = omega (arith, has) in
    rw (write_ioredtbl, idx, lt→ltb (gsi - ia.gsi_base) 24 (omega (arith, has))) refl

-- One round of the loop returns, and writes the entry of the interrupt's input.
pub map_legacy-Maps :
    (ias : List IoApic) (overrides : List Override) (bsp irq : ℕ)
    → All IsSmall ias
    → irq < 16
    → (ws : List RegWrite) × (map_legacy ias overrides bsp irq ≡ done ws)
      × Maps ias overrides bsp irq ws
unfolding map_legacy
map_legacy-Maps ias overrides bsp irq s h = elim (Option-cases (gsi_of overrides irq)) [
  | inl conflict ↦
      ([], rw (map_legacy, conflict), subst (λ g. MapsTo ias bsp irq g []) (sym conflict) refl)
  | inr (g, e) ↦
      let (found, f, serves) = find_io_apic-Serves ias g.gsi s in
      let (ws, w, written) = routed g found e f serves in
      (ws, w, subst (λ g. MapsTo ias bsp irq g ws) (sym e) (found, serves, written))
]
  where
    routed :
        (g : Gsi) (found : Option IoApic)
        → gsi_of overrides irq ≡ some g
        → find_io_apic ias g.gsi ≡ done found
        → Serves ias g.gsi found
        → (ws : List RegWrite) × (map_legacy ias overrides bsp irq ≡ done ws)
          × Written bsp irq g found ws
    routed g none e f serves = ([], rw (map_legacy, e, f), refl)
    routed g (some ia) e f (before, after, split, others, has, small) =
        let (raw, r) = as_raw_done bsp irq g h in
        (
          entry ia g.gsi raw,
          rw (map_legacy, e, f, r) (write_ioredtbl_done ia g.gsi raw has small),
          (raw, r, refl),
        )

-- What the rounds from `irq` on write, one after the other.
abbrev pub MapsFrom : List IoApic → List Override → ℕ → ℕ → ℕ → List RegWrite → Type 0
MapsFrom ias overrides bsp zero irq ws = ws ≡ []
MapsFrom ias overrides bsp (suc left) irq ws =
    (first : List RegWrite) × (rest : List RegWrite) × Maps ias overrides bsp irq first
    × MapsFrom ias overrides bsp left (irq + 1) rest
    × (ws ≡ first ++ rest)

map_all_next :
    (ias : List IoApic) (overrides : List Override) (bsp left irq : ℕ) {first rest : List RegWrite}
    → 16 - suc left ≡ irq
    → map_legacy ias overrides bsp irq ≡ done first
    → map_all ias overrides bsp left ≡ done rest
    → map_all ias overrides bsp (suc left) ≡ done (first ++ rest)
unfolding map_all
map_all_next ias overrides bsp left irq at e f = rw (map_all, at, e, f) refl

-- For I/O APICs with at most 24 inputs below the last interrupt number and any overrides, the loop
-- over the legacy interrupts fails no assertion. For each interrupt in order it writes the entry of
-- its input in the first I/O APIC of the list that has this input; it writes nothing if the
-- overrides shut the interrupt out or no I/O APIC has the input, and only then.
pub map_all-MapsFrom :
    (ias : List IoApic) (overrides : List Override) (bsp left irq : ℕ)
    → All IsSmall ias
    → irq + left ≡ 16
    → (ws : List RegWrite) × (map_all ias overrides bsp left ≡ done ws)
      × MapsFrom ias overrides bsp left irq ws
unfolding map_all
map_all-MapsFrom ias overrides bsp zero irq s h = ([], refl, refl)
map_all-MapsFrom ias overrides bsp (suc left) irq s h =
    let at : 16 - suc left ≡ irq = omega arith in
    let (first, e, m) = map_legacy-Maps ias overrides bsp irq s (omega arith) in
    let (rest, f, ms) = map_all-MapsFrom ias overrides bsp left (irq + 1) s (omega arith) in
    (first ++ rest, map_all_next ias overrides bsp left irq at e f, (first, rest, m, ms, refl))
