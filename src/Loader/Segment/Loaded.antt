-- ===== src/Loader/Segment/Loaded.antt =====
-- A whole loadable segment.
use miniature.Base.{
  ℕ, ◌+◌, ◌-◌, ◌*◌, ◌/◌, ◌%◌, ◌≤◌, ◌<◌, ◌≡◌, refl, sym, ap, ◌∙◌, max, true, false, ◌⊎◌, inl, inr,
  Bool-cases, some, leb, leb→le, done, sub64, add64, add64-done, >>=-eq-done, done-injective, subst,
  arith,
}
use mathlib.Core.Bool.{true≢false}
use miniature.Loader.{Mapper, AddrSpace}
use miniature.Loader.Remap.{IsMapper, view, MarksOwn}
use miniature.Loader.Bytes.{sub64-sum}
use miniature.Loader.Segment.{ProgramHeader, seg_flags, map_file_pages, map_segment, load_segment}
use miniature.Loader.Segment.Fresh.{among}
use miniature.Loader.Segment.Pages.{KeepsOut, Shows, map_file_pages-Shows}
use miniature.Loader.Segment.Contents.{between, rounded, Zeros, clear_bss-Zeros}

-- The number of pages of a block.
abbrev pub page_count : ℕ → ℕ → ℕ
page_count start size = (start + size - 1) / 4096 + 1 - start / 4096

in_file :
    (va x size q offset : ℕ)
    → va % 4096 ≡ x % 4096
    → 1 ≤ size
    → offset < 4096
    → between va (va + size) (q * 4096 + offset) ≡ true
    → (among (va / 4096) (page_count x size) q ≡ true)
      × (x / 4096 + (q - va / 4096) ≡ (x + (q * 4096 + offset - va)) / 4096)
      × (offset ≡ (x + (q * 4096 + offset - va)) % 4096)
in_file va x size q offset al le lt h = (ground arith, ground arith, ground arith)

out_of_file :
    (va x size other q offset : ℕ)
    → va % 4096 ≡ x % 4096
    → 1 ≤ size
    → offset < 4096
    → (q * 4096 + offset < va / 4096 * 4096) ⊎ (rounded (va + max size other) ≤ q * 4096 + offset)
    → among (va / 4096) (page_count x size) q ≡ false
out_of_file va x size other q offset al le lt h = ground arith

before_zeros :
    (va size end a : ℕ)
    → between va (va + size) a ≡ true
    → between (va + size) (rounded end) a ≡ false
before_zeros va size end a h = ground arith

in_zeros : (from end a : ℕ) → between from end a ≡ true → between from (rounded end) a ≡ true
in_zeros from end a h = ground arith

out_of_zeros :
    (va size other a : ℕ)
    → size < other
    → (a < va / 4096 * 4096) ⊎ (rounded (va + max size other) ≤ a)
    → between (va + size) (rounded (va + other)) a ≡ false
out_of_zeros va size other a lt h = ground arith

no_zeros : (va size other a : ℕ) → other ≤ size → between (va + size) (va + other) a ≡ false
no_zeros va size other a le = ground arith

module _ {S : Type 0} (m : Mapper S) (law : IsMapper m) where
  -- The segment `ph` of a file at the physical address `x` of its first byte.
  pub record Loads (st : AddrSpace S) (x : ℕ) (ph : ProgramHeader) (st' : AddrSpace S)
      : Type 0 where
    pub marks : MarksOwn m st'
    pub contents :
        (q offset : ℕ)
        → offset < 4096
        → between ph.virtual_addr (ph.virtual_addr + ph.file_size) (q * 4096 + offset) ≡ true
        → view m st' q offset
          ≡ some (
              st.memory
                ((x + (q * 4096 + offset - ph.virtual_addr)) / 4096)
                ((x + (q * 4096 + offset - ph.virtual_addr)) % 4096))
    pub zeros :
        (q offset : ℕ)
        → offset < 4096
        → between
            (ph.virtual_addr + ph.file_size)
            (ph.virtual_addr + ph.mem_size)
            (q * 4096 + offset)
          ≡ true
        → view m st' q offset ≡ some 0
    pub others :
        (q offset : ℕ)
        → offset < 4096
        → (q * 4096 + offset < ph.virtual_addr / 4096 * 4096)
          ⊎ (rounded (ph.virtual_addr + max ph.file_size ph.mem_size) ≤ q * 4096 + offset)
        → view m st' q offset ≡ view m st q offset

  pub file_Loads :
      (st : AddrSpace S) (x : ℕ) (ph : ProgramHeader) (st₁ : AddrSpace S)
      → ph.virtual_addr % 4096 ≡ x % 4096
      → 1 ≤ ph.file_size
      → ph.mem_size ≤ ph.file_size
      → Shows m law st
          (ph.virtual_addr / 4096)
          (page_count x ph.file_size)
          (λ q offset. st.memory (x / 4096 + (q - ph.virtual_addr / 4096)) offset)
          st₁
      → Loads st x ph st₁
  file_Loads st x ph st₁ al le small (own, shows) = record {
    marks = own;
    contents = λ q offset lt h.
        let (here, frame, byte) = in_file ph.virtual_addr x ph.file_size q offset al le lt h in
        shows q offset
        ∙ rw here (ap some (ap (λ f. st.memory f offset) frame ∙ ap (st.memory _) byte));
    zeros = λ q offset lt h. absurd (
        true≢false
          (sym h ∙ no_zeros ph.virtual_addr ph.file_size ph.mem_size (q * 4096 + offset) small));
    others = λ q offset lt h.
        shows q offset
        ∙ rw (out_of_file ph.virtual_addr x ph.file_size ph.mem_size q offset al le lt h) refl;
  }

  pub bss_Loads :
      (st : AddrSpace S) (x : ℕ) (ph : ProgramHeader) (st₁ st' : AddrSpace S)
      → ph.virtual_addr % 4096 ≡ x % 4096
      → 1 ≤ ph.file_size
      → ph.file_size < ph.mem_size
      → Shows m law st
          (ph.virtual_addr / 4096)
          (page_count x ph.file_size)
          (λ q offset. st.memory (x / 4096 + (q - ph.virtual_addr / 4096)) offset)
          st₁
      → Zeros m law st₁
          (ph.virtual_addr + ph.file_size)
          (rounded (ph.virtual_addr + ph.mem_size))
          st'
      → Loads st x ph st'
  bss_Loads st x ph st₁ st' al le large (own, shows) (own', zero) = record {
    marks = own';
    contents = λ q offset lt h.
        let (here, frame, byte) = in_file ph.virtual_addr x ph.file_size q offset al le lt h in
        zero q offset lt
        ∙ rw
            (before_zeros ph.virtual_addr ph.file_size (ph.virtual_addr + ph.mem_size)
              (q * 4096 + offset) h)
            (shows q offset
              ∙ rw here (ap some (ap (λ f. st.memory f offset) frame ∙ ap (st.memory _) byte)));
    zeros = λ q offset lt h.
        zero q offset lt
        ∙ rw
            (in_zeros (ph.virtual_addr + ph.file_size) (ph.virtual_addr + ph.mem_size)
              (q * 4096 + offset) h)
            refl;
    others = λ q offset lt h.
        zero q offset lt
        ∙ rw (out_of_zeros ph.virtual_addr ph.file_size ph.mem_size (q * 4096 + offset) large h) (
            shows q offset
            ∙ rw (out_of_file ph.virtual_addr x ph.file_size ph.mem_size q offset al le lt h) refl);
  }

  map_segment-Loads :
      (align_up : ℕ → ℕ) (st : AddrSpace S) (x last file_end mem_end : ℕ) (ph : ProgramHeader)
      {st' : AddrSpace S}
      → ((a : ℕ) → align_up a ≡ rounded a)
      → ph.virtual_addr % 4096 ≡ x % 4096
      → 1 ≤ ph.file_size
      → KeepsOut m law (x / 4096) (page_count x ph.file_size)
      → MarksOwn m st
      → last ≡ x + ph.file_size - 1
      → file_end ≡ ph.virtual_addr + ph.file_size
      → mem_end ≡ ph.virtual_addr + ph.mem_size
      → map_segment m align_up st ph x last file_end mem_end ≡ done st'
      → Loads st x ph st'
  unfolding map_segment
  map_segment-Loads align_up st x last file_end mem_end ph {st'} up al le out own last_is file_is
        mem_is e =
      let f =
        rw
          (
            last_is,
            file_is,
            mem_is,
            law.containing_address x,
            law.containing_address (x + ph.file_size - 1),
            law.containing_address ph.virtual_addr,
          )
          at e in
      let (st₁, e₆, f₇) =
        >>=-eq-done
          (map_file_pages m st (ph.virtual_addr / 4096) (x / 4096) (seg_flags ph)
            (page_count x ph.file_size))
          _ f in
      let shows =
        map_file_pages-Shows m law st (ph.virtual_addr / 4096) (x / 4096)
          (page_count x ph.file_size) (seg_flags ph) refl out own e₆ in
      elim (Bool-cases (leb ph.mem_size ph.file_size)) [
        | inl small ↦
            subst (Loads st x ph) (done-injective (rw small at f₇))
              (file_Loads st x ph st₁ al le (leb→le ph.mem_size ph.file_size small) shows)
        | inr large ↦
            bss_Loads st x ph st₁ st' al le (not_le ph.mem_size ph.file_size large) shows (
              clear_bss-Zeros m law align_up st₁ (ph.virtual_addr + ph.file_size)
                (ph.virtual_addr + ph.mem_size) (seg_flags ph) up refl
                (above ph.virtual_addr ph.file_size ph.mem_size large) shows.0 (rw large at f₇))
      ]
    where
      not_le : (a b : ℕ) → leb a b ≡ false → b < a
      not_le a b h = ground arith

      above : (c b a : ℕ) → leb a b ≡ false → c + b < c + a
      above c b a h = ground arith

  -- A segment whose address in memory and in the file agree in the page offset, and that has bytes in
  -- the file, from frames that the allocator does not answer; when the call returns: its addresses
  -- show the bytes of the file, then zeros up to its size in memory, and the pages before and after it show what they did.
  pub load_segment-Loads :
      (align_up : ℕ → ℕ) (st : AddrSpace S) (elf_bytes : ℕ) (ph : ProgramHeader) {st' : AddrSpace S}
      → ((a : ℕ) → align_up a ≡ rounded a)
      → ph.virtual_addr % 4096 ≡ (elf_bytes + ph.offset) % 4096
      → 1 ≤ ph.file_size
      → KeepsOut m law
          ((elf_bytes + ph.offset) / 4096)
          (page_count (elf_bytes + ph.offset) ph.file_size)
      → MarksOwn m st
      → load_segment m align_up st elf_bytes ph ≡ done st'
      → Loads st (elf_bytes + ph.offset) ph st'
  unfolding load_segment
  load_segment-Loads align_up st elf_bytes ph {st'} up al le out own e =
      let (start, e₁, f₁) = >>=-eq-done (add64 elf_bytes ph.offset) _ e in
      let (mem_end, e₂, f₂) = >>=-eq-done (add64 ph.virtual_addr ph.mem_size) _ f₁ in
      let (file_end, e₃, f₃) = >>=-eq-done (add64 ph.virtual_addr ph.file_size) _ f₂ in
      let (bytes_end, e₄, f₄) = >>=-eq-done (add64 start ph.file_size) _ f₃ in
      let (last, e₅, f₅) = >>=-eq-done (sub64 bytes_end 1) _ f₄ in
      let start_is = (add64-done elf_bytes ph.offset e₁).0 in
      map_segment-Loads align_up st (elf_bytes + ph.offset) last file_end mem_end ph up al le out
        own
        (last_byte bytes_end start (elf_bytes + ph.offset) ph.file_size last
          (add64-done start ph.file_size e₄).0 start_is (sub64-sum bytes_end 1 e₅))
        (add64-done ph.virtual_addr ph.file_size e₃).0 (add64-done ph.virtual_addr ph.mem_size e₂).0
        (subst (λ x. map_segment m align_up st ph x last file_end mem_end ≡ done st') start_is f₅)
    where
      last_byte :
          (end start x size last : ℕ)
          → end ≡ start + size
          → start ≡ x
          → last + 1 ≡ end
          → last ≡ x + size - 1
      last_byte end start x size last e f g = omega arith
