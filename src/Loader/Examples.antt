-- ===== src/Loader/Examples.antt =====
-- A page table as a list of entries, and an allocator above the highest frame in use.
use miniature.Base.{
  ℕ, ◌+◌, ◌*◌, ◌/◌, max, ◌≤◌, ◌<◌, ◌≡◌, ◌≢◌, refl, sym, ap, ◌∙◌, subst, true, false, inl, inr,
  Bool-cases, List, [], ◌∷◌, some, ◌==◌, ==_iff, if◌then◌else◌, done, arith,
}
use mathlib.Core.Option.{some-injective}
use mathlib.Core.Bool.{true≢false}
use miniature.Loader.{
  PtFlags, TranslateResult, mapped, mapped_large, not_mapped, Mapper, AddrSpace, raw_map_to,
  raw_unmap, remap_copied, copy_page_and_remap, page_span, write_page, write_pages,
  copy_pages_and_write,
}
use miniature.Loader.Remap.{IsMapper, MarksOwn, view, ==_self, ==_ne}
use miniature.Loader.Bytes.{written}
use miniature.Loader.Write.{copy_pages_and_write-written}
use miniature.Loader.Segment.{
  load, ProgramHeader, map_new, map_file_pages, map_bss_pages, clear_file_end, clear_bss,
  map_segment, load_segment,
}
use miniature.Loader.Segment.Contents.{rounded}
use miniature.Loader.Segment.Pages.{KeepsOut}
use miniature.Loader.Segment.Loaded.{Loads, load_segment-Loads}

pub record Entry : Type 0 where
  pub page : ℕ
  pub frame : ℕ
  pub flags : PtFlags

abbrev pub lookup : List Entry → ℕ → TranslateResult
lookup [] p = not_mapped
lookup (e ∷ es) p = if e.page == p then mapped e.frame e.flags else lookup es p

abbrev pub without_page : ℕ → List Entry → List Entry
without_page p [] = []
without_page p (e ∷ es) = if e.page == p then without_page p es else e ∷ without_page p es

abbrev pub with_flags : ℕ → PtFlags → List Entry → List Entry
with_flags p fl [] = []
with_flags p fl (e ∷ es) = (if e.page == p then record e { flags = fl } else e) ∷ with_flags p fl es

-- Above all frames, and above the frames of the file.
abbrev pub next_frame : List Entry → ℕ
next_frame [] = 100
next_frame (e ∷ es) = max (e.frame + 1) (next_frame es)

abbrev pub mapper : Mapper (List Entry)
mapper = record {
  containing_address = λ a. a / 4096;
  forward_checked = λ a n. some (a + n);
  translate = lookup;
  map_to = λ es p f fl. some (record { page = p; frame = f; flags = fl } ∷ es);
  unmap = λ es p. some (without_page p es);
  update_flags = λ es p fl. some (with_flags p fl es);
  frame_alloc = λ es. (some (next_frame es), es);
}

lookup-without_page :
    (p q : ℕ) (es : List Entry) → q ≢ p → lookup (without_page p es) q ≡ lookup es q
lookup-without_page p q [] ne = refl
lookup-without_page p q (e ∷ es) ne = elim (Bool-cases (e.page == p)) [
  | inl here ↦
      let other : (e.page == q) ≡ false =
        ==_ne e.page q (λ same. ne (sym same ∙ (==_iff e.page p).0 here)) in
      rw (here, other) (lookup-without_page p q es ne)
  | inr away ↦
      rw away (
        ap (λ t. if e.page == q then mapped e.frame e.flags else t) (lookup-without_page p q es ne))
]

lookup-with_flags_ne :
    (p q : ℕ) (fl : PtFlags) (es : List Entry) → q ≢ p → lookup (with_flags p fl es) q ≡ lookup es q
lookup-with_flags_ne p q fl [] ne = refl
lookup-with_flags_ne p q fl (e ∷ es) ne = elim (Bool-cases (e.page == p)) [
  | inl here ↦
      let other : (e.page == q) ≡ false =
        ==_ne e.page q (λ same. ne (sym same ∙ (==_iff e.page p).0 here)) in
      rw (here, other) (lookup-with_flags_ne p q fl es ne)
  | inr away ↦ rw away (
      ap (λ t. if e.page == q then mapped e.frame e.flags else t)
        (lookup-with_flags_ne p q fl es ne))
]

lookup-with_flags :
    (p f : ℕ) (fl fl' : PtFlags) (es : List Entry)
    → lookup es p ≡ mapped f fl
    → lookup (with_flags p fl' es) p ≡ mapped f fl'
lookup-with_flags p f fl fl' [] h = cc
lookup-with_flags p f fl fl' (e ∷ es) h = elim (Bool-cases (e.page == p)) [
  | inl here ↦
      let is = rw here at h in
      let same : e.frame ≡ f = cc in rw (here, here) (ap (λ f. mapped f fl') same)
  | inr away ↦ rw (away, away) (lookup-with_flags p f fl fl' es (rw away at h))
]

below_next :
    (p g : ℕ) (fl : PtFlags) (es : List Entry) → lookup es p ≡ mapped g fl → g < next_frame es
below_next p g fl [] h = cc
below_next p g fl (e ∷ es) h = elim (Bool-cases (e.page == p)) [
  | inl here ↦ let is = rw here at h in let same : e.frame ≡ g = cc in omega arith
  | inr away ↦ omega (arith, below_next p g fl es (rw away at h))
]

pub next_high : (es : List Entry) → 100 ≤ next_frame es
next_high [] = omega arith
next_high (e ∷ es) = omega (arith, next_high es)

lookup-small : (es : List Entry) (p : ℕ) (fl : PtFlags) → lookup es p ≢ mapped_large fl
lookup-small [] p fl h = cc
lookup-small (e ∷ es) p fl h = elim (Bool-cases (e.page == p)) [
  | inl here ↦ let is = rw here at h in cc
  | inr away ↦ lookup-small es p fl (rw away at h)
]

pub mapper-IsMapper : IsMapper mapper
mapper-IsMapper = record {
  containing_address = λ a. refl;
  forward = λ a n e h. sym (some-injective (a + n) e h);
  map-same = λ s s' p f fl h.
      subst (λ s. lookup s p ≡ mapped f fl) (some-injective _ s' h) (rw (==_self p) refl);
  map-other = λ s s' p q f fl h ne.
      subst (λ s'. lookup s' q ≡ lookup s q) (some-injective _ s' h)
        (rw (==_ne p q (λ same. ne (sym same))) refl);
  unmap-other = λ s s' p q h ne.
      subst (λ s'. lookup s' q ≡ lookup s q) (some-injective _ s' h) (lookup-without_page p q s ne);
  update-same = λ s s' p f fl fl' h at.
      subst (λ s'. lookup s' p ≡ mapped f fl') (some-injective _ s' h)
        (lookup-with_flags p f fl fl' s at);
  update-large = λ s p fl fl' at. absurd (lookup-small s p fl at);
  update-other = λ s s' p q fl' h ne.
      subst (λ s'. lookup s' q ≡ lookup s q) (some-injective _ s' h)
        (lookup-with_flags_ne p q fl' s ne);
  alloc-keeps = λ s q. refl;
  alloc-new = λ s p f g fl h at. fresh s p f g fl (some-injective (next_frame s) f h) at;
}
  where
    fresh :
        (s : List Entry) (p f g : ℕ) (fl : PtFlags)
        → next_frame s ≡ f
        → lookup s p ≡ mapped g fl
        → g ≢ f
    fresh s p f g fl e at same = absurd (omega (arith, below_next p g fl s at, e, same))

abbrev plain : PtFlags
plain = record {
  present = true;
  writable = true;
  user_accessible = true;
  no_execute = true;
  bit_9 = false;
  rest = 0;
}

abbrev pub IsPlain : List Entry → Type 0
IsPlain [] = Unit
IsPlain (e ∷ es) = (e.flags.bit_9 ≡ false) × IsPlain es

lookup-plain :
    (es : List Entry) (p f : ℕ) (fl : PtFlags)
    → IsPlain es
    → lookup es p ≡ mapped f fl
    → fl.bit_9 ≡ false
lookup-plain [] p f fl h at = cc
lookup-plain (e ∷ es) p f fl h at = elim (Bool-cases (e.page == p)) [
  | inl here ↦
      let is = rw here at at in let same : e.flags ≡ fl = cc in ap PtFlags.bit_9 (sym same) ∙ h.0
  | inr away ↦ lookup-plain es p f fl h.1 (rw away at at)
]

pub plain-MarksOwn :
    (es : List Entry) (memory : ℕ → ℕ → ℕ) (tracked : List ℕ)
    → IsPlain es
    → MarksOwn mapper (record { page_table = es; memory = memory; tracked_large_buffers = tracked })
plain-MarksOwn es memory tracked h p f fl at b q g fl' ne at' =
    absurd (true≢false (sym b ∙ lookup-plain es p f fl h at))

-- Two pages on one frame of the file, and one on the next.
abbrev shared : AddrSpace (List Entry)
shared = record {
  page_table =
      record { page = 5; frame = 16; flags = plain }
      ∷ record { page = 6; frame = 16; flags = plain }
      ∷ record { page = 7; frame = 17; flags = plain }
      ∷ [];
  memory = λ frame offset. frame;
  tracked_large_buffers = [];
}

shared-MarksOwn : MarksOwn mapper shared
shared-MarksOwn = plain-MarksOwn shared.page_table shared.memory [] (refl, (refl, (refl, tt)))

-- The last byte of a page and the first two of the next one.
write_run :
    (st : AddrSpace (List Entry)) × (copy_pages_and_write mapper shared 0x6fff (1 ∷ 2 ∷ 3 ∷ [])
      ≡ done st)
unfolding copy_pages_and_write write_pages write_page page_span copy_page_and_remap remap_copied
    raw_unmap raw_map_to
write_run = (_, refl)

copy_pages_and_write-written_example :
    MarksOwn mapper write_run.0
    × ((q offset : ℕ)
        → offset < 4096
        → view mapper write_run.0 q offset
          ≡ written 0x6fff (1 ∷ 2 ∷ 3 ∷ []) (q * 4096 + offset) (view mapper shared q offset))
copy_pages_and_write-written_example =
    copy_pages_and_write-written mapper mapper-IsMapper shared 0x6fff (1 ∷ 2 ∷ 3 ∷ [])
      shared-MarksOwn write_run.1

-- A segment that starts inside of a page, ends inside of the next, and has zeros over one more.
abbrev segment : ProgramHeader
segment = record {
  ty = load;
  offset = 0x800;
  virtual_addr = 0x400800;
  file_size = 0x1000;
  mem_size = 0x2000;
  is_execute = false;
  is_write = true;
}

abbrev pub empty : AddrSpace (List Entry)
empty = record { page_table = []; memory = λ frame offset. frame; tracked_large_buffers = [] }

segment_run :
    (st : AddrSpace (List Entry)) × (load_segment mapper rounded empty 0x10000 segment ≡ done st)
unfolding load_segment map_segment map_file_pages map_new clear_bss clear_file_end map_bss_pages
    copy_page_and_remap remap_copied raw_unmap raw_map_to
segment_run = (_, refl)

keeps_out : KeepsOut mapper mapper-IsMapper 16 2
keeps_out s f h = inr (above s f (some-injective (next_frame s) f h))
  where
    above : (s : List Entry) (f : ℕ) → next_frame s ≡ f → 18 ≤ f
    above s f e = omega (arith, next_high s)

load_segment-Loads_example : Loads mapper mapper-IsMapper empty 0x10800 segment segment_run.0
load_segment-Loads_example =
    load_segment-Loads mapper mapper-IsMapper rounded empty 0x10000 segment (λ a. refl) refl
      (omega arith) keeps_out (plain-MarksOwn [] empty.memory [] tt) segment_run.1
