-- ===== src/UserSpace.antt =====
-- kernel/src/mem/user_addr_space.rs: how a buffer of a user's address space is found in physical
-- memory. The page table is code of the x86_64 crate.
pub mod Resolve
pub mod Alloc
pub mod Create
mod Examples
use miniature.Base.{
  ℕ, zero, suc, ◌+◌, ◌-◌, ◌%◌, ◌≤◌, ◌<◌, ◌≡◌, Bool, true, false, List, [], ◌∷◌, ◌++◌, Option, none,
  some, ltb, leb, if◌then◌else◌, Outcome, done, spins, ◌>>=◌, add64, sub64, word,
}

abbrev pub page_size : ℕ
page_size = 4096

-- The operations of the crate that are used: `VirtAddr::new`, `Page::containing_address`, `page + 1`
-- and `Mapper::translate_page`. A page and a frame are their start addresses.
pub record PageTable : Type 0 where
  pub virt_addr : ℕ → Outcome ℕ
  pub containing_address : ℕ → ℕ
  pub following : ℕ → Outcome ℕ
  pub translate_page : ℕ → Option ℕ

-- What the crate documents of them, for the addresses below a limit.
pub record IsLawful (pt : PageTable) (limit : ℕ) : Type 0 where
  pub valid : (v : ℕ) → v < limit → pt.virt_addr v ≡ done v
  pub down : (v : ℕ) → pt.containing_address v ≤ v
  pub near : (v : ℕ) → v < pt.containing_address v + page_size
  pub follows :
      (v : ℕ)
      → v < limit
      → pt.following (pt.containing_address v) ≡ done (pt.containing_address v + page_size)
  pub framed : (p f : ℕ) → pt.translate_page p ≡ some f → f + page_size ≤ word

-- `UserBuffer` of kernel/src/mem/user_buffer.rs.
pub record UserBuffer : Type 0 where
  pub base : ℕ
  pub len : ℕ

-- A slice of physical memory: its address and its length.
pub record Slice : Type 0 where
  pub base : ℕ
  pub len : ℕ

abbrev pub efault : ℕ
efault = 14

-- `KResult<Vec<&[u8]>>`
pub data KResult : Type 0 where
  ok : List Slice → KResult
  err : ℕ → KResult

module _ (pt : PageTable) where
  -- The address in the frame of an address in its page, or `none` where the page is not mapped.
  abbrev pub phys_addr : ℕ → Outcome (Option ℕ)
  phys_addr virt_addr =
      let page = pt.containing_address virt_addr in
      elim (pt.translate_page page) [
        | none ↦ done none
        | some frame ↦ sub64 virt_addr page >>= λ offset. add64 frame offset >>= λ a. done (some a)
      ]

  -- `while resolved_len < buffer.len()`; every round resolves at least one byte. A pointer is moved
  -- modulo the word size.
  pub resolve_pages : ℕ → UserBuffer → ℕ → List Slice → Outcome KResult
  resolve_pages zero buffer resolved_len result = spins
  resolve_pages (suc fuel) buffer resolved_len result = elim (ltb resolved_len buffer.len) [
    | false ↦ done (ok result)
    | true ↦ pt.virt_addr ((buffer.base + resolved_len) % word) >>= λ virt_addr.
        phys_addr virt_addr >>= λ translated. elim translated [
          | none ↦ done (err efault)
          | some a ↦ pt.following (pt.containing_address virt_addr) >>= λ next_page.
              sub64 next_page virt_addr >>= λ len_till_page_end.
              let remain_bytes_len = buffer.len - resolved_len in
              let len =
                (if ltb len_till_page_end remain_bytes_len
                  then len_till_page_end
                  else remain_bytes_len) in
              resolve_pages fuel buffer (resolved_len + len)
                (result ++ record { base = a; len = len } ∷ [])
        ]
  ]

  pub resolve : UserBuffer → Outcome KResult
  resolve buffer =
      if leb buffer.len 512
      then (pt.virt_addr buffer.base >>= λ virt_addr. phys_addr virt_addr >>= λ translated.
          elim translated [
            | none ↦ done (err efault)
            | some a ↦ done (ok (record { base = a; len = buffer.len } ∷ []))
          ])
      else resolve_pages (suc buffer.len) buffer 0 []
