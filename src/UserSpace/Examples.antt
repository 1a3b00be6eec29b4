-- ===== src/UserSpace/Examples.antt =====
-- Two pages of an address space, whose frames are far apart.
use miniature.Base.{
  ℕ, ◌+◌, ◌*◌, ◌/◌, ◌≤◌, ◌≡◌, refl, [], ◌∷◌, none, some, ◌==◌, if◌then◌else◌, done, arith, word,
}
use miniature.UserSpace.{PageTable, IsLawful, UserBuffer, KResult, resolve, resolve_pages}
use miniature.UserSpace.Resolve.{Resolves, resolve-Resolves}

abbrev page_table : PageTable
page_table = record {
  virt_addr = λ v. done v;
  containing_address = λ v. v / 4096 * 4096;
  following = λ p. done (p + 4096);
  translate_page =
      λ p. if p == 0x1000 then some 0x80000 else if p == 0x2000 then some 0x30000 else none;
}

framed : (p f : ℕ) → page_table.translate_page p ≡ some f → f + 4096 ≤ word
framed p f e = ground arith

page_table-IsLawful : IsLawful page_table 0x4000
page_table-IsLawful = record {
  valid = λ v h. refl;
  down = λ v. omega arith;
  near = λ v. omega arith;
  follows = λ v h. refl;
  framed = framed;
}

abbrev buffer : UserBuffer
buffer = record { base = 0x1800; len = 0x900 }

-- Half of a page, and the rest at the start of the other one.
resolve_run :
    resolve page_table buffer
    ≡ done (
        KResult.ok
          (record { base = 0x80800; len = 0x800 } ∷ record { base = 0x30000; len = 0x100 } ∷ []))
unfolding resolve resolve_pages
resolve_run = refl

resolve-Resolves_example :
    (r : KResult) × (resolve page_table buffer ≡ done r) × Resolves page_table buffer r
resolve-Resolves_example =
    resolve-Resolves page_table 0x4000 page_table-IsLawful buffer (omega arith) (omega arith)
      (omega arith) (λ h. absurd (omega arith))
