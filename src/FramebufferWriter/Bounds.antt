-- ===== src/FramebufferWriter/Bounds.antt =====
-- Every pixel lies in the buffer.
use native.Mathlib.Nat.{mul-le-mul_right}
use miniature.Base.{
  ℕ, zero, suc, ◌+◌, ◌*◌, ◌≤◌, ◌<◌, ◌≡◌, refl, ap, ◌∙◌, true, List, [], ◌∷◌, ◌++◌, length, take,
  drop, leb, length-append, length-drop, All, Outcome, done, add64_fits, mul64_fits, word, arith,
}
use miniature.FramebufferWriter.{
  FbPixelFormat, rgb, bgr, other, Framebuffer, FrameBufferWriter, color, write_pixel, write_row,
  write_rows,
}

abbrev pub IsSupported : FbPixelFormat → Type 0
IsSupported rgb = Unit
IsSupported bgr = Unit
IsSupported (other bits) = ⊥

-- The buffer holds the lines of the screen.
pub record IsWhole (fb : Framebuffer) (bytes : List ℕ) : Type 0 where
  pub format : IsSupported fb.pixel_format
  pub size : 4 * (fb.height * fb.stride) ≤ length bytes
  pub fits : length bytes < word

color-length :
    (f : FbPixelFormat) (intensity : ℕ)
    → IsSupported f
    → (bytes : List ℕ) × (color f intensity ≡ done bytes) × (length bytes ≡ 4)
color-length rgb intensity s = (_, refl, refl)
color-length bgr intensity s = (_, refl, refl)
color-length (other bits) intensity s = absurd s

pub length-take : (n : ℕ) (xs : List ℕ) → n ≤ length xs → length (take n xs) ≡ n
length-take zero xs le = refl
length-take (suc n) [] le = absurd (omega arith)
length-take (suc n) (x ∷ xs) le = ap suc (length-take n xs (omega arith))

leb_fits : (a b : ℕ) → a ≤ b → leb a b ≡ true
leb_fits a b le = ground arith

-- The offset of a pixel of the screen.
inside : (x y stride height : ℕ) → x < stride → y < height → y * stride + x + 1 ≤ height * stride
inside x y stride height lx ly =
    let below : suc y ≤ height = omega arith in omega (arith, mul-le-mul_right stride below)

-- The writer with other bytes, of the same number.
abbrev pub Draws : FrameBufferWriter → Outcome FrameBufferWriter → Type 0
Draws w r =
    (bytes : List ℕ) × (r ≡ done (record w { buffer_slice = bytes }))
    × (length bytes ≡ length w.buffer_slice)

pub kept-IsWhole :
    (w : FrameBufferWriter) (bytes : List ℕ)
    → IsWhole w.framebuffer w.buffer_slice
    → length bytes ≡ length w.buffer_slice
    → IsWhole w.framebuffer bytes
kept-IsWhole w bytes h same = record {
  format = h.format;
  size = omega (arith, h.size, same);
  fits = omega (arith, h.fits, same);
}

write_pixel-Draws :
    (w : FrameBufferWriter) (x y intensity : ℕ)
    → IsWhole w.framebuffer w.buffer_slice
    → x < w.framebuffer.stride
    → y < w.framebuffer.height
    → Draws w (write_pixel w x y intensity)
unfolding write_pixel
write_pixel-Draws w x y intensity h lx ly =
    let fb = w.framebuffer in
    let n = length w.buffer_slice in
    let below = inside x y fb.stride fb.height lx ly in
    let (bytes, c, four) = color-length fb.pixel_format intensity h.format in
    let offset = (y * fb.stride + x) * 4 in
    let in_buffer : offset + 4 ≤ n = omega (arith, below, h.size) in
    let tail = drop (offset + 4) w.buffer_slice in
    (
      take offset w.buffer_slice ++ (bytes ++ tail),
      rw
          (
            mul64_fits y fb.stride (omega (arith, below, h.size, h.fits)),
            add64_fits (y * fb.stride) x (omega (arith, below, h.size, h.fits)),
            c,
            mul64_fits (y * fb.stride + x) 4 (omega (arith, in_buffer, h.fits)),
            add64_fits offset 4 (omega (arith, in_buffer, h.fits)),
            leb_fits (offset + 4) n in_buffer,
          )
          refl,
      omega (
        arith,
        length-append (take offset w.buffer_slice) (bytes ++ tail),
        length-append bytes tail,
        four,
        length-take offset w.buffer_slice (omega (arith, in_buffer)),
        length-drop (offset + 4) w.buffer_slice,
        in_buffer,
      ),
    )

write_row-Draws :
    (w : FrameBufferWriter) (x y : ℕ) (row : List ℕ)
    → IsWhole w.framebuffer w.buffer_slice
    → w.curr_x_pos + x + length row ≤ w.framebuffer.stride
    → w.curr_y_pos + y < w.framebuffer.height
    → w.framebuffer.stride + w.framebuffer.height < word
    → Draws w (write_row w x y row)
unfolding write_row
write_row-Draws w x y [] h hx hy s = (w.buffer_slice, refl, refl)
write_row-Draws w x y (byte ∷ row) h hx hy s =
    let (b₁, e₁, l₁) =
      write_pixel-Draws w (w.curr_x_pos + x) (w.curr_y_pos + y) byte h (omega arith) hy in
    let w₁ : FrameBufferWriter = record w { buffer_slice = b₁ } in
    let (b₂, e₂, l₂) =
      write_row-Draws w₁ (x + 1) y row (kept-IsWhole w b₁ h l₁) (omega arith) hy s in
    (
      b₂,
      rw (add64_fits w.curr_x_pos x (omega arith), add64_fits w.curr_y_pos y (omega arith), e₁) e₂,
      l₂ ∙ l₁,
    )

pub write_rows-Draws :
    (w : FrameBufferWriter) (y columns : ℕ) (rows : List (List ℕ))
    → IsWhole w.framebuffer w.buffer_slice
    → All (λ row. length row ≤ columns) rows
    → w.curr_x_pos + columns ≤ w.framebuffer.stride
    → w.curr_y_pos + y + length rows ≤ w.framebuffer.height
    → w.framebuffer.stride + w.framebuffer.height < word
    → Draws w (write_rows w y rows)
unfolding write_rows
write_rows-Draws w y columns [] h a hx hy s = (w.buffer_slice, refl, refl)
write_rows-Draws w y columns (row ∷ rows) h a hx hy s =
    let (b₁, e₁, l₁) = write_row-Draws w 0 y row h (omega (arith, a.0)) (omega arith) s in
    let w₁ : FrameBufferWriter = record w { buffer_slice = b₁ } in
    let (b₂, e₂, l₂) =
      write_rows-Draws w₁ (y + 1) columns rows (kept-IsWhole w b₁ h l₁) a.1 hx (omega arith) s in
    (b₂, rw e₁ e₂, l₂ ∙ l₁)
