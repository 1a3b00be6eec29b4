-- ===== src/FramebufferWriter/Text.antt =====
-- A text is written without a panic.
use miniature.Base.{
  ℕ, suc, ◌+◌, ◌*◌, ◌^◌, ◌≤◌, ◌<◌, ◌≡◌, refl, sym, ap, ◌∙◌, subst, inl, inr, Bool-cases,
  Option-cases, List, [], ◌∷◌, some, length, leb, ◌==◌, length-replicate, All, Outcome, done, add64,
  add64_fits, word, arith,
}
use miniature.FramebufferWriter.{
  Framebuffer, RasterizedChar, Font, FrameBufferWriter, clear, write_rendered_char, replacement,
  get_raser_or_fallback, newline, wrap_line, wrap_page, write_char, write_str,
}
use miniature.FramebufferWriter.Bounds.{IsWhole, kept-IsWhole, write_rows-Draws}

-- What the crate documents of its rasters: all have the same width and height.
pub record IsFont (font : Font) : Type 0 where
  pub rows :
      (c : ℕ) (r : RasterizedChar)
      → font.get_raster c ≡ some r
      → length r.raster ≤ font.raster_height
  pub columns :
      (c : ℕ) (r : RasterizedChar)
      → font.get_raster c ≡ some r
      → All (λ row. length row ≤ font.raster_width) r.raster
  pub width :
      (c : ℕ) (r : RasterizedChar) → font.get_raster c ≡ some r → r.width ≤ font.raster_width
  pub fallback : (r : RasterizedChar) × (font.get_raster replacement ≡ some r)

-- A screen that has room for one character, with sides of 32 bits.
pub record IsScreen (font : Font) (fb : Framebuffer) : Type 0 where
  pub padded : fb.width ≤ fb.stride
  pub wide : 1 + font.raster_width ≤ fb.stride
  pub tall : 1 + font.raster_height ≤ fb.height
  pub stride_bits : fb.stride < 2 ^ 32
  pub height_bits : fb.height < 2 ^ 32

-- The cursor before `n` more characters.
pub record IsReady (font : Font) (n : ℕ) (w : FrameBufferWriter) : Type 0 where
  pub whole : IsWhole w.framebuffer w.buffer_slice
  pub column : w.curr_x_pos ≤ w.framebuffer.stride
  pub line : 1 ≤ w.curr_y_pos
  pub room : w.curr_y_pos + (font.raster_height + 2) * (n + 1) < word

-- A step that leaves the screen and the number of its bytes.
abbrev pub Steps :
    (FrameBufferWriter → Type 0) → FrameBufferWriter → Outcome FrameBufferWriter → Type 0
Steps P w r =
    (w' : FrameBufferWriter) × (r ≡ done w')
    × (w'.framebuffer ≡ w.framebuffer)
    × (length w'.buffer_slice ≡ length w.buffer_slice)
    × P w'

IsWhole-after :
    (w w' : FrameBufferWriter)
    → IsWhole w.framebuffer w.buffer_slice
    → w'.framebuffer ≡ w.framebuffer
    → length w'.buffer_slice ≡ length w.buffer_slice
    → IsWhole w'.framebuffer w'.buffer_slice
IsWhole-after w w' h same bytes =
    subst (λ fb. IsWhole fb w'.buffer_slice) (sym same) (kept-IsWhole w w'.buffer_slice h bytes)

module _ (font : Font) (is_font : IsFont font) where
  rendered :
      (c : ℕ)
      → (r : RasterizedChar) × (get_raser_or_fallback font c ≡ done r)
        × (length r.raster ≤ font.raster_height)
        × All (λ row. length row ≤ font.raster_width) r.raster
        × (r.width ≤ font.raster_width)
  rendered c = elim (Option-cases (font.get_raster c)) [
    | inr (r, e) ↦ (r, rw e refl, is_font.rows c r e, is_font.columns c r e, is_font.width c r e)
    | inl e ↦
        let (r, f) = is_font.fallback in
        (
          r,
          rw (e, f) refl,
          is_font.rows replacement r f,
          is_font.columns replacement r f,
          is_font.width replacement r f,
        )
  ]

  newline-Steps :
      (n : ℕ) (w : FrameBufferWriter)
      → IsReady font (n + 1) w
      → IsScreen font w.framebuffer
      → Steps
          (λ w'. (w'.curr_x_pos ≡ 1) × (w'.curr_y_pos ≡ w.curr_y_pos + (font.raster_height + 2)))
          w
          (newline font w)
  unfolding newline
  newline-Steps n w h s = (
    _,
    rw
        (
          add64_fits font.raster_height 2 (omega (arith, h.room)),
          add64_fits w.curr_y_pos (font.raster_height + 2) (omega (arith, h.room)),
        )
        refl,
    refl,
    refl,
    (refl, refl),
  )

  wrap_line-Steps :
      (n : ℕ) (w : FrameBufferWriter)
      → IsReady font (n + 1) w
      → IsScreen font w.framebuffer
      → Steps
          (λ w'.
            (w'.curr_x_pos + font.raster_width ≤ w.framebuffer.stride)
            × (1 ≤ w'.curr_y_pos)
            × (w'.curr_y_pos ≤ w.curr_y_pos + (font.raster_height + 2)))
          w
          (wrap_line font w)
  unfolding wrap_line
  wrap_line-Steps n w h s =
      elim (Bool-cases (leb w.framebuffer.width (w.curr_x_pos + font.raster_width))) [
        | inl past ↦
            let (w', e, fb, same, at) = newline-Steps n w h s in
            (
              w',
              rw (fits, past) e,
              fb,
              same,
              (omega (arith, at.0, s.wide), omega (arith, at.1), omega (arith, at.1)),
            )
        | inr before ↦
            (w, rw (fits, before) refl, refl, refl, (ground (arith, s.padded), h.line, omega arith))
      ]
    where
      fits : add64 w.curr_x_pos font.raster_width ≡ done (w.curr_x_pos + font.raster_width)
      fits =
          add64_fits w.curr_x_pos font.raster_width (omega (arith, h.column, s.wide, s.stride_bits))

  wrap_page-Steps :
      (w : FrameBufferWriter)
      → IsScreen font w.framebuffer
      → w.curr_y_pos + font.raster_height + 1 < word
      → 1 ≤ w.curr_y_pos
      → w.curr_x_pos + font.raster_width ≤ w.framebuffer.stride
      → Steps
          (λ w'.
            (w'.curr_x_pos + font.raster_width ≤ w.framebuffer.stride)
            × (w'.curr_y_pos + font.raster_height ≤ w.framebuffer.height)
            × (1 ≤ w'.curr_y_pos)
            × (w'.curr_y_pos ≤ w.curr_y_pos))
          w
          (wrap_page font w)
  unfolding wrap_page
  wrap_page-Steps w s room line column =
      elim (Bool-cases (leb w.framebuffer.height (w.curr_y_pos + font.raster_height + 1))) [
        | inl past ↦ (
          clear w,
          rw (first, second, past) refl,
          refl,
          length-replicate (length w.buffer_slice) 0,
          (omega (arith, s.wide), omega (arith, s.tall), omega arith, line),
        )
        | inr before ↦ (
          w,
          rw (first, second, before) refl,
          refl,
          refl,
          (column, ground arith, line, omega arith),
        )
      ]
    where
      first : add64 w.curr_y_pos font.raster_height ≡ done (w.curr_y_pos + font.raster_height)
      first = add64_fits w.curr_y_pos font.raster_height (omega arith)

      second :
          add64 (w.curr_y_pos + font.raster_height) 1 ≡ done (w.curr_y_pos + font.raster_height + 1)
      second = add64_fits (w.curr_y_pos + font.raster_height) 1 room

  write_rendered_char-Steps :
      (w : FrameBufferWriter) (r : RasterizedChar)
      → IsScreen font w.framebuffer
      → IsWhole w.framebuffer w.buffer_slice
      → length r.raster ≤ font.raster_height
      → All (λ row. length row ≤ font.raster_width) r.raster
      → r.width ≤ font.raster_width
      → w.curr_x_pos + font.raster_width ≤ w.framebuffer.stride
      → w.curr_y_pos + font.raster_height ≤ w.framebuffer.height
      → Steps
          (λ w'. (w'.curr_x_pos ≤ w.framebuffer.stride) × (w'.curr_y_pos ≡ w.curr_y_pos))
          w
          (write_rendered_char w r)
  unfolding write_rendered_char
  write_rendered_char-Steps w r s h rows columns width cx cy =
      let (bytes, e, same) =
        write_rows-Draws w 0 font.raster_width r.raster h columns cx (omega arith)
          (omega (arith, s.stride_bits, s.height_bits)) in
      (
        record w { buffer_slice = bytes; curr_x_pos = w.curr_x_pos + (r.width + 0) },
        rw
            (
              e,
              add64_fits r.width 0 (omega (arith, s.stride_bits)),
              add64_fits w.curr_x_pos (r.width + 0) (omega (arith, s.stride_bits)),
            )
            refl,
        refl,
        same,
        (omega arith, refl),
      )

  write_char-Steps :
      (n c : ℕ) (w : FrameBufferWriter)
      → IsReady font (n + 1) w
      → IsScreen font w.framebuffer
      → Steps (IsReady font n) w (write_char font w c)
  unfolding write_char
  write_char-Steps n c w h s = elim (Bool-cases (c == 10)) [
    | inl feed ↦
        let (w₁, e₁, fb₁, same₁, at₁) = newline-Steps n w h s in
        (
          w₁,
          rw feed e₁,
          fb₁,
          same₁,
          record {
            whole = IsWhole-after w w₁ h.whole fb₁ same₁;
            column = omega (arith, at₁.0, s.wide, ap Framebuffer.stride fb₁);
            line = omega (arith, at₁.1);
            room = omega (arith, at₁.1, h.room);
          },
        )
    | inr different ↦ elim (Bool-cases (c == 13)) [
      | inl back ↦ (
        record w { curr_x_pos = 1 },
        rw (different, back) refl,
        refl,
        refl,
        record {
          whole = h.whole;
          column = omega (arith, s.wide);
          line = h.line;
          room = omega (arith, h.room);
        },
      )
      | inr shown ↦
          let (w₁, e₁, fb₁, same₁, at₁) = wrap_line-Steps n w h s in
          let h₁ = IsWhole-after w w₁ h.whole fb₁ same₁ in
          let s₁ = subst (IsScreen font) (sym fb₁) s in
          let stride₁ = ap Framebuffer.stride fb₁ in
          let (w₂, e₂, fb₂, same₂, at₂) =
            wrap_page-Steps w₁ s₁ (omega (arith, h.room, at₁.2)) at₁.1
              (omega (arith, at₁.0, stride₁)) in
          let h₂ = IsWhole-after w₁ w₂ h₁ fb₂ same₂ in
          let s₂ = subst (IsScreen font) (sym fb₂) s₁ in
          let stride₂ = ap Framebuffer.stride fb₂ in
          let height₂ = ap Framebuffer.height fb₂ in
          let (r, er, rows, columns, width) = rendered c in
          let (w₃, e₃, fb₃, same₃, at₃) =
            write_rendered_char-Steps w₂ r s₂ h₂ rows columns width (omega (arith, at₂.0, stride₂))
              (omega (arith, at₂.1, height₂)) in
          (
            w₃,
            rw (different, shown, e₁, e₂, er) e₃,
            fb₃ ∙ fb₂ ∙ fb₁,
            same₃ ∙ same₂ ∙ same₁,
            record {
              whole = IsWhole-after w₂ w₃ h₂ fb₃ same₃;
              column = omega (arith, at₃.0, ap Framebuffer.stride fb₃);
              line = omega (arith, at₃.1, at₂.2);
              room = omega (arith, at₃.1, at₂.3, at₁.2, h.room);
            },
          )
    ]
  ]

  -- Any text on a screen that has room for a character, in a buffer that holds its lines: the writer
  -- returns, so that no byte is written out of the buffer, and the cursor stays on a line of the buffer;
  -- the characters are few enough for the line number to fit.
  pub write_str-returns :
      (s : List ℕ) (w : FrameBufferWriter)
      → IsReady font (length s) w
      → IsScreen font w.framebuffer
      → Steps (IsReady font 0) w (write_str font w s)
  unfolding write_str
  write_str-returns [] w h scr = (w, refl, refl, refl, h)
  write_str-returns (c ∷ s) w h scr =
      let (w₁, e₁, fb₁, same₁, h₁) =
        write_char-Steps (length s) c w (ready_suc (length s) w h) scr in
      let (w₂, e₂, fb₂, same₂, h₂) =
        write_str-returns s w₁ h₁ (subst (IsScreen font) (sym fb₁) scr) in
      (w₂, rw e₁ e₂, fb₂ ∙ fb₁, same₂ ∙ same₁, h₂)
    where
      ready_suc : (n : ℕ) (w : FrameBufferWriter) → IsReady font (suc n) w → IsReady font (n + 1) w
      ready_suc n w h = record {
        whole = h.whole;
        column = h.column;
        line = h.line;
        room = omega (arith, h.room);
      }
