-- ===== src/FramebufferWriter.antt =====
-- shared/src/framebuffer_writer.rs, and shared/src/framebuffer.rs: text on the screen.
pub mod Bounds
pub mod Text
mod Examples
use miniature.Base.{
  ℕ, ◌+◌, ◌/◌, Bool, List, [], ◌∷◌, ◌++◌, Option, none, some, length, take, drop, replicate, ltb,
  leb, ◌==◌, if◌then◌else◌, Outcome, done, panic, ◌>>=◌, ◌>>◌, assert, or_panic, add64, mul64,
}

pub data FbPixelFormat : Type 0 where
  rgb bgr : FbPixelFormat
  other : ℕ → FbPixelFormat

pub record Framebuffer : Type 0 where
  pub ptr : ℕ
  pub len : ℕ
  pub width : ℕ
  pub height : ℕ
  pub stride : ℕ
  pub pixel_format : FbPixelFormat

-- The font is the crate noto_sans_mono_bitmap: a character is a number, and a raster the rows of
-- its intensities.
pub record RasterizedChar : Type 0 where
  pub raster : List (List ℕ)
  pub width : ℕ

pub record Font : Type 0 where
  pub get_raster : ℕ → Option RasterizedChar
  pub raster_width : ℕ
  pub raster_height : ℕ

abbrev pub line_spacing : ℕ
line_spacing = 2

abbrev pub letter_spacing : ℕ
letter_spacing = 0

abbrev pub border_padding : ℕ
border_padding = 1

-- `buffer_slice` is the list of its bytes.
pub record FrameBufferWriter : Type 0 where
  pub framebuffer : Framebuffer
  pub buffer_slice : List ℕ
  pub curr_x_pos : ℕ
  pub curr_y_pos : ℕ

abbrev pub carriage_return : FrameBufferWriter → FrameBufferWriter
carriage_return w = record w { curr_x_pos = border_padding }

abbrev pub clear : FrameBufferWriter → FrameBufferWriter
clear w = record w {
  curr_x_pos = border_padding;
  curr_y_pos = border_padding;
  buffer_slice = replicate (length w.buffer_slice) 0;
}

-- A new writer on the bytes that the buffer has.
unfoldable pub new : Framebuffer → List ℕ → FrameBufferWriter
new framebuffer bytes =
    clear
      (record { framebuffer = framebuffer; buffer_slice = bytes; curr_x_pos = 0; curr_y_pos = 0 })

abbrev pub color : FbPixelFormat → ℕ → Outcome (List ℕ)
color rgb intensity = done (intensity ∷ intensity ∷ intensity / 2 ∷ 0 ∷ [])
color bgr intensity = done (intensity / 2 ∷ intensity ∷ intensity ∷ 0 ∷ [])
color (other bits) intensity = panic

pub write_pixel : FrameBufferWriter → ℕ → ℕ → ℕ → Outcome FrameBufferWriter
write_pixel w x y intensity = do
  row ← mul64 y w.framebuffer.stride
  pixel_offset ← add64 row x
  bytes ← color w.framebuffer.pixel_format intensity
  byte_offset ← mul64 pixel_offset 4
  end ← add64 byte_offset 4
  assert (leb end (length w.buffer_slice))
  done (record w {
    buffer_slice = take byte_offset w.buffer_slice ++ (bytes ++ drop end w.buffer_slice);
  })

-- The loops of `write_rendered_char`, from a column and a row of the raster on.
pub write_row : FrameBufferWriter → ℕ → ℕ → List ℕ → Outcome FrameBufferWriter
write_row w x y [] = done w
write_row w x y (byte ∷ row) = do
  px ← add64 w.curr_x_pos x
  py ← add64 w.curr_y_pos y
  w' ← write_pixel w px py byte
  write_row w' (x + 1) y row

pub write_rows : FrameBufferWriter → ℕ → List (List ℕ) → Outcome FrameBufferWriter
write_rows w y [] = done w
write_rows w y (row ∷ rows) = do w' ← write_row w 0 y row; write_rows w' (y + 1) rows

pub write_rendered_char : FrameBufferWriter → RasterizedChar → Outcome FrameBufferWriter
write_rendered_char w rendered_char = do
  w' ← write_rows w 0 rendered_char.raster
  advance ← add64 rendered_char.width letter_spacing
  x ← add64 w'.curr_x_pos advance
  done (record w' { curr_x_pos = x })

abbrev pub line_feed : ℕ
line_feed = 10

abbrev pub return : ℕ
return = 13

abbrev pub replacement : ℕ
replacement = 0xfffd

-- `Option::unwrap_or_else`
abbrev pub unwrap_or_else : Option RasterizedChar → Outcome RasterizedChar → Outcome RasterizedChar
unwrap_or_else none fallback = fallback
unwrap_or_else (some rendered) fallback = done rendered

module _ (font : Font) where
  abbrev pub get_raser_or_fallback : ℕ → Outcome RasterizedChar
  get_raser_or_fallback c =
      unwrap_or_else (font.get_raster c) (or_panic (font.get_raster replacement))

  pub newline : FrameBufferWriter → Outcome FrameBufferWriter
  newline w = do
    step ← add64 font.raster_height line_spacing
    y ← add64 w.curr_y_pos step
    done (carriage_return (record w { curr_y_pos = y }))

  -- The two tests before a character is drawn.
  pub wrap_line : FrameBufferWriter → Outcome FrameBufferWriter
  wrap_line w = do
    new_xpos ← add64 w.curr_x_pos font.raster_width
    if leb w.framebuffer.width new_xpos then newline w else done w

  pub wrap_page : FrameBufferWriter → Outcome FrameBufferWriter
  wrap_page w = do
    bottom ← add64 w.curr_y_pos font.raster_height
    new_ypos ← add64 bottom border_padding
    if leb w.framebuffer.height new_ypos then done (clear w) else done w

  pub write_char : FrameBufferWriter → ℕ → Outcome FrameBufferWriter
  write_char w c =
      if c == line_feed then newline w else if c == return then done (carriage_return w) else (do
        w₁ ← wrap_line w
        w₂ ← wrap_page w₁
        rendered ← get_raser_or_fallback c
        write_rendered_char w₂ rendered)

  pub write_str : FrameBufferWriter → List ℕ → Outcome FrameBufferWriter
  write_str w [] = done w
  write_str w (c ∷ s) = write_char w c >>= λ w'. write_str w' s
