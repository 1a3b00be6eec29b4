-- ===== src/FramebufferWriter/Examples.antt =====
-- A screen of four by four pixels, and a font of two by two.
use miniature.Base.{
  ℕ, ◌≡◌, refl, List, [], ◌∷◌, some, replicate, length, done, arith, take, drop, subst, ◌≤◌, All,
}
use mathlib.Core.Option.{some-injective}
use miniature.FramebufferWriter.{
  rgb, Framebuffer, RasterizedChar, Font, FrameBufferWriter, new, write_pixel, write_str,
  write_char, newline, wrap_line, wrap_page, write_rendered_char, write_rows, write_row,
}
use miniature.FramebufferWriter.Text.{IsFont, IsScreen, IsReady, Steps, write_str-returns}

abbrev square : RasterizedChar
square = record { raster = (255 ∷ 254 ∷ []) ∷ (253 ∷ 252 ∷ []) ∷ []; width = 2 }

abbrev font : Font
font = record { get_raster = λ c. some square; raster_width = 2; raster_height = 2 }

abbrev screen : Framebuffer
screen = record {
  ptr = 0x80000000;
  len = 64;
  width = 4;
  height = 4;
  stride = 4;
  pixel_format = rgb;
}

abbrev writer : FrameBufferWriter
writer = record {
  framebuffer = screen;
  buffer_slice = replicate 64 0;
  curr_x_pos = 1;
  curr_y_pos = 1;
}

new_run : new screen (replicate 64 7) ≡ writer
unfolding new
new_run = refl

font-IsFont : IsFont font
font-IsFont = record {
  rows = λ c r e.
      subst (λ (r : RasterizedChar). length r.raster ≤ 2) (some-injective square r e) (omega arith);
  columns = λ c r e.
      subst (λ (r : RasterizedChar). All (λ row. length row ≤ 2) r.raster)
        (some-injective square r e) (omega arith, (omega arith, tt));
  width = λ c r e.
      subst (λ (r : RasterizedChar). r.width ≤ 2) (some-injective square r e) (omega arith);
  fallback = (square, refl);
}

screen-IsScreen : IsScreen font screen
screen-IsScreen = record {
  padded = omega arith;
  wide = omega arith;
  tall = omega arith;
  stride_bits = omega arith;
  height_bits = omega arith;
}

writer-IsReady : IsReady font 4 writer
writer-IsReady = record {
  whole = record { format = tt; size = omega arith; fits = omega arith };
  column = omega arith;
  line = omega arith;
  room = omega arith;
}

-- A character, a new line, and two more, for which the screen is cleared.
write_str-returns_example :
    Steps (IsReady font 0) writer (write_str font writer (65 ∷ 10 ∷ 66 ∷ 66 ∷ []))
write_str-returns_example =
    write_str-returns font font-IsFont (65 ∷ 10 ∷ 66 ∷ 66 ∷ []) writer writer-IsReady
      screen-IsScreen

abbrev drawn : List ℕ
drawn = 255 ∷ 255 ∷ 127 ∷ 0 ∷ 254 ∷ 254 ∷ 127 ∷ 0 ∷ []

-- The first row of the square is on the second line, from its second pixel on.
write_char_run :
    (w : FrameBufferWriter) × (write_char font writer 65 ≡ done w)
    × (take 8 (drop 20 w.buffer_slice) ≡ drawn)
    × (w.curr_x_pos ≡ 3)
unfolding write_char wrap_line wrap_page write_rendered_char write_rows write_row write_pixel
    newline
write_char_run = (_, refl, refl, refl)
