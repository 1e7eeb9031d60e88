-- ===== src/Shell/Out/Tests.antt =====
-- A canvas of 82 by 40 pixels, with the cursor in its last column.
use ryanos.Prelude.{suc, ◌+◌, ◌*◌, ◌%◌, ◌≡◌, refl, true, arith, ltb, leb, ◌&&◌, if◌then◌else◌, inl}
use ryanos.Prelude.Int.{pos}
use ryanos.Graphics.{Graphics}
use ryanos.Shell.Out.{Out, cprint, backspace}
use ryanos.Shell.Out.Cursor.{backspace-cprint}

abbrev canvas : Graphics
canvas = record {
  color = 0;
  pps = 82;
  direct_write = true;
  backbuffer = 0;
  fb_base_address = 0x200000;
  fb_buffer_size = 13120;
  fb_width = 82;
  fb_height = 40;
  fb_pps = 82;
}

abbrev prompt : Out
prompt = record {
  cursor_pos = record { x = pos 8; y = pos 1 };
  user_begin_pos = record { x = pos 2; y = pos 0 };
  out_color = 0xFF000000;
  gfx = canvas;
  size_x = 82;
  glyph_buffer = 0x1000;
  charsize = 16;
  memory = λ a. 0;
}

-- The backspace goes back to column 9, not to column 8.
backspace-cprint_example :
    (backspace (cprint 65 prompt)).cursor_pos
    ≡ record { x = pos (if ltb 82 (suc 8 * 8 + 16) && leb 2 (82 % 8) then suc 8 else 8); y = pos 1 }
backspace-cprint_example =
    backspace-cprint 65 prompt 8 1 2 0 refl refl (λ e. omega arith) (omega arith)
      (inl (omega arith))
