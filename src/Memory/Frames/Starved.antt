-- ===== src/Memory/Frames/Starved.antt =====
-- `request_page` after a `request_pages` that found no run.
use ryanos.Prelude.{
  ℕ, suc, ◌+◌, ◌^◌, ◌<◌, ◌≤◌, ◌≡◌, false, ltb, arith, Option, some, inl, inr, ◌∙◌, ap, sym,
}
use mathlib.Core.Bool.{false≢true}
use ryanos.Memory.Bitmap.{get}
use ryanos.Memory.Frames.{Frames, page_total, request_pages, scan_page, request_page}
use ryanos.Memory.Frames.Valid.{IsSound}
use ryanos.Memory.Frames.Run.{Blocked, AnswersRun, answers, request_pages-AnswersRun}

cursor_at_end : (f : Frames) → page_total f ≤ f.page_bitmap_index → request_page f ≡ some (f, 0)
unfolding request_page scan_page
cursor_at_end f out =
    let end : ltb f.page_bitmap_index (page_total f) ≡ false = ground arith in
    let more : page_total f + 1 ≡ suc (page_total f) = omega arith in rw (more, end)

missed :
    {num : ℕ} {f : Frames} {r : Option (Frames × ℕ)}
    → 0 < num
    → ((s : ℕ) → f.page_bitmap_index ≤ s → s + num ≤ page_total f → Blocked num f s)
    → AnswersRun num f r
    → (f' : Frames) × (r ≡ some (f', 0))
      × (request_page f' ≡ some (f', 0))
      × ((j : ℕ) → get f'.page_bitmap j ≡ get f.page_bitmap j)
missed pos blocked (answers _ (inl g)) =
    let (j, from, to, taken) = blocked g.start g.above g.covered in
    absurd (false≢true (sym (g.was_free j from to) ∙ taken))
missed pos blocked (answers {f'} _ (inr m)) =
    (f', ap (λ (a : ℕ). some (f', a)) m.null, cursor_at_end f' m.at_end, m.pages)

-- From such a state, if every run from the cursor on is blocked, `request_pages` returns NULL, and so does a
-- `request_page` that follows, although no page was taken: single free pages are out of reach.
pub request_page-request_pages :
    (num : ℕ) (f : Frames)
    → IsSound f
    → 0 < num
    → num < 2 ^ 64
    → f.page_bitmap_index ≤ page_total f
    → ((s : ℕ) → f.page_bitmap_index ≤ s → s + num ≤ page_total f → Blocked num f s)
    → (f' : Frames) × (request_pages num f ≡ some (f', 0))
      × (request_page f' ≡ some (f', 0))
      × ((j : ℕ) → get f'.page_bitmap j ≡ get f.page_bitmap j)
request_page-request_pages num f v pos num_fits inside blocked =
    missed pos blocked (request_pages-AnswersRun num f v pos num_fits inside)
