-- ===== src/Memory/Frames/Run.antt =====
-- `request_pages` hands out a run of free pages at or above the cursor.
use ryanos.Prelude.{
  ℕ, zero, suc, ◌+◌, ◌*◌, ◌^◌, ◌<◌, ◌≤◌, ◌≡◌, refl, true, false, ltb, ◌==◌, arith, if◌then◌else◌,
  u64, Option, some, Bool-cases, inl, inr, ltb→lt, ltb→le, ◌∙◌, ap, ◌⊎◌,
}
use native.Mathlib.Decide.{dec_lt}
use ryanos.Memory.Bitmap.{get}
use ryanos.Memory.Bitmap.Laws.{IsBytes}
use ryanos.Memory.Frames.{
  Frames, page_index, lock_page, page_total, lock_run, scan_pages, request_pages,
}
use ryanos.Memory.Frames.Single.{SetsPage, lock_page-SetsPage}
use ryanos.Memory.Frames.Range.{SetsRange, SetsRange-zero, SetsRange-suc, in_range}
use ryanos.Memory.Frames.Valid.{IsSound, page_total-eq, lock_run-Keeps}

-- The run at `start` was free and is held now; no other page changed hands.
pub record GrantedRun (num : ℕ) (f f' : Frames) (address : ℕ) : Type 0 where
  pub start : ℕ
  pub at : address ≡ start * 4096
  pub covered : start + num ≤ page_total f
  pub above : f.page_bitmap_index ≤ start
  pub was_free : (j : ℕ) → start ≤ j → j < start + num → get f.page_bitmap j ≡ false
  pub pages :
      (j : ℕ) → get f'.page_bitmap j ≡ (if in_range start num j then true else get f.page_bitmap j)

-- A held page stands in the way of a run at `s`.
abbrev pub Blocked : ℕ → Frames → ℕ → Type 0
Blocked num f s = (j : ℕ) × (s ≤ j) × (j < s + num) × (get f.page_bitmap j ≡ true)

-- NULL: there is no such run from the cursor on, and the cursor is left behind the last page.
pub record Missed (num : ℕ) (f f' : Frames) (address : ℕ) : Type 0 where
  pub null : address ≡ 0
  pub blocked : (s : ℕ) → f.page_bitmap_index ≤ s → s + num ≤ page_total f → Blocked num f s
  pub pages : (j : ℕ) → get f'.page_bitmap j ≡ get f.page_bitmap j
  pub at_end : page_total f' ≤ f'.page_bitmap_index

pub data AnswersRun (num : ℕ) (f : Frames) : Option (Frames × ℕ) → Type 0 where
  answers :
      {f' : Frames} {address : ℕ}
      → IsSound f'
      → GrantedRun num f f' address ⊎ Missed num f f' address
      → AnswersRun num f (some (f', address))

lock_run-SetsRange :
    (start left i first : ℕ) (f : Frames)
    → first ≡ start + i
    → start + i + left ≤ 2 ^ 52
    → IsBytes f.page_bitmap
    → SetsRange true first left f (lock_run start left i f)
unfolding lock_run
lock_run-SetsRange start zero i first f e fits bytes = SetsRange-zero first bytes
lock_run-SetsRange start (suc left) i first f e fits bytes =
    let a = u64 ((start + i) * 4096) in
    let one : SetsPage true first f (lock_page a f) = rw here at (lock_page-SetsPage a f bytes) in
    SetsRange-suc one (
      lock_run-SetsRange start left (i + 1) (first + 1) (lock_page a f) (omega arith) (omega arith)
        one.bytes)
  where
    here : page_index (u64 ((start + i) * 4096)) ≡ first
    here = unfold page_index in omega arith

-- The loop between two rounds: `c` free pages from `start` up to the cursor, and no run in front of
-- them. `f` is the state at the call.
record Scanned (num : ℕ) (f : Frames) (start c index : ℕ) : Type 0 where
  joined : start + c ≡ index
  short : c < num
  from : f.page_bitmap_index ≤ start
  inside : index ≤ page_total f
  vacant : (j : ℕ) → start ≤ j → j < index → get f.page_bitmap j ≡ false
  blocked : (s : ℕ) → f.page_bitmap_index ≤ s → s < start → Blocked num f s

-- The state with another cursor.
abbrev at_cursor : Frames → ℕ → Frames
at_cursor f index = record f { page_bitmap_index = index }

module _ (num : ℕ) (f : Frames) (v : IsSound f) (num_fits : num < 2 ^ 64) where
  total-le : page_total f ≤ 2 ^ 52
  total-le = omega (arith, page_total-eq f v, v.fits)

  IsSound-at : (index : ℕ) → IsSound (at_cursor f index)
  IsSound-at index = record { bytes = v.bytes; fits = v.fits }

  total_at : (index : ℕ) → page_total (at_cursor f index) ≡ page_total f
  unfolding page_total
  total_at index = refl

  Scanned-held :
      {start c index : ℕ}
      → Scanned num f start c index
      → index < page_total f
      → get f.page_bitmap index ≡ true
      → Scanned num f (index + 1) 0 (index + 1)
  Scanned-held {start} {c} {index} s below taken = record {
    joined = omega arith;
    short = let e = s.short in omega arith;
    from = omega (arith, s.from, s.joined);
    inside = omega arith;
    vacant = λ j p q. absurd (omega arith);
    blocked = λ t p q. elim (dec_lt t start) [
      | yes h ↦ s.blocked t p h
      | no h ↦ (index, omega arith, omega (arith, s.joined, s.short), taken)
    ];
  }

  Scanned-free :
      {start c index : ℕ}
      → Scanned num f start c index
      → index < page_total f
      → get f.page_bitmap index ≡ false
      → c + 1 < num
      → Scanned num f start (c + 1) (index + 1)
  Scanned-free {start} {c} {index} s below vacant more = record {
    joined = omega (arith, s.joined);
    short = more;
    from = s.from;
    inside = omega arith;
    vacant = λ j p q. elim (dec_lt j index) [
      | yes h ↦ s.vacant j p h
      | no h ↦ let e : j ≡ index = omega arith in ap (λ k. get f.page_bitmap k) e ∙ vacant
    ];
    blocked = s.blocked;
  }

  grant_run :
      {start c index : ℕ}
      → Scanned num f start c index
      → index < page_total f
      → get f.page_bitmap index ≡ false
      → c + 1 ≡ num
      → AnswersRun num f (some (lock_run start num 0 (at_cursor f index), u64 (start * 4096)))
  grant_run {start} {c} {index} s below vacant full =
      answers (lock_run-Keeps start num 0 (at_cursor f index) (IsSound-at index)).sound (
        inl (record {
          start = start;
          at = omega (arith, total-le, s.joined);
          covered = omega (arith, s.joined);
          above = s.from;
          was_free = λ j p q. elim (dec_lt j index) [
            | yes h ↦ s.vacant j p h
            | no h ↦
                let e : j ≡ index = omega (arith, s.joined) in
                ap (λ k. get f.page_bitmap k) e ∙ vacant
          ];
          pages = λ j. ground (arith, run.pages j, total_at index, s.joined);
        }))
    where
      run : SetsRange true start num (at_cursor f index) (lock_run start num 0 (at_cursor f index))
      run =
          lock_run-SetsRange start num 0 start (at_cursor f index) (omega arith)
            (omega (arith, total-le, s.joined)) v.bytes

  miss :
      {start c index : ℕ}
      → Scanned num f start c index
      → page_total f ≤ index
      → AnswersRun num f (some (at_cursor f index, 0))
  miss {start} {c} {index} s out = answers (IsSound-at index) (
      inr (record {
        null = refl;
        blocked = λ t p q. s.blocked t p (omega (arith, s.joined, s.short));
        pages = λ j. refl;
        at_end = rw total_at out;
      }))

  scan_pages-AnswersRun :
      (fuel start c index : ℕ)
      → Scanned num f start c index
      → page_total f < fuel + index
      → AnswersRun num f (scan_pages num fuel start c (at_cursor f index))
  unfolding scan_pages
  scan_pages-AnswersRun zero start c index s enough = absurd (omega (arith, s.inside))
  scan_pages-AnswersRun (suc fuel) start c index s enough =
      elim (Bool-cases (ltb index (page_total f))) [
        | inr out ↦ rw (total_at index, out) (miss s (ltb→le _ _ out))
        | inl inside ↦
            let below : index < page_total f = ltb→lt _ _ inside in
            let next : u64 (index + 1) ≡ index + 1 = omega (arith, total-le) in
            let count : u64 (c + 1) ≡ c + 1 = omega (arith, s.short) in
            elim (Bool-cases (get f.page_bitmap index)) [
              | inl taken ↦
                  rw (total_at index, inside, taken, next)
                    (scan_pages-AnswersRun fuel (index + 1) 0 (index + 1)
                      (Scanned-held s below taken) (omega arith))
              | inr vacant ↦ elim (Bool-cases (c + 1 == num)) [
                | inl full ↦
                    rw (total_at index, inside, vacant, count, full)
                      (grant_run s below vacant (ground arith))
                | inr more ↦
                    rw (total_at index, inside, vacant, count, more, next)
                      (scan_pages-AnswersRun fuel start (c + 1) (index + 1)
                        (Scanned-free s below vacant (ground (arith, s.short))) (omega arith))
              ]
            ]
      ]

-- From a sound state with the cursor inside the bitmap or at its end, a request for at least one and
-- fewer than 2^64 pages is answered. It gets a run of
-- free pages at or above the cursor, which are held afterwards while no other page changes; or, if
-- every run from the cursor on is blocked by a held page, NULL, and no page changes.
pub request_pages-AnswersRun :
    (num : ℕ) (f : Frames)
    → IsSound f
    → 0 < num
    → num < 2 ^ 64
    → f.page_bitmap_index ≤ page_total f
    → AnswersRun num f (request_pages num f)
unfolding request_pages
request_pages-AnswersRun num f v pos num_fits inside =
    scan_pages-AnswersRun num f v num_fits (page_total f + 1) f.page_bitmap_index 0
      f.page_bitmap_index
      (record {
        joined = omega arith;
        short = pos;
        from = omega arith;
        inside = inside;
        vacant = λ j p q. absurd (omega arith);
        blocked = λ s p q. absurd (omega arith);
      })
      (omega arith)
