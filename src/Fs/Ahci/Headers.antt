-- ===== src/Fs/Ahci/Headers.antt =====
-- The command headers and tables of a port that is configured.
use ryanos.Prelude.{
  ℕ, zero, suc, ◌+◌, ◌*◌, ◌%◌, ◌^◌, ◌<◌, ◌≤◌, ◌≡◌, ◌≢◌, refl, sym, false, ◌∙◌, arith, ◌↔◌,
}
use mathlib.Core.Path.{subst}
use ryanos.Memory.PageTables.{PageSource}
use ryanos.Fs.Ahci.{HbaCommandHeader, Memory}
use ryanos.Fs.Ahci.Configure.{wiped, zero_bytes, table_address, fill_header, fill_headers}

module _ {F : Type 0} (source : PageSource F) where
  -- The page of the request number `i`, and the allocator before it.
  unfoldable pub requested : ℕ → F → F
  requested zero f = f
  requested (suc i) f = requested i (source.request_page f).0

  unfoldable pub page_given : ℕ → F → ℕ
  unfolding requested
  page_given i f = (source.request_page (requested i f)).1

  -- The header has eight entries, and its table begins `i * 256` bytes into the page.
  pub record PointsTo (h : HbaCommandHeader) (page i : ℕ) : Type 0 where
    pub entries : h.prdt_length ≡ 8
    pub at :
        h.command_table_base_address + h.command_table_base_address_upper * 2 ^ 32
        ≡ table_address page i

  pub record Filled (list i left : ℕ) (m : Memory) (f : F) (m' : Memory) : Type 0 where
    pub headers : (j : ℕ) → j < left → PointsTo (m'.headers list (i + j)) (page_given j f) (i + j)
    pub before : (j : ℕ) → j < i → m'.headers list j ≡ m.headers list j

  -- What one round does to the headers of the list.
  record Sets (list i page : ℕ) (m m' : Memory) : Type 0 where
    points : PointsTo (m'.headers list i) page i
    kept : (j : ℕ) → j < 32 → j ≢ i → m'.headers list j ≡ m.headers list j

  -- A table's page does not reach into the list.
  wiped-none :
      (page list j : ℕ)
      → page % 4096 ≡ 0
      → list % 4096 ≡ 0
      → page ≢ list
      → j < 32
      → wiped page 256 (list + j * 32) ≡ false
  wiped-none page list j whole whole' ne few = ground arith

  fill_header-Sets :
      (list i : ℕ) (m : Memory) (f : F)
      → list % 4096 ≡ 0
      → page_given 0 f % 4096 ≡ 0
      → page_given 0 f ≢ list
      → i < 32
      → Sets list i (page_given 0 f) m (fill_header source list i m f).0
  unfolding fill_header requested page_given table_address zero_bytes
  fill_header-Sets list i m f whole page_whole ne few =
      let page = (source.request_page f).1 in
      let here = wiped-none page list i page_whole whole ne few in
      record {
        points = rw here (record { entries = ground arith; at = ground arith });
        kept = λ j l away.
            let there = wiped-none page list j page_whole whole ne l in rw there (ground arith);
      }

  pub fill_headers-taken :
      (list left i : ℕ) (m : Memory) (f : F)
      → (fill_headers source list left i m f).1 ≡ requested left f
  unfolding fill_headers fill_header requested
  fill_headers-taken list zero i m f = refl
  fill_headers-taken list (suc left) i m f =
      let (m', f') = fill_header source list i m f in fill_headers-taken list left (i + 1) m' f'

  fill_headers-Filled :
      (list left i : ℕ) (m : Memory) (f : F)
      → list % 4096 ≡ 0
      → ((j : ℕ) → j < left → page_given j f % 4096 ≡ 0)
      → ((j : ℕ) → j < left → page_given j f ≢ list)
      → i + left ≤ 32
      → Filled list i left m f (fill_headers source list left i m f).0
  unfolding fill_headers requested page_given fill_header
  fill_headers-Filled list zero i m f whole wholes apart few = record {
    headers = λ j h. absurd (omega arith);
    before = λ j h. refl;
  }
  fill_headers-Filled list (suc left) i m f whole wholes apart few =
      let (m', f') = fill_header source list i m f in
      let now =
        fill_header-Sets list i m f whole (wholes 0 (omega arith)) (apart 0 (omega arith))
          (omega arith) in
      let rest =
        fill_headers-Filled list left (i + 1) m' f' whole (λ j l. wholes (suc j) (omega arith))
          (λ j l. apart (suc j) (omega arith)) (omega arith) in
      record {
        headers =
            headers (fill_headers source list left (i + 1) m' f').0 rest.headers
              (rest.before i (omega arith)) now.points;
        before = λ j h. rest.before j (omega arith) ∙ now.kept j (omega arith) (λ e. omega arith);
      }
    where
      headers :
          (m'' : Memory)
          → ((j : ℕ)
              → j < left
              → PointsTo (m''.headers list (i + 1 + j)) (page_given (suc j) f) (i + 1 + j))
          → m''.headers list i ≡ (fill_header source list i m f).0.headers list i
          → PointsTo ((fill_header source list i m f).0.headers list i) (page_given 0 f) i
          → (j : ℕ) → j < suc left
          → PointsTo (m''.headers list (i + j)) (page_given j f) (i + j)
      headers m'' rest same now zero h =
          let e : i ≡ i + 0 = omega arith in
          subst (λ (n : ℕ). PointsTo (m''.headers list n) (page_given 0 f) n) e
            (subst (λ (x : HbaCommandHeader). PointsTo x (page_given 0 f) i) (sym same) now)
      headers m'' rest same now (suc j) h =
          let e : i + 1 + j ≡ i + suc j = omega arith in
          subst (λ (n : ℕ). PointsTo (m''.headers list n) (page_given (suc j) f) n) e
            (rest j (omega arith))

  pub fill_headers-PointsTo :
      (list : ℕ) (m : Memory) (f : F)
      → list % 4096 ≡ 0
      → ((j : ℕ) → j < 32 → page_given j f % 4096 ≡ 0)
      → ((j : ℕ) → j < 32 → page_given j f ≢ list)
      → (j : ℕ) → j < 32
      → PointsTo ((fill_headers source list 32 0 m f).0.headers list j) (page_given j f) j
  fill_headers-PointsTo list m f whole wholes apart j h =
      let e : 0 + j ≡ j = omega arith in
      subst
        (λ (n : ℕ).
          PointsTo ((fill_headers source list 32 0 m f).0.headers list n) (page_given j f) n)
        e ((fill_headers-Filled list 32 0 m f whole wholes apart (omega arith)).headers j h)

-- The 256 bytes of the table of header `i` lie within its page for the first 16 headers only.
pub table_within :
    (page i : ℕ)
    → page % 4096 ≡ 0
    → page < 2 ^ 52
    → i < 32
    → (table_address page i + 256 ≤ page + 4096) ↔ (i < 16)
unfolding table_address
table_within page i whole low few = ((λ h. omega arith), (λ h. omega arith))
