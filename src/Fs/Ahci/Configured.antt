-- ===== src/Fs/Ahci/Configured.antt =====
-- A port that is configured, on a device that remembers where its command list is.
use ryanos.Prelude.{
  ℕ, suc, ◌+◌, ◌*◌, ◌%◌, ◌^◌, ◌<◌, ◌≡◌, ◌≢◌, ap, ◌∙◌, some, arith, u32, u64, ◌>>>◌, ◌<<<◌,
}
use mathlib.Core.Path.{subst}
use ryanos.Memory.PageTables.{PageSource}
use ryanos.Fs.Ahci.{
  Hba, Register, command_list_base, command_list_base_upper, fis_base_address,
  fis_base_address_upper, Memory,
}
use ryanos.Fs.Ahci.Configure.{
  set_bases, stop_cmd, start_cmd, configure, configure_stopped, with_device, fill_headers,
  zero_bytes,
}
use ryanos.Fs.Ahci.Headers.{
  requested, page_given, PointsTo, fill_headers-taken, fill_headers-PointsTo,
}

-- The two words of the list's address are kept as they were written, whatever else is done.
pub record Remembers {D : Type 0} (hba : Hba D) : Type 0 where
  pub base : D → ℕ
  pub upper : D → ℕ
  pub base_read : (d : D) → (hba.read_register command_list_base d).1 ≡ base d
  pub upper_read : (d : D) → (hba.read_register command_list_base_upper d).1 ≡ upper d
  pub base_put :
      (v : ℕ) (m : Memory) (d : D)
      → v % 1024 ≡ 0
      → base (hba.write_register command_list_base v m d) ≡ v
  pub upper_put :
      (v : ℕ) (m : Memory) (d : D) → upper (hba.write_register command_list_base_upper v m d) ≡ v
  pub base_kept :
      (r : Register) (v : ℕ) (m : Memory) (d : D)
      → r ≢ command_list_base
      → base (hba.write_register r v m d) ≡ base d
  pub upper_kept :
      (r : Register) (v : ℕ) (m : Memory) (d : D)
      → r ≢ command_list_base_upper
      → upper (hba.write_register r v m d) ≡ upper d
  pub gets_keep :
      (r : Register) (d : D)
      → (base (hba.read_register r d).0 ≡ base d) × (upper (hba.read_register r d).0 ≡ upper d)

module _ {D : Type 0} (hba : Hba D) (law : Remembers hba) where
  -- The two words of the list's address are read back after the other writes.
  read_back :
      (low high fis fis' : ℕ) (m m₁ : Memory) (d : D)
      → low % 1024 ≡ 0
      → (let d₂ =
            hba.write_register command_list_base_upper high m
              (hba.write_register command_list_base low m d) in
          let d₃ = (hba.read_register command_list_base d₂).0 in
          let d₅ =
            hba.write_register fis_base_address_upper fis' m₁
              (hba.write_register fis_base_address fis m₁ d₃) in
          (law.base d₅ ≡ low) × (law.upper d₅ ≡ high))
  read_back low high fis fis' m m₁ d whole =
      let d₁ = hba.write_register command_list_base low m d in
      let d₂ = hba.write_register command_list_base_upper high m d₁ in
      let d₃ = (hba.read_register command_list_base d₂).0 in
      let d₄ = hba.write_register fis_base_address fis m₁ d₃ in
      (
        law.base_kept fis_base_address_upper fis' m₁ d₄ (λ z. cc)
            ∙ law.base_kept fis_base_address fis m₁ d₃ (λ z. cc)
            ∙ (law.gets_keep command_list_base d₂).0
            ∙ law.base_kept command_list_base_upper high m d₁ (λ z. cc)
            ∙ law.base_put low m d whole,
        law.upper_kept fis_base_address_upper fis' m₁ d₄ (λ z. cc)
            ∙ law.upper_kept fis_base_address fis m₁ d₃ (λ z. cc)
            ∙ (law.gets_keep command_list_base d₂).1
            ∙ law.upper_put high m d₁,
      )

module _ {D F : Type 0} (hba : Hba D) (law : Remembers hba) (source : PageSource F) where
  -- Each of the 32 headers of the list in the first page points to its own page.
  pub record Configured (f : F) (d' : D) (m' : Memory) (f' : F) : Type 0 where
    pub list_at : law.base d' + law.upper d' * 2 ^ 32 ≡ page_given source 0 f
    pub points :
        (j : ℕ)
        → j < 32
        → PointsTo source
            (m'.headers (page_given source 0 f) j)
            (page_given source (suc (suc j)) f)
            j
    pub taken : f' ≡ requested source 34 f

  -- The pages of the tables are whole and are not the page of the list.
  abbrev pub Apart : F → Type 0
  Apart f =
      (j : ℕ)
      → j < 32
      → (page_given source (suc (suc j)) f % 4096 ≡ 0)
        × (page_given source (suc (suc j)) f ≢ page_given source 0 f)

  set_bases-Configured :
      (d : D) (m : Memory) (f : F)
      → page_given source 0 f % 4096 ≡ 0
      → page_given source 0 f < 2 ^ 64
      → Apart f
      → (let (d', m', f') = set_bases hba source d m f in Configured f d' m' f')
  unfolding set_bases requested page_given
  set_bases-Configured d m f whole low apart =
      let (f₁, new_base) = source.request_page f in
      let base_low = u32 new_base in
      let base_high = u32 (new_base >>> 32) in
      let d₂ =
        hba.write_register command_list_base_upper base_high m
          (hba.write_register command_list_base base_low m d) in
      let (d₃, list) = hba.read_register command_list_base d₂ in
      let m₁ = zero_bytes list 1024 m in
      let (f₂, fis_base) = source.request_page f₁ in
      let d₅ =
        hba.write_register fis_base_address_upper (u32 (fis_base >>> 32)) m₁
          (hba.write_register fis_base_address (u32 fis_base) m₁ d₃) in
      let m₂ = zero_bytes fis_base 256 m₁ in
      let (d₆, list_low) = hba.read_register command_list_base d₅ in
      let (d₇, list_high) = hba.read_register command_list_base_upper d₆ in
      let (base₅, upper₅) =
        read_back hba law base_low base_high (u32 fis_base) (u32 (fis_base >>> 32)) m m₁ d
          (omega arith) in
      let upper₆ = (law.gets_keep command_list_base d₅).1 ∙ upper₅ in
      let low_read : list_low ≡ base_low = law.base_read d₅ ∙ base₅ in
      let high_read : list_high ≡ base_high = law.upper_read d₆ ∙ upper₆ in
      let base₇ : law.base d₇ ≡ base_low =
        (law.gets_keep command_list_base_upper d₆).0
        ∙ (law.gets_keep command_list_base d₅).0
        ∙ base₅ in
      let upper₇ : law.upper d₇ ≡ base_high =
        (law.gets_keep command_list_base_upper d₆).1 ∙ upper₆ in
      joined d₇ list_low list_high m₂ f low_read high_read base₇ upper₇ whole low apart
    where
      joined :
          (d₇ : D) (list_low list_high : ℕ) (m₂ : Memory) (f : F)
          → list_low ≡ u32 (page_given source 0 f)
          → list_high ≡ u32 (page_given source 0 f >>> 32)
          → law.base d₇ ≡ u32 (page_given source 0 f)
          → law.upper d₇ ≡ u32 (page_given source 0 f >>> 32)
          → page_given source 0 f % 4096 ≡ 0
          → page_given source 0 f < 2 ^ 64
          → Apart f
          → (let (m₃, f₃) =
                fill_headers source
                  (u64 (list_low + (list_high <<< 32)))
                  32
                  0
                  m₂
                  (requested source 2 f) in
              Configured f d₇ m₃ f₃)
      joined d₇ list_low list_high m₂ f low_read high_read base₇ upper₇ whole low apart =
          let list = u64 (list_low + (list_high <<< 32)) in
          let at : list ≡ page_given source 0 f = omega arith in
          let m₃ = (fill_headers source list 32 0 m₂ (requested source 2 f)).0 in
          record {
            list_at = omega arith;
            points = λ j h.
                subst
                  (λ (l : ℕ).
                    PointsTo source (m₃.headers l j) (page_given source (suc (suc j)) f) j)
                  at
                  (fill_headers-PointsTo source list m₂ (requested source 2 f)
                    (let e = at in omega arith) (λ k l. (apart k l).0)
                    (λ k l e. (apart k l).1 (e ∙ at)) j h);
            taken = fill_headers-taken source list 32 0 m₂ (requested source 2 f);
          }

  -- For a device that remembers its command list and whose waits end within the fuel, and an allocator whose next
  -- page is whole and below 2^64, and gives 32 whole pages other than it for the tables: the port is
  -- configured, and no `memset` has wiped a header of the list.
  pub configure-Configured :
      (fuel : ℕ) (d : D) (m : Memory) (f : F)
      → page_given source 0 f % 4096 ≡ 0
      → page_given source 0 f < 2 ^ 64
      → Apart f
      → ((m' : Memory) (e : D) → (e' : D) × (stop_cmd hba fuel m' e ≡ some e'))
      → ((m' : Memory) (e : D)
          → (e' : D) × (start_cmd hba fuel m' e ≡ some e')
            × (law.base e' ≡ law.base e)
            × (law.upper e' ≡ law.upper e))
      → (d' : D) × (m' : Memory) × (f' : F) × (configure hba source fuel d m f ≡ some (d', m', f'))
        × Configured f d' m' f'
  unfolding configure configure_stopped with_device
  configure-Configured fuel d m f whole low apart stops starts =
      let (d₁, stopped) = stops m d in
      let set = set_bases-Configured d₁ m f whole low apart in
      let (d₂, m', f') = set_bases hba source d₁ m f in
      let (d₃, started, same_base, same_upper) = starts m' d₂ in
      (
        d₃,
        m',
        f',
        ap (configure_stopped hba source fuel m f) stopped ∙ ap (with_device m' f') started,
        record {
          list_at = omega (arith, same_base, same_upper, set.list_at);
          points = set.points;
          taken = set.taken;
        },
      )
