-- ===== src/Memory/PageTables.antt =====
-- memory/page_table_manager.cpp: the four levels of page tables, as a store that has for each table's
-- address its 512 entries. The page allocator is the parameter `source`; where it gives NULL, the
-- code clears and links the page at 0, and so does the model.
pub mod Entry
pub mod Tree
pub mod Step
pub mod Translate
pub mod Last
pub mod Map
pub mod Frames
pub mod Tests
use ryanos.Prelude.{
  ℕ, ◌+◌, ◌-◌, ◌*◌, ◌/◌, ◌^◌, Bool, true, false, Option, none, some, ◌==◌, if◌then◌else◌, u64,
  update, ◌<<<◌, ◌>>>◌,
}
use ryanos.Memory.Paging.{
  present, read_write, PageDirectoryEntry, set_flag, get_flag, get_address, set_address,
}
use ryanos.Memory.PageMapIndexer.{PageMapIndexer, page_map_indexer}

abbrev pub Tables : Type 0
Tables = ℕ → ℕ → ℕ

-- What `global_allocator.request_page` does to a state of the allocator.
pub record PageSource (F : Type 0) : Type 0 where
  pub request_page : F → F × ℕ

abbrev pub entry : ℕ → PageDirectoryEntry
entry n = record { value = n }

unfoldable pub is_present : ℕ → Bool
is_present e = get_flag (entry e) present

-- `PDE.get_address() << 12`
unfoldable pub target : ℕ → ℕ
target e = u64 (get_address (entry e) <<< 12)

-- The entry after `set_address(page >> 12)` and the two flags.
unfoldable pub link : ℕ → ℕ → ℕ
link e page =
    let PDE = set_address (entry e) (page >>> 12) in
    (set_flag (set_flag PDE present true) read_write true).value

-- `table->entries[index] = value`
unfoldable pub store : ℕ → ℕ → ℕ → Tables → Tables
store table index value t = update t table (update (t table) index value)

-- `memset(table, 0, 0x1000)`
unfoldable pub clear : ℕ → Tables → Tables
clear table t = update t table (λ i. 0)

module _ {F : Type 0} (source : PageSource F) where
  -- One level: the table that the entry leads to, which is made if there is none.
  unfoldable pub next_table : ℕ → ℕ → Tables → F → Tables × F × ℕ
  unfolding is_present target link store clear
  next_table table index t f =
      let PDE = t table index in
      let (f', page) = source.request_page f in
      if is_present PDE
      then (t, f, target PDE)
      else (store table index (link PDE page) (clear page t), f', page)

  unfoldable pub map_memory : ℕ → ℕ → ℕ → Tables → F → Tables × F
  unfolding link store
  map_memory PML4_address virtual_memory physical_memory t f =
      let indexer = page_map_indexer virtual_memory in
      let (t₁, f₁, PDP) = next_table PML4_address indexer.pdp_i t f in
      let (t₂, f₂, PD) = next_table PDP indexer.pd_i t₁ f₁ in
      let (t₃, f₃, PT) = next_table PD indexer.pt_i t₂ f₂ in
      (store PT indexer.p_i (link (t₃ PT indexer.p_i) physical_memory) t₃, f₃)

-- NULL is `none`: the code's NULL cannot be told from a table at 0, which its callers reject.
unfoldable pub get_page_table_entry_from_table : ℕ → ℕ → Tables → Option ℕ
unfolding is_present target
get_page_table_entry_from_table table index t =
    let PDE = t table index in
    if is_present PDE then (if target PDE == 0 then none else some (target PDE)) else none

-- The place of the entry: its table and its index there.
unfoldable pub get_page_table_entry : ℕ → ℕ → Tables → Option (ℕ × ℕ)
get_page_table_entry PML4_address virtual_address t =
    let indexer = page_map_indexer virtual_address in
    elim (get_page_table_entry_from_table PML4_address indexer.pdp_i t) [
      | none ↦ none
      | some PDP ↦ elim (get_page_table_entry_from_table PDP indexer.pd_i t) [
        | none ↦ none
        | some PD ↦ elim (get_page_table_entry_from_table PD indexer.pt_i t) [
          | none ↦ none
          | some PT ↦ some (PT, indexer.p_i)
        ]
      ]
    ]
