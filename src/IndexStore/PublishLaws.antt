-- ===== src/IndexStore/PublishLaws.antt =====
-- The working copy is complete only when it was published.
use coinjoin_pipeline.Base.{
  ℕ, zero, suc, ◌≡◌, refl, sym, String, true, false, List, arith, leb, none, some, string_equality,
  nat_equality, list_eq, list_beq, list_beq_iff, get_elem?,
}
use coinjoin_pipeline.IndexStore.Copy.{
  IndexFile, WorkingCopy, Rows, rows, inventory, row_eq, lists_files, complete, begin_write,
  publish, copy_config, write_files, write_manifest, end_write,
}

pub inventory-lists : (listed : Rows) → list_beq listed listed ≡ true
inventory-lists listed = (list_beq_iff listed listed).1 refl

pub writing-incomplete : (copy : WorkingCopy) → copy.writing ≡ true → complete copy ≡ false
unfolding complete
writing-incomplete copy h = ground arith

published-complete :
    (files others : List IndexFile) (manifest : String)
    → complete (
        end_write (
          write_manifest manifest (
            write_files (record {
              files = files;
              others = others;
              files_txt = none;
              manifest = none;
              writing = true;
            }))))
      ≡ true
unfolding complete end_write write_manifest write_files lists_files inventory
published-complete files others manifest =
    ground (arith, inventory-lists (rows files), inventory-lists (rows others))

-- From `begin_write` until the last effect of `publish` the working copy is incomplete, whenever the
-- job is killed; after the last effect it is complete.
pub publish-complete :
    (config : IndexFile) (manifest : String) (copy killed : WorkingCopy) (n : ℕ)
    → get_elem? (publish config manifest (begin_write copy)) n ≡ some killed
    → complete killed ≡ leb 4 n
unfolding publish begin_write copy_config write_files write_manifest end_write
publish-complete config manifest copy killed zero h =
    let same : begin_write copy ≡ killed = cc h in writing-incomplete killed (rw (sym same) refl)
publish-complete config manifest copy killed (suc zero) h =
    let same : copy_config config (begin_write copy) ≡ killed = cc h in
    writing-incomplete killed (rw (sym same) refl)
publish-complete config manifest copy killed (suc (suc zero)) h =
    let same : write_files (copy_config config (begin_write copy)) ≡ killed = cc h in
    writing-incomplete killed (rw (sym same) refl)
publish-complete config manifest copy killed (suc (suc (suc zero))) h =
    let same : write_manifest manifest (write_files (copy_config config (begin_write copy)))
        ≡ killed =
      cc h in
    writing-incomplete killed (rw (sym same) refl)
publish-complete config manifest copy killed (suc (suc (suc (suc zero)))) h =
    let same : end_write
          (write_manifest manifest (write_files (copy_config config (begin_write copy))))
        ≡ killed =
      cc h in
    rw (sym same) (published-complete _ _ manifest)
publish-complete config manifest copy killed (suc (suc (suc (suc (suc n))))) h = cc h
