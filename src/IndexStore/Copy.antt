-- ===== src/IndexStore/Copy.antt =====
-- execution/pbs/index_store.py: the working copy of the index. Files stand in the order in which
-- `inventory` sorts their rows, the local manifest is its text. The calls of `publish` that change
-- the copy are effects, one after the other, and a killed job has done the first ones.
use coinjoin_pipeline.Base.{
  ℕ, ◌≡◌, ◌↔◌, String, Bool, true, false, List, [], ◌∷◌, arith, if◌then◌else◌, Option, none, some,
  ◌==◌, string_equality, not, ◌&&◌, is_some, nat_equality, Equality, list_eq, list_beq,
}

pub record IndexFile : Type 0 where
  pub path : String
  pub size : ℕ
  pub content : String

abbrev pub Rows : Type 0
Rows = List (String × ℕ)

-- `files` are `parsed/` and `config.json`, `others` the other regular files that `inventory` lists.
pub record WorkingCopy : Type 0 where
  pub files : List IndexFile
  pub others : List IndexFile
  pub files_txt : Option (Rows × Rows)
  pub manifest : Option String
  pub writing : Bool

unfoldable pub rows : List IndexFile → Rows
rows [] = []
rows (file ∷ files) = (file.path, file.size) ∷ rows files

-- The sorted rows, as those of `files` and those of `others`.
unfoldable pub inventory : WorkingCopy → Rows × Rows
unfolding rows
inventory copy = (rows copy.files, rows copy.others)

abbrev row_beq : String × ℕ → String × ℕ → Bool
row_beq a b = a.0 == b.0 && a.1 == b.1

pub row_beq_iff : (a b : String × ℕ) → (row_beq a b ≡ true) ↔ (a ≡ b)
row_beq_iff a b =
    ground (arith, string_equality.equals_iff a.0 b.0, nat_equality.equals_iff a.1 b.1)

instance abbrev pub row_eq : Equality (String × ℕ)
row_eq = record { equals = row_beq; equals_iff = row_beq_iff }

-- `inventory(self.path) == files.read_text()`, where the file exists
unfoldable pub lists_files : WorkingCopy → Option (Rows × Rows) → Bool
unfolding inventory list_beq
lists_files copy none = false
lists_files copy (some listed) = (inventory copy).0 == listed.0 && (inventory copy).1 == listed.1

unfoldable pub complete : WorkingCopy → Bool
unfolding lists_files
complete copy = is_some copy.manifest && not copy.writing && lists_files copy copy.files_txt

unfoldable pub begin_write : WorkingCopy → WorkingCopy
begin_write copy = record {
  files = copy.files;
  others = copy.others;
  files_txt = copy.files_txt;
  manifest = copy.manifest;
  writing = true;
}

-- `shutil.copyfile(config, self.path / "config.json")`
unfoldable pub put_file : IndexFile → List IndexFile → List IndexFile
put_file new [] = new ∷ []
put_file new (file ∷ files) =
    let rest = put_file new files in if file.path == new.path then new ∷ files else file ∷ rest

unfoldable pub copy_config : IndexFile → WorkingCopy → WorkingCopy
unfolding put_file
copy_config config copy = record {
  files = put_file config copy.files;
  others = copy.others;
  files_txt = copy.files_txt;
  manifest = copy.manifest;
  writing = copy.writing;
}

unfoldable pub write_files : WorkingCopy → WorkingCopy
unfolding inventory
write_files copy = record {
  files = copy.files;
  others = copy.others;
  files_txt = some (inventory copy);
  manifest = copy.manifest;
  writing = copy.writing;
}

unfoldable pub write_manifest : String → WorkingCopy → WorkingCopy
write_manifest manifest copy = record {
  files = copy.files;
  others = copy.others;
  files_txt = copy.files_txt;
  manifest = some manifest;
  writing = copy.writing;
}

unfoldable pub end_write : WorkingCopy → WorkingCopy
end_write copy = record {
  files = copy.files;
  others = copy.others;
  files_txt = copy.files_txt;
  manifest = copy.manifest;
  writing = false;
}

-- The states after each effect of `publish`, the first one before it.
unfoldable pub publish : IndexFile → String → WorkingCopy → List WorkingCopy
unfolding copy_config write_files write_manifest end_write
publish config manifest copy =
    let configured = copy_config config copy in
    let listed = write_files configured in
    let described = write_manifest manifest listed in
    copy ∷ configured ∷ listed ∷ described ∷ end_write described ∷ []
