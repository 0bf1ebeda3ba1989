-- ===== src/MultiFileReader/Open/Ready.antt =====
-- `open` of vrs/MultiRecordFileReader.cpp where it succeeds: the loops behind the checks end, and
-- the reader stands for all the records.
use vrs.Base.{ℕ, suc, ◌≤◌, ◌≡◌, refl, sym, arith, true, false, inl, inr}
use vrs.Base.{some, List, [], ◌∷◌, Bool-cases, All, All-append, subst}
use vrs.Base.Sums.{SameElements}
use vrs.Base.Sorted.{IsSortedBy}
use vrs.StreamId.{StreamId, same}
use vrs.FileReader.{RecordInfo, is_empty}
use vrs.FileReader.Pointers.{same→≡}
use vrs.FileReader.Tags.{Text}
use vrs.MultiFileReader.{SourceReader, RecordPointer, UniqueIds, contains, has_single_file}
use vrs.MultiFileReader.Naming.{IsNamed}
use vrs.MultiFileReader.Naming.Total.{stream_count, AllNamed, initialize_unique_stream_ids-AllNamed}
use vrs.MultiFileReader.Merge.{time_of, record_pointers}
use vrs.MultiFileReader.Merge.Queue.{HasId}
use vrs.MultiFileReader.Merge.Index.{
  all_pointers, AllInOrder, create_consolidated_index-SameElements,
}
use vrs.MultiFileReader.Related.{are_files_related}
use vrs.MultiFileReader.Open.{
  Status, success, is_success, MultiReader, no_files, opening, open_specs, index_files,
}
use vrs.MultiFileReader.Open.Failed.{can_open}

-- Each record of the file's index is of a stream that the file lists.
abbrev pub IsListed : SourceReader → Type 0
IsListed r =
    All (λ (i : RecordInfo). contains i.stream_id r.file_reader.stream_ids ≡ true)
      r.file_reader.record_index

IsNamed-contains :
    (known : UniqueIds) (k : ℕ) (id : StreamId) (ids : List StreamId)
    → All (IsNamed known k) ids
    → contains id ids ≡ true
    → IsNamed known k id
IsNamed-contains known k id [] h e = absurd (ground arith)
IsNamed-contains known k id (x ∷ ids) h e = elim (Bool-cases (same id x)) [
  | inl f ↦ subst (IsNamed known k) (sym (same→≡ id x f)) h.0
  | inr f ↦ IsNamed-contains known k id ids h.1 (ground arith)
]

record_pointers-HasId :
    (known : UniqueIds) (k : ℕ) (ids : List StreamId) (records : List RecordInfo) (i : ℕ)
    → All (IsNamed known k) ids
    → All (λ (r : RecordInfo). contains r.stream_id ids ≡ true) records
    → All (HasId known) (record_pointers k records i)
record_pointers-HasId known k ids [] i n h = tt
record_pointers-HasId known k ids (r ∷ records) i n h = (
  IsNamed-contains known k r.stream_id ids n h.0,
  record_pointers-HasId known k ids records (suc i) n h.1,
)

all_pointers-HasId :
    (known : UniqueIds) (k : ℕ) (readers : List SourceReader)
    → AllNamed known k readers
    → All IsListed readers
    → All (HasId known) (all_pointers k readers)
unfolding AllNamed
all_pointers-HasId known k [] n h = tt
all_pointers-HasId known k (r ∷ rest) n h =
    All-append (HasId known) (record_pointers k r.file_reader.record_index 0)
      (all_pointers (suc k) rest)
      (record_pointers-HasId known k r.file_reader.stream_ids r.file_reader.record_index 0 n.0 h.0)
      (all_pointers-HasId known (suc k) rest n.1 h.1)

-- The reader is open on several files: its index is in the order of the timestamps and holds
-- exactly the records of all of them, and each stream has a unique id.
pub record IsOpened (files : List SourceReader) (m : MultiReader) : Type 0 where
  pub opened : m.is_opened ≡ true
  pub has_files : m.readers ≡ files
  pub index : List RecordPointer
  pub has_index : m.record_index ≡ some index
  pub sorted : IsSortedBy time_of index
  pub held : SameElements index (all_pointers 0 files)
  pub named : AllNamed m.unique_ids 0 files

module _ {FileSpec : Type 0} (open_file : FileSpec → Status × SourceReader)
    (close_file : SourceReader → Status) (get_easy_path : FileSpec → Text) where
  -- The readers of the files of a list.
  abbrev pub files_of : List FileSpec → List SourceReader
  files_of specs = (opening open_file close_file get_easy_path specs no_files).readers

  index_files-IsOpened :
      (m : MultiReader)
      → m.unique_ids ≡ no_files.unique_ids
      → has_single_file m.readers ≡ false
      → stream_count m.readers ≤ 65536
      → AllInOrder m.readers
      → All IsListed m.readers
      → (m' : MultiReader) × (index_files open_file close_file get_easy_path m ≡ some (success, m'))
        × IsOpened m.readers m'
  unfolding index_files
  index_files-IsOpened m fresh several few ordered listed =
      let (known, named_all, named) = initialize_unique_stream_ids-AllNamed m.readers several few in
      let (index, merged, sorted, held) =
        create_consolidated_index-SameElements known m.readers several
          (all_pointers-HasId known 0 m.readers named listed) ordered in
      rw (fresh, named_all, merged)
        (
          _,
          refl,
          record {
            opened = refl;
            has_files = refl;
            index = index;
            has_index = refl;
            sorted = sorted;
            held = held;
            named = named;
          },
        )

  -- A fresh reader opens several related files, each with its index in the order of the
  -- timestamps and with records of its own streams only, with at most 65536 streams in all: `open`
  -- ends with SUCCESS and the reader is open, its index is in the order of the timestamps and holds
  -- exactly the records of all the files, and each stream of each file has a unique id, which leads
  -- back to it.
  pub open_specs-IsOpened :
      (specs : List FileSpec)
      → is_empty specs ≡ false
      → can_open open_file close_file get_easy_path specs no_files ≡ true
      → has_single_file (files_of specs) ≡ false
      → stream_count (files_of specs) ≤ 65536
      → AllInOrder (files_of specs)
      → All IsListed (files_of specs)
      → (m : MultiReader) × (open_specs open_file close_file get_easy_path specs no_files
          ≡ some (success, m))
        × IsOpened (files_of specs) m
  unfolding open_specs
  open_specs-IsOpened specs given good several few ordered listed =
      let o = opening open_file close_file get_easy_path specs no_files in
      let all_open : is_success o.status ≡ true = ground arith in
      let related : are_files_related o.readers ≡ true = ground arith in
      rw (given, all_open, related)
        (index_files-IsOpened (record no_files { readers = o.readers; file_paths = o.file_paths })
          refl several few ordered listed)
