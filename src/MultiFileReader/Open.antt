-- ===== src/MultiFileReader/Open.antt =====
-- `MultiRecordFileReader::open` and `close` of vrs/MultiRecordFileReader.cpp, and the state of the
-- reader. What `RecordFileReader::openFile` and `closeFile` do with a file is a parameter.
use vrs.Base.{ℕ, Bool, true, false, ◌&&◌, not, if◌then◌else◌, ◌>>=◌, ◌==◌}
use vrs.Base.{Option, none, some, List, [], ◌∷◌, ◌++◌}
use vrs.FileReader.{is_empty}
use vrs.FileReader.Tags.{Text, Tags, same_text}
use vrs.MultiFileReader.{
  SourceReader, RecordPointer, UniqueIds, no_unique_ids, initialize_unique_stream_ids,
}
use vrs.MultiFileReader.Merge.{create_consolidated_index}
use vrs.MultiFileReader.Related.{are_files_related}
pub mod Failed
pub mod Ready

-- The status codes that the reader itself returns, and a file's own.
pub data Status : Type 0 where
  success no_file_open invalid_request : Status
  file_error : ℕ → Status

abbrev pub is_success : Status → Bool
is_success success = true
is_success status = false

pub record MultiReader : Type 0 where
  pub is_opened : Bool
  pub readers : List SourceReader
  -- a null pointer is `none`
  pub record_index : Option (List RecordPointer)
  pub unique_ids : UniqueIds
  pub file_paths : List Text
  pub file_tags : Tags

-- A reader as its constructor leaves it, and as `close` does.
abbrev pub no_files : MultiReader
no_files = record {
  is_opened = false;
  readers = [];
  record_index = none;
  unique_ids = no_unique_ids;
  file_paths = [];
  file_tags = [];
}

abbrev has_tag : Text → Tags → Bool
has_tag name [] = false
has_tag name ((key, value) ∷ rest) = if same_text key name then true else has_tag name rest

-- `fileTags_.insert(...)`: a tag that is there keeps its value.
unfoldable pub insert_tags : Tags → Tags → Tags
insert_tags tags [] = tags
insert_tags tags ((key, value) ∷ rest) =
    insert_tags (if has_tag key tags then tags else tags ++ ((key, value) ∷ [])) rest

-- `initializeFileTags`
unfoldable pub initialize_file_tags : List SourceReader → Tags → Tags
unfolding insert_tags
initialize_file_tags [] tags = tags
initialize_file_tags (r ∷ rest) tags = initialize_file_tags rest (insert_tags tags r.file_tags)

-- What the loop of `open` leaves: the status of the last file, the readers and the paths.
pub record Opening : Type 0 where
  pub status : Status
  pub readers : List SourceReader
  pub file_paths : List Text

module _ {FileSpec : Type 0} (open_file : FileSpec → Status × SourceReader)
    (close_file : SourceReader → Status) (get_easy_path : FileSpec → Text) where
  -- The loop over the readers in `close`.
  unfoldable pub close_files : List SourceReader → Status → Status
  close_files [] result_final = result_final
  close_files (r ∷ rest) result_final =
      close_files rest (if is_success result_final then close_file r else result_final)

  unfoldable pub close : MultiReader → Status × MultiReader
  unfolding close_files
  close m = if m.is_opened then (close_files m.readers success, no_files) else (no_file_open, m)

  -- The loop of `open`. A reader that does not open its file stays in the list.
  unfoldable pub open_files : List FileSpec → Opening → Opening
  open_files [] o = o
  open_files (spec ∷ rest) o =
      let (status, reader) = open_file spec in
      let readers = o.readers ++ (reader ∷ []) in
      let later = open_files rest (record {
        status = success;
        readers = readers;
        file_paths = o.file_paths ++ (get_easy_path spec ∷ []);
      }) in
      if is_success status
      then later
      else record { status = status; readers = readers; file_paths = o.file_paths }

  -- The part of `open` behind the check that the files are related.
  unfoldable pub index_files : MultiReader → Option (Status × MultiReader)
  index_files m = do
    known ← initialize_unique_stream_ids m.readers m.unique_ids
    index ← create_consolidated_index known m.readers
    some (
      success,
      record m {
        is_opened = true;
        record_index = index;
        unique_ids = known;
        file_tags = initialize_file_tags m.readers m.file_tags;
      },
    )

  -- `return status` behind `close()`, whose own status is dropped
  abbrev pub fail : Status → MultiReader → Option (Status × MultiReader)
  fail status m = let (ignored, m') = close m in some (status, m')

  -- The files that `open` opens, and the reader with them.
  abbrev pub opening : List FileSpec → MultiReader → Opening
  opening specs m =
      open_files specs (record { status = success; readers = m.readers; file_paths = m.file_paths })

  abbrev pub with_files : Opening → MultiReader → MultiReader
  with_files o m = record m { readers = o.readers; file_paths = o.file_paths }

  -- `none` is an exception, or a loop of `generateUniqueStreamId` without an end.
  unfoldable pub open_specs : List FileSpec → MultiReader → Option (Status × MultiReader)
  unfolding close index_files
  open_specs specs m =
      if is_empty specs
      then some (invalid_request, m)
      else if not (is_empty m.readers)
      then some (invalid_request, m)
      else (let o = opening specs m in
          if not (is_success o.status)
          then fail o.status (with_files o m)
          else if are_files_related o.readers
          then index_files (with_files o m)
          else fail invalid_request (with_files o m))
