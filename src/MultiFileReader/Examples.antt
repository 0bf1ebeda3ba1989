-- ===== src/MultiFileReader/Examples.antt =====
-- Two files read as one, and the theorems about them at concrete inputs.
use vrs.Base.{ℕ, ◌≡◌, refl, arith, true, false, ◌↔◌, ◌==◌, if◌then◌else◌}
use vrs.Base.{some, List, [], ◌∷◌, All}
use vrs.Base.Sums.{SameElements}
use vrs.Base.Sorted.{IsSortedBy}
use vrs.StreamId.{StreamId}
use vrs.Record.{data_type}
use vrs.FileReader.{RecordInfo}
use vrs.FileReader.Tags.{Text, Tags, get_tag}
use vrs.MultiFileReader.{
  SourceReader, RecordPointer, UniqueIds, generate_unique_stream_id, no_unique_ids,
  initialize_unique_stream_ids, add_readers, add_streams, assign, emplace_unique, unique_of,
  get_stream_id_reader_pair,
}
use vrs.MultiFileReader.Fresh.{IsFree, generate_unique_stream_id-IsFree}
use vrs.MultiFileReader.Naming.{IsNamed}
use vrs.MultiFileReader.Naming.Total.{AllNamed, initialize_unique_stream_ids-AllNamed}
use vrs.MultiFileReader.Merge.{
  time_of, time_less_than, emplace, add_index, add_indexes, emplace_next, merge,
  create_consolidated_index,
}
use vrs.MultiFileReader.Merge.Queue.{HasId}
use vrs.MultiFileReader.Merge.Index.{all_pointers, create_consolidated_index-SameElements}
use vrs.MultiFileReader.Related.{
  session_id, related_file_tags, tag_matches, are_files_related, AllCompatible,
}
use vrs.MultiFileReader.Related.Compatible.{are_files_related-AllCompatible}
use vrs.MultiFileReader.Open.{
  Status, success, invalid_request, file_error, is_success, MultiReader, no_files, insert_tags,
  initialize_file_tags, open_files, open_specs,
}
use vrs.MultiFileReader.Open.Failed.{open_specs-open_specs_failed}
use vrs.MultiFileReader.Open.Ready.{IsOpened, open_specs-IsOpened}
use vrs.MultiFileReader.Lookup.{get_record_by_time}
use vrs.MultiFileReader.Lookup.ByTime.{IsFirst, get_record_by_time-IsFirst}

abbrev camera : StreamId
camera = record { type_id = 200; instance_id = 1 }

abbrev camera_2 : StreamId
camera_2 = record { type_id = 200; instance_id = 2 }

abbrev info : StreamId → ℕ → ℕ → RecordInfo
info id time offset = record {
  timestamp = time;
  file_offset = offset;
  stream_id = id;
  record_type = data_type;
}

abbrev file : List StreamId → List RecordInfo → Tags → SourceReader
file ids records tags = record {
  file_reader = record {
    stream_ids = ids;
    record_index = records;
    stream_index = [];
    last_request = [];
  };
  file_tags = tags;
  stream_tags = [];
  source_size = 1000;
}

abbrev left : SourceReader
left =
    file (camera ∷ camera_2 ∷ []) (info camera 2 100 ∷ info camera_2 5 200 ∷ info camera 9 300 ∷ [])
      ((session_id, b'a' ∷ []) ∷ [])

abbrev right : SourceReader
right = file (camera ∷ []) (info camera 5 100 ∷ info camera 7 200 ∷ []) []

abbrev other : SourceReader
other = file (camera ∷ []) (info camera 6 100 ∷ []) ((session_id, b'b' ∷ []) ∷ [])

abbrev both : List SourceReader
both = left ∷ right ∷ []

-- The colliding stream of the second file gets the next instance id that is free.
collision :
    generate_unique_stream_id (camera ∷ camera_2 ∷ []) camera
    ≡ some (record { type_id = 200; instance_id = 3 })
unfolding generate_unique_stream_id
collision = refl

generate_unique_stream_id-IsFree_example :
    (free : StreamId) × (generate_unique_stream_id (camera ∷ camera_2 ∷ []) camera ≡ some free)
    × IsFree (camera ∷ camera_2 ∷ []) camera free
generate_unique_stream_id-IsFree_example =
    generate_unique_stream_id-IsFree (camera ∷ camera_2 ∷ []) camera (omega arith)

initialize_unique_stream_ids-AllNamed_example :
    (known : UniqueIds) × (initialize_unique_stream_ids both no_unique_ids ≡ some known)
    × AllNamed known 0 both
initialize_unique_stream_ids-AllNamed_example =
    initialize_unique_stream_ids-AllNamed both refl (omega arith)

abbrev named : UniqueIds
named = record {
  ids = camera ∷ camera_2 ∷ record { type_id = 200; instance_id = 3 } ∷ [];
  by_stream =
      record { reader = 0; stream_id = camera; unique_id = camera }
      ∷ record { reader = 0; stream_id = camera_2; unique_id = camera_2 }
      ∷ record {
        reader = 1;
        stream_id = camera;
        unique_id = record { type_id = 200; instance_id = 3 };
      }
      ∷ [];
  by_unique =
      record { reader = 0; stream_id = camera; unique_id = camera }
      ∷ record { reader = 0; stream_id = camera_2; unique_id = camera_2 }
      ∷ record {
        reader = 1;
        stream_id = camera;
        unique_id = record { type_id = 200; instance_id = 3 };
      }
      ∷ [];
}

named_both : initialize_unique_stream_ids both no_unique_ids ≡ some named
unfolding initialize_unique_stream_ids add_readers add_streams generate_unique_stream_id assign
    emplace_unique
named_both = refl

both-AllNamed : AllNamed named 0 both
unfolding AllNamed unique_of get_stream_id_reader_pair
both-AllNamed =
    let first : IsNamed named 0 camera = record { unique = camera; forth = refl; back = refl } in
    let second : IsNamed named 0 camera_2 = record {
      unique = camera_2;
      forth = refl;
      back = refl;
    } in
    let third : IsNamed named 1 camera = record {
      unique = record { type_id = 200; instance_id = 3 };
      forth = refl;
      back = refl;
    } in
    ((first, (second, tt)), ((third, tt), tt))

both-HasId : All (HasId named) (all_pointers 0 both)
unfolding AllNamed
both-HasId = let n = both-AllNamed in (n.0.0, (n.0.1.0, (n.0.0, (n.1.0.0, (n.1.0.0, tt)))))

create_consolidated_index-SameElements_example :
    (index : List RecordPointer) × (create_consolidated_index named both ≡ some (some index))
    × IsSortedBy time_of index
    × SameElements index (all_pointers 0 both)
create_consolidated_index-SameElements_example =
    create_consolidated_index-SameElements named both refl both-HasId (omega arith)

are_files_related-AllCompatible_example :
    (are_files_related both ≡ true) ↔ All (λ (tag : Text). AllCompatible tag both) related_file_tags
are_files_related-AllCompatible_example = are_files_related-AllCompatible both

-- A file is named by a number: 0 and 1 are the two files, 2 is one of another session, and there is
-- no more.
abbrev open_file : ℕ → Status × SourceReader
open_file spec =
    if spec == 0
    then (success, left)
    else if spec == 1
    then (success, right)
    else if spec == 2
    then (success, other)
    else (file_error 9, other)

abbrev close_file : SourceReader → Status
close_file r = success

abbrev path_of : ℕ → Text
path_of spec = spec ∷ []

open_specs-open_specs_failed_example :
    (status : Status) × (m : MultiReader) × (open_specs open_file close_file path_of
        (0 ∷ 2 ∷ [])
        no_files
      ≡ some (status, m))
    × (is_success status ≡ false)
    × (m.is_opened ≡ false)
    × (open_specs open_file close_file path_of (0 ∷ 1 ∷ []) m ≡ some (invalid_request, m))
unfolding open_files are_files_related tag_matches get_tag
open_specs-open_specs_failed_example =
    open_specs-open_specs_failed open_file close_file path_of (0 ∷ 2 ∷ []) (0 ∷ 1 ∷ []) no_files
      refl refl refl refl

open_specs-IsOpened_example :
    (m : MultiReader) × (open_specs open_file close_file path_of (0 ∷ 1 ∷ []) no_files
      ≡ some (success, m))
    × IsOpened both m
unfolding open_files are_files_related tag_matches get_tag
open_specs-IsOpened_example =
    open_specs-IsOpened open_file close_file path_of (0 ∷ 1 ∷ []) refl refl refl (omega arith)
      (omega arith) ((refl, (refl, (refl, tt))), ((refl, (refl, tt)), tt))

abbrev place : ℕ → ℕ → RecordInfo → RecordPointer
place reader position r = record {
  reader = reader;
  place = record { position = position; info = r };
}

abbrev opened : MultiReader
opened = record {
  is_opened = true;
  readers = both;
  record_index = some (
      place 0 0 (info camera 2 100)
      ∷ place 0 1 (info camera_2 5 200)
      ∷ place 1 0 (info camera 5 100)
      ∷ place 1 1 (info camera 7 200)
      ∷ place 0 2 (info camera 9 300)
      ∷ []);
  unique_ids = named;
  file_paths = (0 ∷ []) ∷ (1 ∷ []) ∷ [];
  file_tags = (session_id, b'a' ∷ []) ∷ [];
}

open_both : open_specs open_file close_file path_of (0 ∷ 1 ∷ []) no_files ≡ some (success, opened)
unfolding open_specs open_files are_files_related tag_matches get_tag initialize_unique_stream_ids
    add_readers add_streams generate_unique_stream_id create_consolidated_index add_indexes
    add_index time_less_than merge emplace_next emplace unique_of assign emplace_unique
    initialize_file_tags insert_tags
open_both = refl

opened-IsOpened : IsOpened both opened
opened-IsOpened = record {
  opened = refl;
  has_files = refl;
  index = _;
  has_index = refl;
  sorted = omega arith;
  held = λ w. omega arith;
  named = both-AllNamed;
}

get_record_by_time-IsFirst_example : IsFirst 6 both (get_record_by_time opened 6)
get_record_by_time-IsFirst_example = get_record_by_time-IsFirst both opened 6 refl opened-IsOpened
