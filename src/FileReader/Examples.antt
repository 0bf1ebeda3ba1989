-- ===== src/FileReader/Examples.antt =====
-- Runs of the lookups in a file's index, and their theorems at concrete inputs.
use vrs.Base.{ℕ, ◌≡◌, refl, arith, leb}
use vrs.Base.{some, List, [], ◌∷◌, get_elem?}
use vrs.Base.Search.{partition_point}
use vrs.StreamId.{StreamId}
use vrs.Record.{RecordType, data_type, configuration, state}
use vrs.FileReader.{RecordInfo, Pointer, FileReader, get_index, get_record_of_type}
use vrs.FileReader.Pointers.{stream_pointers, IsIndexed, get_index-IsIndexed}
use vrs.FileReader.Seek.{of_type}
use vrs.FileReader.Cache.{IsOpen, get_record_of_type-IsOpen}
use vrs.FileReader.ByTime.{find_by_time, find_type_by_time, find_nearest, record_info}
use vrs.FileReader.ByTime.Found.{first_where, is_wanted, IsInOrder, find_by_time-first_where}
use vrs.FileReader.ByTime.Nearest.{IsNearest, find_nearest-IsNearest}
use vrs.FileReader.Query.{get_record_stream_index}
use vrs.FileReader.Query.Place.{get_record_stream_index-get_elem?}

abbrev camera : StreamId
camera = record { type_id = 200; instance_id = 1 }

abbrev imu : StreamId
imu = record { type_id = 300; instance_id = 1 }

abbrev info : StreamId → RecordType → ℕ → ℕ → RecordInfo
info id t time offset = record {
  timestamp = time;
  file_offset = offset;
  stream_id = id;
  record_type = t;
}

abbrev records : List RecordInfo
records =
    info camera configuration 1 100
    ∷ info imu data_type 2 150
    ∷ info camera data_type 3 200
    ∷ info camera data_type 5 300
    ∷ info imu state 6 400
    ∷ info camera data_type 9 450
    ∷ []

abbrev opened : FileReader
opened = record {
  stream_ids = camera ∷ imu ∷ [];
  record_index = records;
  stream_index = [];
  last_request = [];
}

opened-IsIndexed : IsIndexed opened
opened-IsIndexed = record {
  ids_given = λ e. absurd (ground (arith, e));
  indexed = λ e id. absurd (ground (arith, e));
}

opened-IsOpen : IsOpen opened
opened-IsOpen = record { indexed = opened-IsIndexed; remembered = tt }

abbrev second_image : Pointer
second_image = record { position = 3; info = info camera data_type 5 300 }

get_index-IsIndexed_example :
    let (reader', index) = get_index opened camera in
    (index ≡ stream_pointers records camera)
    × (reader'.record_index ≡ records)
    × (reader'.last_request ≡ [])
    × IsIndexed reader'
get_index-IsIndexed_example = get_index-IsIndexed opened camera opened-IsIndexed

-- The second lookup starts at the result of the first.
abbrev after_lookup : FileReader
after_lookup = (get_record_of_type opened camera data_type 1).0

after_lookup-IsOpen : IsOpen after_lookup
after_lookup-IsOpen = (get_record_of_type-IsOpen opened camera data_type 1 opened-IsOpen).1

get_record_of_type-IsOpen_example :
    let (reader', found) = get_record_of_type after_lookup camera data_type 2 in
    (found ≡ get_elem? (of_type data_type (stream_pointers after_lookup.record_index camera)) 2)
    × IsOpen reader'
get_record_of_type-IsOpen_example =
    get_record_of_type-IsOpen after_lookup camera data_type 2 after_lookup-IsOpen

records-IsInOrder : IsInOrder record_info records
records-IsInOrder = (
  (omega arith, (omega arith, (omega arith, (omega arith, (omega arith, tt))))),
  (
    (omega arith, (omega arith, (omega arith, (omega arith, tt)))),
    (
      (omega arith, (omega arith, (omega arith, tt))),
      ((omega arith, (omega arith, tt)), ((omega arith, tt), (tt, tt))),
    ),
  ),
)

find_by_time-first_where_example :
    (find_by_time record_info records 4
      ≡ first_where (λ (a : RecordInfo). leb 4 a.timestamp) records)
    × (find_type_by_time record_info state records 4
        ≡ first_where (is_wanted record_info state 4) records)
find_by_time-first_where_example =
    find_by_time-first_where record_info state 4 records records-IsInOrder

find_nearest-IsNearest_example :
    IsNearest record_info records 8 2 (find_nearest record_info records 8 2)
find_nearest-IsNearest_example = find_nearest-IsNearest record_info records 8 2 records-IsInOrder

nearest_is_the_last : find_nearest record_info records 8 2 ≡ some (info camera data_type 9 450)
unfolding find_nearest partition_point
nearest_is_the_last = refl

get_record_stream_index-get_elem?_example : (get_record_stream_index opened second_image).1 ≡ 2
get_record_stream_index-get_elem?_example =
    get_record_stream_index-get_elem? opened second_image 2 opened-IsIndexed refl
