-- ===== src/IndexRecord/Rebuild/Complete.antt =====
-- `rebuildIndex` of vrs/IndexRecord.cpp ends, and finds all the records of a file whose headers chain.
use mathlib.Core.List.{append-nil, append_assoc}
use vrs.Base.{
  ℕ, zero, suc, ◌+◌, ◌≤◌, ◌<◌, ◌≡◌, refl, sym, ◌∙◌, ap, arith, Bool, true, false, inl, inr, ◌⊎◌,
  subst,
}
use vrs.Base.{Option, some, List, [], ◌∷◌, ◌++◌, length}
use vrs.Base.Sums.{SameElements}
use vrs.Base.Ordered.{IsOrderedBy}
use vrs.FileFormat.{RecordHeader}
use vrs.FileReader.{RecordInfo, info_less}
use vrs.IndexRecord.{IndexReader}
use vrs.IndexRecord.Rebuild.{
  HeaderRead, SplitIndexRead, Rebuild, finish, take_read, rebuild_loop, rebuild_index,
}
use vrs.IndexRecord.Rebuild.Chain.{
  sort_index-IsOrderedBy, sum_by-sort_index, user_infos, end_of, is_broken, IsLaidOut, IsRunning,
  next_state, take_header_chained, next_state-IsAdvanced,
}

module _ (read_header : ℕ → HeaderRead) (cannot_go_to : ℕ → Bool)
    (read_split_index : SplitIndexRead) (has_split_head_chunk : Bool) where
  -- The index that was rebuilt, where `infos` are the records found and the headers end at `end`.
  pub record IsRebuilt (infos : List RecordInfo) (end : ℕ) (s : Rebuild) : Type 0 where
    pub sorted : IsOrderedBy info_less s.reader.index
    pub complete : SameElements s.reader.index infos
    pub position : s.absolute_position ≡ end
    pub reported : s.failed ≡ is_broken (read_header end)

  module _ (total_file_size record_header_size : ℕ) where
    abbrev Running : Rebuild → Type 0
    Running =
        IsRunning read_header cannot_go_to total_file_size record_header_size read_split_index
          has_split_head_chunk

    abbrev LaidOut : ℕ → ℕ → List RecordHeader → Type 0
    LaidOut = IsLaidOut read_header cannot_go_to total_file_size record_header_size

    abbrev next : RecordHeader → Rebuild → Rebuild
    next =
        next_state read_header cannot_go_to total_file_size record_header_size read_split_index
          has_split_head_chunk

    abbrev loop : ℕ → Rebuild → Option Rebuild
    loop = rebuild_loop read_header cannot_go_to read_split_index has_split_head_chunk

    finish-IsRebuilt :
        (s : Rebuild) (broken : Bool)
        → s.distrust_last_record ≡ false
        → broken ≡ is_broken (read_header s.absolute_position)
        → IsRebuilt s.reader.index s.absolute_position (finish (record s { failed = broken }))
    unfolding finish
    finish-IsRebuilt s broken trusted e = rw trusted (record {
      sorted = sort_index-IsOrderedBy s.reader.index;
      complete = λ w. sum_by-sort_index w s.reader.index;
      position = refl;
      reported = e;
    })

    loop_end :
        (fuel : ℕ) (s : Rebuild)
        → Running s
        → (read_header s.absolute_position ≡ HeaderRead.at_end)
          ⊎ (read_header s.absolute_position ≡ HeaderRead.unreadable)
        → (s' : Rebuild) × (loop (suc fuel) s ≡ some s')
          × IsRebuilt s.reader.index s.absolute_position s'
    unfolding rebuild_loop take_read
    loop_end fuel s r (inl e) =
        let same : is_broken (read_header s.absolute_position) ≡ false = rw e refl in
        (
          finish (record s { failed = s.failed }),
          rw e refl,
          finish-IsRebuilt s s.failed r.trusted (r.fine ∙ sym same),
        )
    loop_end fuel s r (inr e) =
        let same : is_broken (read_header s.absolute_position) ≡ true = rw e refl in
        (
          finish (record s { failed = true }),
          rw e refl,
          finish-IsRebuilt s true r.trusted (sym same),
        )

    loop_total :
        (headers : List RecordHeader) (fuel : ℕ) (s : Rebuild)
        → length headers < fuel
        → Running s
        → LaidOut s.absolute_position s.previous_record_size headers
        → (s' : Rebuild) × (loop fuel s ≡ some s')
          × IsRebuilt
              (s.reader.index ++ user_infos s.absolute_position headers)
              (end_of s.absolute_position headers)
              s'
    unfolding rebuild_loop take_read
    loop_total [] zero s h r l = absurd (omega arith)
    loop_total (x ∷ headers) zero s h r l = absurd (omega arith)
    loop_total [] (suc fuel) s h r l = rw (append-nil s.reader.index) (loop_end fuel s r l)
    loop_total (x ∷ headers) (suc fuel) s h r l =
        let c = l.0 in
        let step =
          take_header_chained read_header cannot_go_to total_file_size record_header_size
            read_split_index has_split_head_chunk x s r c in
        let a =
          next_state-IsAdvanced read_header cannot_go_to total_file_size record_header_size
            read_split_index has_split_head_chunk x s r in
        let rest : LaidOut (next x s).absolute_position (next x s).previous_record_size headers =
          rw (a.position, a.previous) l.1 in
        let (s', done, w) = loop_total headers fuel (next x s) (omega arith) a.running rest in
        let infos : (next x s).reader.index ++ user_infos (next x s).absolute_position headers
            ≡ s.reader.index ++ user_infos s.absolute_position (x ∷ headers) =
          rw (a.indexed, a.position) (append_assoc s.reader.index _ _) in
        let there : end_of (next x s).absolute_position headers
            ≡ end_of s.absolute_position (x ∷ headers) =
          ap (λ (p : ℕ). end_of p headers) a.position in
        (
          s',
          rw (c.found, step) done,
          subst
              (λ (p : ℕ).
                IsRebuilt (s.reader.index ++ user_infos s.absolute_position (x ∷ headers)) p s')
              there
              (subst
                (λ (i : List RecordInfo).
                  IsRebuilt i (end_of (next x s).absolute_position headers) s')
                infos w),
        )

    -- Each record takes a byte at least.
    few_headers :
        (headers : List RecordHeader) (position previous_size : ℕ)
        → 0 < record_header_size
        → position ≤ total_file_size
        → LaidOut position previous_size headers
        → position + length headers ≤ total_file_size
    few_headers [] position previous_size h le l = omega arith
    few_headers (x ∷ headers) position previous_size h le l = omega (
      arith,
      l.0.large_enough,
      few_headers headers (position + x.record_size) x.record_size h l.0.in_file l.1,
    )

  -- Take a file whose record headers chain from a position in it on: each is where the record before
  -- it ends and gives that record's size, and is as large as a header at least; its record ends
  -- within the file, and can be skipped; it is of a type of records, an index or a description, and
  -- no split index; behind the last record the file ends, or what follows cannot be read as a
  -- header. Then rebuilding the index ends. The index is sorted, and holds exactly the records that
  -- are not internal, each at its offset; the position it ends at is behind the last record; and it
  -- reports an error just when what follows there cannot be read.
  pub rebuild_index-IsRebuilt :
      (reader : IndexReader) (write_fixed_index : Bool) (position : ℕ) (headers : List RecordHeader)
      → 0 < reader.record_header_size
      → position ≤ reader.total_file_size
      → IsLaidOut read_header cannot_go_to reader.total_file_size reader.record_header_size position
          0 headers
      → (s : Rebuild) × (rebuild_index read_header cannot_go_to read_split_index
            has_split_head_chunk reader write_fixed_index position
          ≡ some s)
        × IsRebuilt (user_infos position headers) (end_of position headers) s
  unfolding rebuild_index
  rebuild_index-IsRebuilt reader write_fixed_index position headers h le l =
      loop_total reader.total_file_size reader.record_header_size headers
        (suc reader.total_file_size) _
        (omega (
          arith,
          few_headers reader.total_file_size reader.record_header_size headers position 0 h le l,
        ))
        (record { file_size = refl; header_size = refl; trusted = refl; fine = refl }) l
