-- ===== src/IndexRecord/Rebuild/Chain.antt =====
-- A file whose record headers chain, and what a round of `rebuildIndex` in vrs/IndexRecord.cpp makes of
-- each.
use mathlib.Core.List.{append-nil}
use vrs.Base.{
  ℕ, ◌+◌, ◌≤◌, ◌≡◌, refl, sym, ◌∙◌, ap, arith, Bool, true, false, ◌||◌, ltb, ◌==◌, inl, inr, ◌⊎◌,
}
use vrs.Base.{List, [], ◌∷◌, ◌++◌, Bool-cases, if◌then◌else◌}
use vrs.Base.Sums.{sum_by}
use vrs.Base.Ordered.{IsWeakOrder, IsOrderedBy, insert_ordered-IsOrderedBy, sum_by-insert_ordered}
use vrs.FileFormat.{RecordHeader}
use vrs.FileReader.{RecordInfo, info_less}
use vrs.IndexRecord.{emplace}
use vrs.IndexRecord.Rebuild.{
  HeaderRead, SplitIndexRead, at_end, unreadable, header, is_user_type, is_internal, is_split_index,
  Rebuild, go_on, advance, info_of, add_to_index, index_header, sort_index, take_header,
}

info_less_asymmetric : (a b : RecordInfo) → info_less a b ≡ true → info_less b a ≡ false
info_less_asymmetric a b h = ground arith

info_less_below :
    (a b c : RecordInfo) → info_less b a ≡ false → info_less b c ≡ true → info_less a c ≡ true
info_less_below a b c h k = ground arith

info_less_transitive :
    (a b c : RecordInfo) → info_less b a ≡ false → info_less c b ≡ false → info_less c a ≡ false
info_less_transitive a b c h k = ground arith

info_less-IsWeakOrder : IsWeakOrder info_less
info_less-IsWeakOrder = record {
  asymmetric = info_less_asymmetric;
  below = info_less_below;
  transitive = info_less_transitive;
}

pub sort_index-IsOrderedBy : (l : List RecordInfo) → IsOrderedBy info_less (sort_index l)
sort_index-IsOrderedBy [] = tt
sort_index-IsOrderedBy (r ∷ l) =
    insert_ordered-IsOrderedBy info_less info_less-IsWeakOrder r (sort_index l)
      (sort_index-IsOrderedBy l)

pub sum_by-sort_index :
    (w : RecordInfo → ℕ) (l : List RecordInfo) → sum_by w (sort_index l) ≡ sum_by w l
sum_by-sort_index w [] = refl
sum_by-sort_index w (r ∷ l) =
    sum_by-insert_ordered info_less w r (sort_index l)
    ∙ ap (λ (n : ℕ). w r + n) (sum_by-sort_index w l)

-- The records for the index, where the first header stands at a position.
abbrev pub user_infos : ℕ → List RecordHeader → List RecordInfo
user_infos position [] = []
user_infos position (h ∷ rest) =
    (if is_internal h then [] else info_of h position ∷ [])
    ++ user_infos (position + h.record_size) rest

abbrev pub end_of : ℕ → List RecordHeader → ℕ
end_of position [] = position
end_of position (h ∷ rest) = end_of (position + h.record_size) rest

-- What is left of the file is an error, not its end.
abbrev pub is_broken : HeaderRead → Bool
is_broken at_end = false
is_broken r = true

module _ (read_header : ℕ → HeaderRead) (cannot_go_to : ℕ → Bool)
    (total_file_size record_header_size : ℕ) where
  -- A header that the loop can go on from, at a position, behind a record of a size.
  pub record IsChained (position previous_size : ℕ) (h : RecordHeader) : Type 0 where
    pub found : read_header position ≡ header h
    pub previous : h.previous_record_size ≡ previous_size
    pub large_enough : record_header_size ≤ h.record_size
    pub in_file : position + h.record_size ≤ total_file_size
    pub reachable : cannot_go_to (position + h.record_size) ≡ false
    pub no_split_index : is_split_index h ≡ false
    pub known_type : is_internal h || is_user_type h ≡ true

  -- The file has these headers, one record after the other, and then no header: it ends, or what
  -- follows cannot be read.
  abbrev pub IsLaidOut : ℕ → ℕ → List RecordHeader → Type 0
  IsLaidOut position previous_size [] =
      (read_header position ≡ at_end) ⊎ (read_header position ≡ unreadable)
  IsLaidOut position previous_size (h ∷ rest) =
      IsChained position previous_size h × IsLaidOut (position + h.record_size) h.record_size rest

  module _ (read_split_index : SplitIndexRead) (has_split_head_chunk : Bool) where
    -- The state in front of a header.
    pub record IsRunning (s : Rebuild) : Type 0 where
      pub file_size : s.reader.total_file_size ≡ total_file_size
      pub header_size : s.reader.record_header_size ≡ record_header_size
      pub trusted : s.distrust_last_record ≡ false
      pub fine : s.failed ≡ false

    abbrev pub next_state : RecordHeader → Rebuild → Rebuild
    next_state h s = if is_internal h then advance h s else advance h (add_to_index h s)

    index_header_chained :
        (h : RecordHeader) (s : Rebuild)
        → is_internal h || is_user_type h ≡ true
        → index_header h s ≡ go_on (next_state h s)
    index_header_chained h s k = elim (Bool-cases (is_internal h)) [
      | inl e ↦ rw e refl
      | inr e ↦ let user : is_user_type h ≡ true = ground arith in rw (e, user) refl
    ]

    pub take_header_chained :
        (h : RecordHeader) (s : Rebuild)
        → IsRunning s
        → IsChained s.absolute_position s.previous_record_size h
        → take_header read_header cannot_go_to read_split_index has_split_head_chunk h s
          ≡ go_on (next_state h s)
    unfolding take_header
    take_header_chained h s r c =
        let chain : (h.previous_record_size == s.previous_record_size) ≡ true =
          ground (arith, c.previous) in
        let large : ltb h.record_size s.reader.record_header_size ≡ false =
          ground (arith, c.large_enough, r.header_size) in
        let fits : ltb s.reader.total_file_size (s.absolute_position + h.record_size) ≡ false =
          ground (arith, c.in_file, r.file_size) in
        rw
          (chain, large, c.no_split_index, fits, c.reachable, index_header_chained h s c.known_type)
          (elim (Bool-cases (ltb s.reader.record_header_size h.record_size)) [
            | inl e ↦ rw e refl
            | inr e ↦ rw e refl
          ])

    -- What the round leaves.
    pub record IsAdvanced (h : RecordHeader) (s s' : Rebuild) : Type 0 where
      pub running : IsRunning s'
      pub position : s'.absolute_position ≡ s.absolute_position + h.record_size
      pub previous : s'.previous_record_size ≡ h.record_size
      pub indexed :
          s'.reader.index
          ≡ s.reader.index ++ (if is_internal h then [] else info_of h s.absolute_position ∷ [])

    pub next_state-IsAdvanced :
        (h : RecordHeader) (s : Rebuild) → IsRunning s → IsAdvanced h s (next_state h s)
    unfolding add_to_index emplace
    next_state-IsAdvanced h s r = elim (Bool-cases (is_internal h)) [
      | inl e ↦ rw e (record {
        running = record {
          file_size = r.file_size;
          header_size = r.header_size;
          trusted = r.trusted;
          fine = r.fine;
        };
        position = refl;
        previous = refl;
        indexed = rw e (sym (append-nil s.reader.index));
      })
      | inr e ↦ rw e (record {
        running = record {
          file_size = r.file_size;
          header_size = r.header_size;
          trusted = r.trusted;
          fine = r.fine;
        };
        position = refl;
        previous = refl;
        indexed = rw e refl;
      })
    ]
