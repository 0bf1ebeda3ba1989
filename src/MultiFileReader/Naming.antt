-- ===== src/MultiFileReader/Naming.antt =====
-- `initializeUniqueStreamIds` of vrs/MultiRecordFileReader.cpp: every stream of every file gets an id
-- that leads back to it.
pub mod Total
use vrs.Base.{
  ℕ, zero, suc, ◌+◌, ◌≤◌, ◌<◌, ◌≡◌, refl, sym, ◌∙◌, ap, arith, Bool, true, false, ◌&&◌, ◌||◌, ◌==◌,
  if◌then◌else◌, inl, inr,
}
use vrs.Base.{
  Option, none, some, List, [], ◌∷◌, length, Bool-cases, some_injective, subst, All, All-map, ◌>>=◌,
}
use vrs.StreamId.{StreamId, same}
use vrs.StreamId.Order.{same_refl}
use vrs.FileReader.Pointers.{same→≡}
use vrs.MultiFileReader.{
  SourceReader, UniqueEntry, UniqueIds, contains, insert_id, is_stream, assign, emplace_unique,
  unique_of, get_stream_id_reader_pair, choose_unique_id, enter_unique_id, add_streams, add_readers,
  has_single_file, no_unique_ids, initialize_unique_stream_ids,
}
use vrs.MultiFileReader.Fresh.{generate_unique_stream_id-IsFree}

contains-insert_id :
    (id new : StreamId) (ids : List StreamId)
    → contains id (insert_id new ids) ≡ same id new || contains id ids
contains-insert_id id new [] = ground arith
contains-insert_id id new (x ∷ ids) = ground (arith, contains-insert_id id new ids)

length-insert_id :
    (new : StreamId) (ids : List StreamId) → length (insert_id new ids) ≤ suc (length ids)
length-insert_id new [] = omega arith
length-insert_id new (x ∷ ids) = ground (arith, length-insert_id new ids)

unique_of-assign :
    (reader : ℕ) (id : StreamId) (new : UniqueEntry) (m : List UniqueEntry)
    → unique_of reader id (assign new m)
      ≡ (if is_stream reader id new then some new.unique_id else unique_of reader id m)
unfolding unique_of assign
unique_of-assign reader id new [] = ground arith
unique_of-assign reader id new (e ∷ m) = ground (arith, unique_of-assign reader id new m)

get_stream_id_reader_pair-emplace_unique :
    (id : StreamId) (new : UniqueEntry) (m : List UniqueEntry)
    → get_stream_id_reader_pair new.unique_id m ≡ none
    → get_stream_id_reader_pair id (emplace_unique new m)
      ≡ (if same id new.unique_id then some new else get_stream_id_reader_pair id m)
unfolding get_stream_id_reader_pair emplace_unique
get_stream_id_reader_pair-emplace_unique id new [] h = ground arith
get_stream_id_reader_pair-emplace_unique id new (e ∷ m) h =
    ground (arith, get_stream_id_reader_pair-emplace_unique id new m)

-- The stream `id` of a reader has a unique id, and that id leads back to the stream.
pub record IsNamed (known : UniqueIds) (reader : ℕ) (id : StreamId) : Type 0 where
  pub unique : StreamId
  pub forth : unique_of reader id known.by_stream ≡ some unique
  pub back :
      get_stream_id_reader_pair unique known.by_unique
      ≡ some (record { reader = reader; stream_id = id; unique_id = unique })

-- An id that is not taken leads to no stream.
IsSound : UniqueIds → Type 0
IsSound known =
    (u : StreamId)
    → contains u known.ids ≡ false
    → get_stream_id_reader_pair u known.by_unique ≡ none

module _ (known : UniqueIds) (reader : ℕ) (id unique : StreamId) where
  abbrev entry : UniqueEntry
  entry = record { reader = reader; stream_id = id; unique_id = unique }

  abbrev entered : UniqueIds
  entered = enter_unique_id reader id known unique

  enter_unique_id-IsSound : contains unique known.ids ≡ false → IsSound known → IsSound entered
  unfolding IsSound
  enter_unique_id-IsSound free s u h =
      let apart : same u unique || contains u known.ids ≡ false =
        sym (contains-insert_id u unique known.ids) ∙ h in
      let other : same u unique ≡ false = ground arith in
      let untaken : contains u known.ids ≡ false = ground arith in
      get_stream_id_reader_pair-emplace_unique u entry known.by_unique (s unique free)
      ∙ (rw other (s u untaken))

  enter_unique_id-IsNamed :
      contains unique known.ids ≡ false → IsSound known → IsNamed entered reader id
  unfolding IsSound
  enter_unique_id-IsNamed free s = record {
    unique = unique;
    forth =
        unique_of-assign reader id entry known.by_stream
        ∙ (let here : is_stream reader id entry ≡ true = ground arith in rw here refl);
    back =
        get_stream_id_reader_pair-emplace_unique unique entry known.by_unique (s unique free)
        ∙ (rw (same_refl unique) refl);
  }

  -- A stream that has its id keeps one.
  enter_unique_id-IsNamed_other :
      contains unique known.ids ≡ false
      → IsSound known
      → (k : ℕ) (other : StreamId) → IsNamed known k other
      → IsNamed entered k other
  unfolding IsSound
  enter_unique_id-IsNamed_other free s k other n = elim (Bool-cases (is_stream k other entry)) [
    | inl e ↦
        let same_reader : reader ≡ k = ground arith in
        let same_stream : id ≡ other = sym (same→≡ other id (ground arith)) in
        subst (λ (i : StreamId). IsNamed entered k i) same_stream
          (subst (λ (j : ℕ). IsNamed entered j id) same_reader (enter_unique_id-IsNamed free s))
    | inr e ↦ record {
      unique = n.unique;
      forth = unique_of-assign k other entry known.by_stream ∙ (rw e n.forth);
      back =
          get_stream_id_reader_pair-emplace_unique n.unique entry known.by_unique (s unique free)
          ∙ (elim (Bool-cases (same n.unique unique)) [
            | inl f ↦ absurd (ground (arith, same→≡ n.unique unique f, n.back, s unique free))
            | inr f ↦ rw f n.back
          ]);
    }
  ]
