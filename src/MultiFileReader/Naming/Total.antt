-- ===== src/MultiFileReader/Naming/Total.antt =====
-- The loops of `initializeUniqueStreamIds` of vrs/MultiRecordFileReader.cpp end, with every stream
-- named.
use vrs.Base.{ℕ, suc, ◌+◌, ◌≤◌, ◌<◌, ◌≡◌, refl, arith, false, inl, inr}
use vrs.Base.{some, List, [], ◌∷◌, length, Bool-cases, All, All-map}
use vrs.StreamId.{StreamId}
use vrs.MultiFileReader.{
  SourceReader, UniqueIds, contains, get_stream_id_reader_pair, choose_unique_id, enter_unique_id,
  add_streams, add_readers, has_single_file, no_unique_ids, initialize_unique_stream_ids,
}
use vrs.MultiFileReader.Fresh.{generate_unique_stream_id-IsFree}
use vrs.MultiFileReader.Naming.{
  IsNamed, IsSound, length-insert_id, enter_unique_id-IsSound, enter_unique_id-IsNamed,
  enter_unique_id-IsNamed_other,
}

choose_unique_id_total :
    (ids : List StreamId) (id : StreamId)
    → length ids < 65536
    → (unique : StreamId) × (choose_unique_id ids id ≡ some unique) × (contains unique ids ≡ false)
choose_unique_id_total ids id h = elim (Bool-cases (contains id ids)) [
  | inl e ↦
      let (free, found, w) = generate_unique_stream_id-IsFree ids id h in
      rw e (free, found, w.unused)
  | inr e ↦ rw e (id, refl, e)
]

-- What the loop leaves, started from `known`: sound ids, not more than `count` new ones, and all
-- the names that were there.
record IsGrown (known : UniqueIds) (count : ℕ) (known' : UniqueIds) : Type 0 where
  sound : IsSound known'
  size : length known'.ids ≤ length known.ids + count
  kept : (k : ℕ) (id : StreamId) → IsNamed known k id → IsNamed known' k id

add_streams_total :
    (reader : ℕ) (ids : List StreamId) (known : UniqueIds)
    → IsSound known
    → length known.ids + length ids ≤ 65536
    → (known' : UniqueIds) × (add_streams reader ids known ≡ some known')
      × IsGrown known (length ids) known'
      × All (IsNamed known' reader) ids
unfolding add_streams
add_streams_total reader [] known s h =
    (known, refl, record { sound = s; size = omega arith; kept = λ k id n. n }, tt)
add_streams_total reader (id ∷ ids) known s h =
    let (unique, chosen, free) = choose_unique_id_total known.ids id (omega arith) in
    let next = enter_unique_id reader id known unique in
    let grown : length next.ids ≤ suc (length known.ids) = length-insert_id unique known.ids in
    let (known', done, w, named) =
      add_streams_total reader ids next (enter_unique_id-IsSound known reader id unique free s)
        (omega (arith, grown)) in
    (
      known',
      rw chosen done,
      record {
        sound = w.sound;
        size = omega (arith, grown, w.size);
        kept = λ k other n.
            w.kept k other (enter_unique_id-IsNamed_other known reader id unique free s k other n);
      },
      (w.kept reader id (enter_unique_id-IsNamed known reader id unique free s), named),
    )

-- How many streams the files have, each file's counted.
abbrev pub stream_count : List SourceReader → ℕ
stream_count [] = 0
stream_count (r ∷ rest) = length r.file_reader.stream_ids + stream_count rest

-- Every stream of the readers, the first of which has the place `k`, is named.
unfoldable pub AllNamed : UniqueIds → ℕ → List SourceReader → Type 0
AllNamed known k [] = Unit
AllNamed known k (r ∷ rest) =
    All (IsNamed known k) r.file_reader.stream_ids × AllNamed known (suc k) rest

add_readers_total :
    (reader : ℕ) (readers : List SourceReader) (known : UniqueIds)
    → IsSound known
    → length known.ids + stream_count readers ≤ 65536
    → (known' : UniqueIds) × (add_readers reader readers known ≡ some known')
      × IsGrown known (stream_count readers) known'
      × AllNamed known' reader readers
unfolding add_readers AllNamed
add_readers_total reader [] known s h =
    (known, refl, record { sound = s; size = omega arith; kept = λ k id n. n }, tt)
add_readers_total reader (r ∷ rest) known s h =
    let (known1, done1, w1, named1) =
      add_streams_total reader r.file_reader.stream_ids known s (omega arith) in
    let (known2, done2, w2, named2) =
      add_readers_total (suc reader) rest known1 w1.sound (omega (arith, w1.size)) in
    (
      known2,
      rw done1 done2,
      record {
        sound = w2.sound;
        size = omega (arith, w1.size, w2.size);
        kept = λ k id n. w2.kept k id (w1.kept k id n);
      },
      (
        All-map (IsNamed known1 reader) (IsNamed known2 reader) (λ id n. w2.kept reader id n)
            r.file_reader.stream_ids named1,
        named2,
      ),
    )

-- For several files with at most 65536 streams in all, the assignment of unique stream ids, which
-- starts with none, ends, and every stream of every file has a unique id, which leads back to that file and that stream;
-- so no two streams share one.
pub initialize_unique_stream_ids-AllNamed :
    (readers : List SourceReader)
    → has_single_file readers ≡ false
    → stream_count readers ≤ 65536
    → (known : UniqueIds) × (initialize_unique_stream_ids readers no_unique_ids ≡ some known)
      × AllNamed known 0 readers
unfolding initialize_unique_stream_ids get_stream_id_reader_pair IsSound
initialize_unique_stream_ids-AllNamed readers several h =
    let (known, done, w, named) =
      add_readers_total 0 readers no_unique_ids (λ u e. refl) (omega arith) in
    rw several (known, done, named)
