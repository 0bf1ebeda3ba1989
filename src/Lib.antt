-- ===== src/Lib.antt =====
-- A model of the core of VRS, a file format and library for streams of timestamped records, and its
-- theorems.
--
-- The parts, and the files that model them (paths in the repository on the right):
--   StreamId            vrs/StreamId.h, vrs/StreamId.cpp: stream ids, their order and numeric names
--   Record              vrs/Record.h, vrs/Record.cpp: a record in memory and its buffer
--   RecordManager       vrs/RecordManager.h, vrs/RecordManager.cpp: the records of a recordable, active
--                       (in order of time, for the writer to collect) or cached for reuse
--   RecordFormat        vrs/RecordFormat.h, vrs/RecordFormat.cpp: the content blocks of a record, image
--                       and audio specs, and the sizes that follow from them
--   DataLayout          vrs/DataLayout.h, vrs/DataLayout.cpp: the pieces of variable size of a data layout,
--                       how they are collected, their index, the labels of pieces, and
--                       the mapping onto another layout
--   FileFormat          vrs/FileFormat.h, vrs/FileFormat.cpp: the headers of files and records
--   IndexRecord         vrs/IndexRecord.h, vrs/IndexRecord.cpp: the entries of an index record on disk
--                       become the index in memory, or the index is rebuilt from the records' headers
--   FileReader          vrs/RecordFileReader.h, vrs/RecordFileReader.cpp: the lookups in that index,
--                       and the streams that tags select
--   MultiFileReader     vrs/MultiRecordFileReader.h, vrs/MultiRecordFileReader.cpp: several files read as
--                       one, each through a FileReader: related files, unique stream ids, the merged
--                       index, and the lookups in it
--   FileWriter          vrs/RecordFileWriter.h, vrs/RecordFileWriter.cpp: the records that the managers
--                       give out are sorted and written, on one thread or with compression threads
--   VideoFrameHandler   vrs/utils/VideoFrameHandler.h, vrs/utils/VideoFrameHandler.cpp: frames decoded
--                       in sequence, with the lookups of FileReader to find the missing ones
-- Base holds the shared tests, lists, the binary search of the C++ library and decimal numbers. Each
-- part's file has its state and operations, under the names of the C++ in snake case; its child
-- modules have the lemmas and theorems, and its Examples runs at concrete inputs.
--
-- How state is modelled: a method that changes its object takes the object and returns it with the
-- result. A method of the record manager is one step: it holds the mutex, but that createRecord releases
-- it while it copies a large payload to a record that is in none of the lists. Pointers into the file's
-- index are positions with what stands there. Timestamps, doubles in the source, are numbers of
-- ticks, since the code compares and subtracts them. Unsigned integers wrap where the source's
-- arithmetic can; an int64_t of a header is given by its bits. Loops are by recursion on the list that
-- they walk; the binary search is on fuel, the length of the list, which is enough since each round
-- at least halves what is left; the merges of MultiFileReader and FileWriter are on fuel, the number of
-- records, one of which leaves the queue in each round; the search for a free stream id is on fuel, one
-- more than the ids that are taken; the loop that rebuilds an index is on fuel, one more than the
-- file's bytes, each of its records being as large as a header at least. The writer's loop with
-- compression threads is a step relation, over every order in which the threads' jobs can end. A
-- std::priority_queue is the list of its elements in the order that it gives them out.
--
-- Parameters: a codec's decoder and the factory's choice of it, the player that reads a record, what
-- opening and closing one file of several gives, what the file gives where a header is read and what
-- the reading of a split index record gives while an index is rebuilt, what a write of a header
-- or of bytes to the writer's file gives, and what the compression libraries make of a record's payload.
-- Not modelled: file handlers and everything that reads or writes bytes of a file, compression, the
-- values of the pieces of fixed size of data layouts and its maps of texts, the writer's events and its
-- creation and closing of files, an index that is written back after it was rebuilt, records that are
-- collected while the compression threads run, the text form of content blocks, filtered readers,
-- pixel conversion, and the tools. A timestamp that is not a number has no counterpart.
pub mod Base
pub mod DataLayout
pub mod FileFormat
pub mod FileReader
pub mod FileWriter
pub mod IndexRecord
pub mod MultiFileReader
pub mod Record
pub mod RecordFormat
pub mod RecordManager
pub mod StreamId
pub mod VideoFrameHandler
