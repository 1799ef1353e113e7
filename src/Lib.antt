-- ===== src/Lib.antt =====
-- A model of the C++ library of cpp-rust-performance-lab: the order books, the level-two book of
-- the Bybit feed, the recovery of a feed's sequence, and the capture of its frames.
--
-- The parts and how they meet. A feed's messages come in as frames; the queue hands them from the
-- receiving thread to the writer, and the record is the form in which they are written to a
-- capture. Decoded messages pass the sequence recovery, which decides what reaches a book, and a
-- book turns order events (or level changes) into price levels, best prices and a digest. The best
-- prices are published in a cell that other threads read, and labelled for later study.
--
--   Book, OrderBook   cpp/include/llab/order_book.hpp, cpp/src/order_book.cpp. Book holds what the
--                     books share: events, exceptions, the std::map of levels (Book/Ladder), the
--                     std::unordered_map of orders (Book/Table), the digest (Book/Digest), and the
--                     contract over the table of live orders alone (Book/Spec). OrderBook has one
--                     function per method; OrderBook/Contract compares apply with the contract.
--   ProbeTable        the index of orders by open addressing that cpp/src/parity_order_book.cpp,
--                     dense_ladder_order_book.cpp and bitmap_ladder_order_book.cpp each hold a copy of:
--                     find_slot, insertion_slot, and the loop that sizes it.
--   IndexedBook       the methods of a book over that index, its levels a record of two operations
--                     (LevelOps) that a book fills and whose laws (LevelLaws) it proves; Book/Bounded
--                     is the contract that such a book keeps.
--   ParityBook        cpp/include/llab/parity_order_book.hpp, cpp/src/parity_order_book.cpp: levels in
--                     two sorted vectors.
--   DenseBook         cpp/include/llab/dense_ladder_order_book.hpp, cpp/src/dense_ladder_order_book.cpp:
--                     levels in two arrays over a range of prices, with the best prices kept.
--   BitmapLevels      the levels of the bitmap books: arrays over 256 prices and a bitmap of the prices
--                     that hold a level.
--   BitmapBook        cpp/include/llab/bitmap_ladder_order_book.hpp,
--                     cpp/src/bitmap_ladder_order_book.cpp: orders packed into two words. A View
--                     unpacks them, and the methods are those of IndexedBook on it.
--   FixedIndex        cpp/include/llab/fixed_order_index.hpp, FixedOrderIndex: an erasure moves later
--                     entries back over its hole.
--   BackshiftBook     cpp/include/llab/bitmap_backshift_order_book.hpp,
--                     cpp/src/bitmap_backshift_order_book.cpp: the levels of BitmapLevels over an index
--                     that is a FixedIndex.
--   L2Book            cpp/include/llab/bybit_l2_order_book.hpp, class OrderBook of llab::bybit_l2.
--   FeedRecovery      cpp/include/llab/feed_sequence_recovery.hpp, FeedSequenceRecovery.
--   RawFrame          cpp/include/llab/raw_frame_record.hpp: crc32c, append_le, read_le,
--                     encode_raw_frame and decode_raw_frame.
--   FrameQueue        cpp/include/llab/raw_frame_queue.hpp, RawFrameSpscQueue, each call one step.
--   BboSnapshot       cpp/include/llab/bbo_snapshot.hpp, BboSnapshotCellBase: publish and try_read as
--                     steps of one writer and one reader, one step for an atomic access.
--   Labels            cpp/include/llab/bybit_l2_labels.hpp: first_future_indices, direction_label.
--   Metrics           cpp/include/llab/metrics.hpp, ThreadRing.
--   Common            Boolean tests, lists measured by native numbers, `|` as a sum.
--
-- How the state corresponds. A class is a record with a field for each data member; std::vector is a
-- list, std::map and std::unordered_map are association lists (the map's kept in the order of its
-- keys), std::optional is Option. Unsigned integers are natural numbers with `% 2 ^ 64` where the
-- code can wrap. A void method that may throw ends in Exit: done with the new object, or raised with
-- the exception and the object as it is then. A method of FeedRecovery that appends to the caller's
-- vector takes that vector and returns it. reserve, capacities and bucket counts are no part of a
-- state. std::sort is not stable: of the buffered messages it is an argument of finish_snapshot, and
-- what it promises (an ascending order of the same entries) a hypothesis (FeedRecovery/Sorting); of
-- order identifiers, which differ, it is an insertion sort. An event's type is one of the seven of its
-- enumeration, and memory is there: no vector is too long to allocate.
--
-- Fuel. The loops of the source are structural recursion on the list, the count of bytes or the count
-- of bits that they run through, but for two. The loop that doubles the size of an index (grow) runs on
-- fuel: a size doubles from 8 at most 61 times before it passes 64 bits, and what fuel of 61 rounds
-- does not end never ends, since the size is then 0. A constructor in such a loop is endless. The loop
-- of FixedOrderIndex::erase_at (shift_back) has a round for each slot, and comes to a free slot before;
-- a method of the backshift book whose erasure did not end would be none.
--
-- Not modelled: the packed book of cpp/src (its levels, its index and its packed orders are those of
-- BitmapLevels, FixedIndex and BitmapBook), the ordered-map and dense-ladder variants of the level-two book,
-- the receive metrics and the cycle clock, the decoder of Bybit messages and the capture files; the
-- interleavings of the two threads of the queue, and memory orders weaker than one total order; the
-- benchmarks, which measure and do file or network I/O, the scripts, and the Rust crates.
pub mod Common
pub mod Book
pub mod OrderBook
pub mod L2Book
pub mod FeedRecovery
pub mod RawFrame
pub mod FrameQueue
pub mod BboSnapshot
pub mod Labels
pub mod Metrics
pub mod ProbeTable
pub mod IndexedBook
pub mod ParityBook
pub mod DenseBook
pub mod BitmapLevels
pub mod BitmapBook
pub mod FixedIndex
pub mod BackshiftBook
