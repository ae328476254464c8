-- ===== src/Lib.antt =====
-- LogGrep: the query engine's algorithms, and the compressor's templates and patterns.
--
-- LogGrep compresses logs into columns, one for each variable part of a log pattern, and answers queries
-- on the columns without restoring the log. compression/ writes the store; cmdline_loggrep/ reads it. A
-- query is cut into tokens (cmdline_loggrep/CmdDefine.cpp); a column is passed over when its stamp, the
-- set of character classes in it, lacks a class of the token; the token is matched against the pattern of
-- the column, which says where in the variables it would have to stand; the columns are searched for
-- it, and the lines found are joined, cut and complemented as line sets.
--
-- Files:
--   Prelude, Bytes: shared names, tests on numbers, lists; C strings as lists of bytes.
--   BitMap: the class BitMap of cmdline_loggrep/LogStructure.h. Sets, Holds, Update, Filter, Reverse,
--   Algebra and Clone say which set of lines a bitmap stands for and what the operations do to it.
--   Tags: GetCharTag, GetStrTag, GetSegmentType of cmdline_loggrep/SearchAlgorithm.cpp, getType of
--   compression/util.cpp. Bits and Filter carry the stamp test.
--   Search: the searches of cmdline_loggrep/SearchAlgorithm.cpp. QueryType are the alignments, Compare
--   the SeqMatching functions, BoyerMoore BuildBadC, BuildGoodS and BM_Once, Kmp InitKmpNext and KMP,
--   Scan the loop over lines, Fixed the BM_Fixed searches over a column, Pushdown the ones that look
--   only at lines found before. Their children hold the proofs.
--   Pattern: Lcs is GetLCS_DPoptc, Matrix the RegMatrix types of cmdline_loggrep/LogStructure.h, Chars the
--   MatchInSub functions, Match SubPatMatch_0_J and SubPatMatch_N_I, Query SubPatMatch_I_J and
--   SubPatternMatch, Dic DicPatternMatch.
--   Logic: SearchByLogic_norm and SearchByLogic_not of cmdline_loggrep/LogStore_API.cpp over an interface
--   of searches. Entries is one pattern, Passes all patterns, Steps and Run the steps of a query.
--   Template: compression/template.cpp, compression/LengthParser.cpp and the passes over a log file of
--   compression/main.cpp. Segments is the cutting of a line, Node the class templateNode, Columns the
--   struct VarArray and the names of columns, Parser the class LengthParser, File the sampling loop of proc
--   and matchFile. Restore is a reader of what they keep, by which they are judged, Room the
--   arrays of matchFile against the lines of the file.
--   Stored: compression/SubPattern.cpp and the loop of proc over the values of a variable. Cut is extract,
--   Rows and Values one value, Restore all values and a reader of them, Stamps
--   and Marks dataType and maxLen.
--   Values: Encoder::padding of compression/Encoder.cpp; RemovePadding, IntPadding and atoi.
--   Text: Split and Mystrtok of cmdline_loggrep/CmdDefine.cpp.
--   Tests: runs, and each result at an input.
--
-- State and faults: an object that the source changes in place is a record that is passed on. A write
-- outside of an array (Index of a bitmap, the rows of a RegMatrix, the parameters of Split, segArray,
-- Eid and failed_num of the compressor, the strings of a template, badc at a byte above 127, which is
-- negative as a signed char) gives `none`, or `fault` in BM_Once; only the tests of a line in
-- BM_Fixed_Pushdown and BMwildcard_AxB, which are Booleans, take it as no match. A text is a function
-- from positions to bytes, or a list where its end matters. An `int` that may be -1 is held one higher,
-- or is a type with a value for -1.
--
-- Fuel: KMP and InitKmpNext have twice the length and two, since each round raises one index or lowers
-- the other. BM_Once and the loops over a column have one more than the text's length, since a round
-- goes right; a line's search in BM_Fixed_Anypos has one more than the line's length. Split has one more
-- than the source's length, since a round takes a byte. Those over lines of different lengths have the
-- text's length. The other loops are recursion on the list or number that they run through.
--
-- Not modelled: BM_Diff, the column and pattern readers, the store (LogStore_API.cpp) apart from AND and NOT, the
-- command objects; of the compressor the search for the patterns of variables (Union), the serialisation
-- and the text that it writes. The threshold's comparison of doubles and rand are parameters; regexec, zip and LZMA are
-- libraries. The caches map_badc and map_goods return the tables that are built here.
pub mod BitMap
pub mod Bytes
pub mod Logic
pub mod Pattern
pub mod Prelude
pub mod Search
pub mod Stored
pub mod Tags
pub mod Template
pub mod Tests
pub mod Text
pub mod Values
