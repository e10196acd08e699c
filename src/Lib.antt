-- ===== src/Lib.antt =====
-- PinusDB, a time series database (src/pinusdb). The parts modelled here, by file:
--
-- Value: the tagged value DBVal, the field types and error codes (include/pdb.h,
--   include/pdb_error.h, table/db_value.h). Floating point is the parameter `Floats`, a record of
--   types and operations without laws; Value/Integral has an instance for the tests.
-- Query/Block: BlockValues (query/block_values.h), the records of a block by columns with a filter.
--   Query/Block/Laws is about merging conditions into the filter, Query/Block/Records about reading
--   one record of the result.
-- Query/Group: the aggregate functions (query/group_function.h). Query/Group has the loop and the
--   dispatch that their templates share, and what a block selects; Avg, Sum, Count, FirstLast,
--   Extreme, Keys and AggIf below it have one class each: the state as a record, AppendSingle as
--   `append_single`, AppendArray as `append_array`, AppendArrayInner as `append_array_inner` over
--   `append_cell`, GetResult as `get_result`. Laws, Arrays, Total, Extremes and Conditional are about
--   them. A failing call returns the state that it leaves.
-- Query/Items: the interface ValueItem as a record of its virtual functions, and the items that
--   conditions on single fields are made of (query/value_item.h, query/value_item.cpp): a constant, a
--   field, the comparison of a field with a value, and AND. Query/Items/Laws has the law that the
--   users of the interface take, IsPointwise, and fills it for these items; Query/Items/And does so
--   for AND.
-- Query/Conditions: ConditionFilter (query/condition_filter.cpp). `build_condition`, `run_condition`,
--   `run_condition_array` and `filter_dev_id` are its functions over the interface of the items;
--   Query/Conditions/Laws is about running, Query/Conditions/Ranges about what is taken from the
--   conditions, Query/Conditions/Comparisons about the comparisons that fill the law it needs.
--   Query/Block/Positions has what the two share on the filter of a block.
-- Query/Raw: QueryRaw (query/query_raw.cpp), which takes in records or blocks up to its limit, and
--   PushBackToResult (query/iquery.h). Query/Raw/Rows and Query/Raw/Blocks are about a block,
--   Query/Raw/Singles about records one by one.
-- Coding: the integer coders (util/coding.h). A buffer is a list of bytes.
-- Storage/Delta: the integer columns of a compressed partition, CompIntValBuilder and DecodeIntVals
--   (storage/comp_val_builder.h, storage/comp_data_part.cpp). A builder is a record with the bytes
--   written so far. The decoder returns the values in the order of the bytes; the variant that reads
--   a partition backwards stores the same values from the end.
-- Memory: a buffer that is read and written at offsets.
-- Page: a page of records of a device (storage/normal_data_page.cpp). Page has the head, the index,
--   CleanUp and InsertRec on the bytes of the page, Page/Split has SplitMost. Page/Records says when a
--   page holds a list of records and what an insertion is to do; Page/Bytes is about the head and the
--   index, Page/Edits, Page/Push, Page/Swap, Page/Clean and Page/Places about the steps of InsertRec, Page/Insert
--   about the whole, Page/Init about new pages, Page/Reload about Load, Page/Split/Parts and Page/Split/Moved about
--   splitting.
-- Part: InsertRec of a partition (storage/normal_data_part.cpp), over Page and Index: the page that the
--   index names takes the record, or it is split, or a new page is begun. Part/Lists is about two lists
--   of records in a row, Part/Fits and Part/Sizes about what fits into pages, Part/Grown and
--   Part/Inserted about the pages, Part/Indexed about the partition.
-- Sql: the tokenizer (expr/tokenize.cpp). Sql has GetToken, Sql/Words the tokens and the keywords,
--   Sql/Run has RunParser with GetStr and StrToBlob, for any parser; Sql/Bounds is about the lengths of
--   tokens, Sql/Quotes about quoted texts.
-- Pool: the pages of the cache (db/page_pool.cpp): GetPage, which takes a page of the map, a free
--   header or a clean page that is reused, in one turn of its loop, and ClearPageForMask. Pool/Kept is
--   about the pages that GetPage gives up.
-- Index: the index of a data partition in memory (storage/normal_part_idx.cpp): binary search by
--   time, insertion, and the three lookups.
-- Dates: the calendar (util/date_time.cpp), DateToDayCode and GetDatePart.
-- StringTool: CRC64, also without case, and CRC32 (util/string_tool.cpp) with their tables.
--   StringTool/Like has Utf8LikeCompare, which is LIKE; StringTool/Literal has ComparyNoCase and is
--   about patterns without wildcards.
-- Log: a file of the commit log (commitlog/commit_log_file.cpp). Log has the write buffer, the cache
--   blocks and Read, over the interface NormalFile (port/env.h); Log/Cache, Log/Stream, Log/Read and
--   Log/Appends are about the stream of bytes that a log is. Log/Records has the bytes of the records
--   (AppendRec of commitlog/commit_log_list.cpp, AppendSync) and ReadRecList, with Log/Records/RoundTrip
--   and Log/Records/Readback about them; Log/Recover has CreateLogFile, OpenLogFile and RecoverPoint.
--   Log/Files is the list of the files (commitlog/commit_log_list.cpp), over an interface of the
--   directory: Log/Files/Bytes, Log/Files/Added and Log/Files/Switch are about the change to a new file, Log/Files/Expired about deletion.
--
-- How they interact: a query merges the values of its conditions into the filter of a block, and
-- each aggregate takes in the block, or single records, by the filter and the groups. A partition
-- asks its index for the page of a device and a time, inserts a record into it, and splits it when
-- it is full. A record is logged with a checksum and read back by it.
--
-- Bounds and fuel: int64 totals and the differences in a compressed column wrap around at 2 ^ 63.
-- The loop of the varint encoder has fuel for the ten bytes that the code reserves, seven bits of a
-- uint64 in each. The binary search has one round more than the vector is long, and each round
-- leaves out an entry at least, as does the search in a page. The month loop has a round for each
-- month. The loops over the records of a buffer have fuel for each byte of it, and so has the loop
-- over the tokens of a statement. Utf8LikeCompare has fuel for each byte of the string and three
-- times that of the pattern. Time stamps, device ids and values are exact integers.
--
-- Not modelled: files, mutexes, null tests of result pointers, memory, the generated parser and the
-- server, the files of partitions and their queries, zlib, the directory of the log at the start.
-- Reading past the end of a column or vector, or a column that is not loaded, is undefined in C++
-- and gives a null or zero value here, or no result in the search of the index. How the capacity of
-- a std::string grows is a parameter of the aggregates that keep one.
pub mod Prelude
pub mod Value
pub mod Query
pub mod Storage
pub mod Log
pub mod StringTool
pub mod Coding
pub mod Index
pub mod Dates
pub mod Pool
pub mod Memory
pub mod Page
pub mod Part
pub mod Sql
