-- ===== src/Lib.antt =====
-- DiStore: a key-value store over disaggregated memory.
--
-- A compute node keeps a skip list of anchors (the search layer) in its own memory, and the records in
-- linked nodes of 10, 12, 14 or 16 slots (the data layer) in the memory of memory nodes, which it reads
-- and writes by one-sided RDMA. Threads that want to put into the same node compete for it; the winner
-- fetches the node and its predecessor, serves the requests that the others queued, and writes back: in
-- place while the records fit, into a larger node (a morph), or into two (a split).
--
-- Files and code, paths from the repository's root:
--   Base.antt and below: byte strings, lists, Boolean tests.
--   DataLayer.antt and below: src/components/data_layer/data_layer.hpp. A LinkedNode is a record whose
--     arrays are lists; `store`, `find`, `update`, `scan`, `crc_validate` have the names of the code.
--   Split.antt and below: `construct_reorder_map` in src/components/node/compute_node/compute_node.hpp and
--     `out_of_place_split_node` in compute_node.cpp.
--   Compute.antt and below: the rest of the data path of src/components/node/compute_node. Requests.antt is
--     the queue and who serves it, WriteBack.antt the writes, Put.antt `try_put_to_existing_node` and
--     `put10` to `put16`, Read.antt `get` and `update`, Local.antt `quick_put` and the two local nodes,
--     Lock.antt `try_win_for_insert` and `try_win_for_update` as steps of threads, Gate.antt `failed_write`,
--     `drain_pending` and `help_others` as steps of threads that put. The other files prove.
--   Search.antt and below: src/components/search_layer, and `async_update` of compute_node.cpp. Towers.antt is
--     the memory of the nodes, Walk.antt the searches, Update.antt `insert`, `calibrate` and `remove`;
--     Descend.antt says when a list is well-formed (IsSkipList). The other files prove.
--   Scan.antt and Scan/Short.antt: `ComputeNode::scan`, on the skip list and remote memory.
--   Memory.antt and below: src/components/memory. Page.antt is the compute node's allocator (pages, page
--     groups, segments), Bitmap.antt the memory node's, Pointer.antt `RemotePointer`, Remote.antt
--     `offer_remote_segment` and `ComputeNode::allocate`, Polymorphic.antt `PolymorphicPointer`.
--   DiStoreString.antt and below: src/components/kv/kv.hpp. Workload.antt and below:
--     src/components/workload/workload.hpp.
--   Cluster.antt and below: src/components/node/node.hpp and node.cpp, and `parse_config_file` of
--     src/components/memory/compute_node/compute_node.cpp.
--   CmdParser.antt and below: src/components/cmd_parser.
--   Misc.antt and below: `send_all` and `recv_all` of src/components/misc/misc.cpp.
--   Rdma.antt and below: src/components/rdma_util: devices and contexts, the exchange of certificates, the
--     queue pair's states, and the posting of reads and writes.
--   Tests.antt and below: runs, and the theorems at concrete inputs.
--
-- State. A buffer is a LinkedNode; remote memory is a function from addresses to LinkedNodes, where a
-- write moves the header and as many pairs as its size holds. The addresses that the allocator gives and
-- whether a completion failed are an argument, `Outside`. CityHash64 and Boost's CRC are the parameters
-- `city` and `checksum`, of which nothing is assumed. What std::regex finds in a text and what libibverbs,
-- `write` and `read` return are arguments too. A key or value is a list of bytes. The skip list is a
-- function from addresses to nodes, whose tower is the list of its pointers; each level is compared with the
-- nodes of the whole list that are at least so high. A read past a tower or through null is a result of its
-- own, `undefined_behaviour`, and running out of fuel another, `unfinished`.
--
-- Fuel. `get` starts over while the checksum does not fit what it fetched, so that its model takes
-- fuel, one unit to a pass, and returns nothing when it runs out. The theorems say in which pass it
-- returns. The walks along a level of the skip list take one unit for each node passed, and the theorems
-- ask for more units than the list has nodes. `offer_remote_segment` takes one for each memory node asked,
-- `scan` one for each pass, `digits` one for each decimal digit, of which a `uint64_t` has at most 20.
-- The loops of `send_all` and `recv_all` run over the list of what the system calls return. `highest_bit`
-- stands for `63 - __builtin_clzll`, on the 64 bits of a word. All other loops are recursion on what they
-- walk over.
--
-- Not modelled: threads that wait for a winner of an update, and the contents of the buffers while threads
-- wait; the interleaving of searches with changes of the skip list; more than one memory node in `scan`;
-- `free` of the compute node; the scatter elements, the receives and the status names of the RDMA wrapper;
-- start-up, the set-up of sockets, RPC, statistics and printing, which are I/O; and the copies of CityHash
-- and of the Zipf generator.
pub mod Base
pub mod DataLayer
pub mod Split
pub mod Compute
pub mod Memory
pub mod Search
pub mod DiStoreString
pub mod Workload
pub mod Scan
pub mod Cluster
pub mod CmdParser
pub mod Misc
pub mod Rdma
pub mod Tests
