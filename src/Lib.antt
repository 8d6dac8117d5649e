-- ===== src/Lib.antt =====
-- Cubicle runs commands in detached workspaces. A manager daemon owns the workspaces and their
-- sessions; it starts one controller process per command, which keeps the command's output, serves a
-- control socket, and outlives its clients; the command line tool, the desktop and libcubicle talk
-- to both. This library models the parts of the C sources that are pure computation or state
-- machines, and proves what they promise.
--
-- Base holds the shared names: Boolean tests, lists, texts as bytes, and Base/Result the error
-- numbers and the result type of the calls that fail with errno.
--
-- Auth models src/common/auth_protocol.c, the bytes that the two ends of a connection sign.
-- `append_bytes`, `append_u32`, `append_u64` and `append_string` carry the C names;
-- `encode_transcript` and `encode_resume` are cubicle_auth_encode_transcript and
-- cubicle_auth_encode_resume. A buffer is its size and the bytes written so far. Auth/Writer is the
-- calculus of what a chain of writes appends, Auth/Exact and Auth/Injective use it.
--
-- Json models the text half of src/common/rpc.c. Json/Chunk is the `switch` on one byte, Json/Buffer
-- cubicle_json_escape and append_json_string on a buffer of fixed size, Json/Builder the growing
-- builder of include/cubicle/rpc.h, whose `realloc` is an argument, Json/Prefix
-- cubicle_json_safe_utf8_prefix_length, with Json/HeldBack on what a cut character does. Json/Reader is a reader of JSON strings and of UTF-8 written
-- from RFC 8259 and RFC 3629, not from the code, and Json/Utf8 says what a text with broken UTF-8 is
-- repaired to. Sixty-five doublings take any block past the range of `size_t`, so that the fuel of
-- `grow` never runs out.
--
-- Control models the client table of src/controller/control.c. Control/Client has `Client` for
-- control_client_t (src/controller/internal.h), closing and the idle test; Control/Enqueue the queueing
-- of responses, again with `realloc` as an argument, Control/Flush the writing of them,
-- Control/Accept the free slots, Control/Read the reading of lines and frames. The results of
-- `read`, `write` and `accept` are lists that the functions consume, one element for each call that
-- the loop makes, so every order of interruptions, short writes and failures is a list. The
-- dispatchers of complete requests are arguments of the reader. Control/Framing, Frames, Lines and
-- Requests are about how bytes become requests, Clock, Stored and Calls about requests whose bytes come at
-- different times and over several calls of the reader, Valid and Invariant hold the invariant of a slot.
-- Control/Streams has the names of the streams and forward_attached_stdin. Twenty-four doublings take
-- any block to the limit of 4 MiB.
--
-- Config models the second half of src/common/config_parser.c, the reader of configuration files of a
-- build without a library for them. Config/File is the list of entries with add_entry,
-- cubicle_config_file_get_string and cubicle_config_file_get_keys, Config/Parse is
-- cubicle_config_file_read on the lines that `getline` gives. The allocator is an argument; the copies
-- that the lookups make are taken to succeed.
--
-- Config/Values, Keys, KeyParser and Bindings model the parsers of single values, the names of keys and
-- the bindings of the desktop in src/common/config.c, without the texts of their errors.
--
-- Registry models the fields and the process records of src/manager/registry.c, and Json/Envelope the
-- request and success envelopes of src/common/rpc.c, where whether a text is JSON is an argument.
--
-- Terminal models src/common/terminal_model.c around the emulator libvterm, which is not in the
-- repository: its callbacks are functions here and its cells data. Terminal/Cell is the text and the
-- style of a cell, Terminal/Scrollback both scrollbacks with the allocator as an argument,
-- Terminal/Response the answers and the keys, Terminal/Damage the damaged rows. Terminal/History is
-- the bounded history that the ring of captured lines is compared with, in Ring, Capture and Taking;
-- Text and Style are about the cells, Terminal/Modes is the mode of the cursor keys over split input.
-- Whole snapshots are left out.
--
-- Desk models the layout of the panes of src/desk/main.c. Desk/Nodes is the table of 32 nodes, where an
-- index of -1 is `none`; Desk/Tree has the walks over it, on fuel of one for each level, and the loops
-- over the panes; Desk/Rects the rectangles and the zoom, Desk/Edit splitting, adding, deleting and
-- renumbering, Desk/Direction moving and swapping, Desk/Resize and Desk/Transpose what their names say,
-- Desk/Grid the layouts for a number of panes with `strtol` as an argument, Desk/Names the names of
-- saved layouts, Desk/Input the keys that the desktop reads itself, which Desk/Keys describes apart from
-- the code. Halves and Leaves are about the table when a pane is split, Search about the walks. The walks
-- have fuel for 32 levels, one for each node of the table: where the halves of splits form a tree, no
-- node stands deeper. A saved file can hold a cycle, on which the C functions do not return. Pane ids and
-- terminal sizes are not negative.
--
-- Not modelled: what the dispatchers do with a request, the stream loop and the event log of the
-- controller, the manager, what the desktop draws and sends, the command line tool, the client library,
-- the merge of the configuration files, and what is input and output alone. yyjson under third_party is a
-- copy of another project.
pub mod Base
pub mod Auth
pub mod Json
pub mod Control
pub mod Config
pub mod Desk
pub mod Registry
pub mod Terminal
