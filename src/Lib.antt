-- ===== src/Lib.antt =====
-- ircord-client: an end-to-end encrypted chat and voice client with a terminal interface. This
-- library models its core logic and proves what the parts promise.
--
-- The program: the network client (src/net/net_client.cpp) keeps one TLS connection and turns bytes
-- into envelopes; the message handler (src/net/message_handler.cpp) decrypts and routes them into the
-- shared state (src/state/app_state.cpp), which the render thread (src/ui/ui_manager.cpp) shows.
-- What the user types goes into the input line (src/ui/input_line.cpp), is completed by
-- src/input/tab_complete.cpp and read by src/input/command_parser.cpp; src/app.cpp acts on it. Voice
-- packets go through one jitter buffer per peer (src/voice/jitter_buffer.cpp), files through the
-- transfer manager (src/file/file_transfer.cpp).
--
-- The files:
--   Base       numbers, lists, texts (lists of bytes), maps (association lists), sorting, decimals.
--   InputLine  src/ui/input_line.cpp: the record InputLine, a function for each method, Action and
--              act for any call; Utf8 has to_utf8 and from_utf8. Cursor, Edit, History and RoundTrip
--              hold the proofs.
--   AppState   src/state/: Types has the structures, Channels and Members the methods of AppState,
--              Change and act any call. Every method holds the lock from its start to its end, so
--              each is one step and threads interleave as lists of changes.
--   Transfer   src/file/file_transfer.cpp: Manager is the object with the files on disk and what it
--              sent; a section under the lock of the table is one Event, a round of a worker another.
--   Jitter     src/voice/jitter_buffer.cpp: a std::map from 16-bit numbers as an ascending list.
--   Voice      src/voice/voice_engine.cpp: the record VoiceEngine, a function for each method and each
--              callback of a connection: Rooms for rooms, calls and signals, Sound for what the peers
--              send and get, Rtp for the packets; Operation and act are any call. A peer holds a
--              JitterBuffer of Jitter, and the engine the AppState that it writes to.
--   Command    src/input/command_parser.cpp and src/input/tab_complete.cpp.
--   Net        src/net/net_client.cpp: the wire format, the reconnect counters, the outbound queue as
--              turns on the strand, the pinned certificate.
--   Handler    src/net/message_handler.cpp: the handler with the shared state and the queue of
--              closures of AppState::post_ui as tasks; a step is an envelope, a request, a timer or
--              a drain of the queue. It works on AppState and uses its theorems.
--   Config     src/config.cpp: Types has the records of src/config.hpp; Fields holds the reads of the
--              document for each section, Values the assignments; TomlLibrary and FileSystem are
--              the libraries. Patches and Sections are lemmas; RoundTrip, Import, Clear and Cleared
--              hold the proofs, Examples a library and a disk that obey the laws.
--   App        src/app.cpp: the record App has the handler inside, so that a submitted line, an answer
--              of the server and a drain of the queue work on one state; Commands has a function for
--              each command, Chat send_chat, Responses the answers, Switching the channel keys, Logs
--              the messages to the user (with push_system_msg of src/ui/ui_manager.cpp). Event and
--              on_event are what happens to it.
--   Screen     src/ui/message_view.cpp and src/ui/user_list_panel.cpp: the messages on the screen and
--              the width of the panel.
--   Markdown   src/ui/markdown_renderer.cpp: an element is a text with its style, a block the kind of
--              a line or a code block with its lines. parse_inline reads what is left of the line in
--              place of an index into it. Inline and Blocks hold the proofs.
--   Crypto     src/crypto/crypto_engine.cpp and src/crypto/group_session.cpp: the record CryptoEngine,
--              encrypt and decrypt over the calls of libsignal; Steps has the laws of its sender
--              keys. Handler and App have an engine of any kind as a parameter.
--
-- Numbers: sizes and counters of 64 bits that only count things in memory are unbounded; the wrap of
-- the 16-bit sequence numbers, of the 32-bit chunk index and of the 64-bit byte counter is written
-- out. Texts are lists of bytes and the code points of the input line numbers.
--
-- Threads: AppState does every call under its lock, and each section of the transfer manager under the
-- lock of its table is a step, two of them for download. The message handler, App and the voice engine
-- have state that several threads use without a lock: their steps are whole calls, and what is
-- modelled is the runs in which no two of these overlap in time.
--
-- Fuel: from_utf8 and read_loop give themselves as much fuel as there are bytes, and do_upload one
-- more than the file has bytes, parse_inline as much as the line has characters; each round takes a
-- byte at least, so it is enough.
--
-- Parameters: which entry begin() of a hash map gives, the identifiers of the uuid generator, which
-- paths can be written, when another thread stops an upload, the protobuf parser, the crypto engine
-- (a record of functions on a state of any type), the TOML library and the file system (records of
-- operations with their laws), the samples and the codec (the record Audio), whether the audio
-- device opens, libsignal (the record Signal, with the laws SenderKeys), and the answers that App
-- gets of the help pages, the store, the voice engine, the settings screen and the link previewer
-- (the record World). Time stamps are values that come in. A float of the configuration is a value
-- of any type, an int its word of 32 bits.
--
-- Not modelled: sockets, TLS, WebRTC, name resolution and coroutines, drawing on the terminal, audio
-- devices and codecs, SQLite and the ciphers, which the libraries do; the identity keys, the login
-- loop of src/app.cpp, the screens, the layout and the mouse in src/ui/, the help pages and the link
-- previews, none of which the theorems speak of.
pub mod Base
pub mod InputLine
pub mod AppState
pub mod Transfer
pub mod Jitter
pub mod Voice
pub mod Markdown
pub mod Crypto
pub mod Command
pub mod Net
pub mod Handler
pub mod Config
pub mod App
pub mod Screen
