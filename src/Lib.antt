-- ===== src/Lib.antt =====
-- Verification of the btelem viewer: the Rust crates below viewer/crates that decode, ingest, store
-- and record the telemetry of a btelem device, the state of the viewer's windows and the layouts they
-- are saved in.
--
-- The program. A device serves a schema blob and then packets of log entries over TCP, each with its
-- length in front. The ingest thread (btelem-ingest) connects, decodes the schema (btelem-wire),
-- registers a channel for each field in the store (btelem-store) and remembers in a channel map how
-- to read each entry; then it reads packet after packet, decodes it, dispatches the fields of its
-- entries into the store, and hands the raw packet to the capture ring (btelem-capture), which can be
-- saved to a file. When a session ends the thread backs off, clears the store and the capture, and
-- connects again. The viewer (btelem-viewer) queries the store by channel and time range and keeps
-- plots, filters, cameras and markers.
--
-- The files.
--   Prelude      lists measured by native numbers, byte strings and words, `Result` with the `?`
--                operator, maps, decimal digits, integers
--   Float        `f64` as a parameter: a carrier with the operations that the program uses
--   Wire         viewer/crates/btelem-wire/src/lib.rs: constants, `need`, `read_u8` .. `read_u64`,
--                `read_cstr`; the children are Utf8 (the standard library's decoding of UTF-8), Packet
--                (packet.rs), Schema (schema.rs) and Value (value.rs)
--   Store        viewer/crates/btelem-store/src: Types (lib.rs), Mock (the methods of `MockStore` that
--                write), Query (the range queries) and Sample (`sample_at`)
--   Ingest       viewer/crates/btelem-ingest/src: Mapper (`ChannelMap::build`), Dispatch
--                (`ChannelMap::dispatch`), Tcp (`read_exact_or_eof`, `packet_loop`, `connect_once`) and
--                Reconnect (`run_with_reconnect`)
--   Capture      viewer/crates/btelem-capture/src/lib.rs: Ring (`Inner`, `extract_meta`, the methods of
--                `Capture`), File (`write_btlm_inner`, `read_btlm`) and Date (`utc_components`, the
--                suggested file name)
--   View         viewer/crates/btelem-viewer/src/view_state.rs: Panels, ScalarPanel, LogicPanel, Filter,
--                Registry, Markers, Camera, Names and Connection; its child Layout is
--                viewer/crates/btelem-viewer/src/layout.rs: Slug (`slug`), Migrate
--                (`migrate_chains_to_links`), Files (`save`, `load`, `list`, `delete`), Dock (what the
--                source uses of egui_dock), Capture (`capture`), Resolve and Apply (`apply`)
--   Render       viewer/crates/btelem-viewer/src/plot_renderers.rs: LogRows (`build_log_rows`,
--                `row_passes_filters`), Truncate (`truncate_rows`, `sample_even_over_time`), Labels
--                (`format_logic_value`, `palette`, `name_seed`, `move_targets`, `collapse_groups`) and
--                Curves (`step_polyline`, `nearest_signal`, `hit_marker`, `hit_delta_line`)
--   App          viewer/crates/btelem-viewer/src/app.rs: Selection (`update_selection`) and Drop (the
--                payloads that `ViewerTabs::ui` handles)
-- A module below one of these states and proves what its parent does; each Tests module applies the
-- theorems to small inputs.
--
-- The model. A function that mutates its receiver takes the state and returns the new one; a lock
-- makes each method one step. Errors are values of `Result`; an index beyond a slice is a panic, also
-- a value. A byte is a number, a slice a list of bytes, a `String` the list of its bytes. Words keep
-- their width where the source can wrap: the revision, the ids of channels, offsets of array
-- elements, the words of bitfields and the year of a date are taken modulo the width. Byte counts, counters of
-- packets and ids of markers are not wrapped: they do not reach 2^64.
--
-- Loops. Those over lists, tables and entries are structural. A socket is the list of what its reads
-- will give, so reading it is structural too. `packet_loop` is told for how many more tests the stop
-- flag is clear, and the reconnect loop gets the attempts that the network allows until it is set:
-- both are what the environment decides, not bounds of the program. The search for the year takes
-- fuel, `days / 365 + 1`, and the theorem on dates shows that it is enough while the year fits its
-- `u32`; a back-off gets the answers of its tests of the stop flag; twenty decimal digits hold every
-- 64-bit number, and so do 64 digits in the bases 2 and 16.
--
-- Outside. `f64`, the tree of egui_dock, the JSON text of a layout, the directory of the layout files,
-- the text of a number and the place of a point on the screen are parameters. A theorem that needs a
-- law of one has the law as a hypothesis, and an instance satisfies the laws.
-- Not modelled: threads and their handles, system calls that set time-outs or fail to create or write
-- a file, `RateEstimator::rate`, `group_by_struct`, the drawing of
-- plots, the gestures and the other events of the application, and the C and Python parts of the
-- repository.
pub mod Prelude
pub mod Wire
pub mod Float
pub mod Store
pub mod Ingest
pub mod Capture
pub mod View
pub mod Render
pub mod App
