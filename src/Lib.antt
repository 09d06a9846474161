-- ===== src/Lib.antt =====
-- Verification library of drift, a remote desktop client for macOS written in Rust: the session
-- core, the session actor, the keyboard translation, the clipboard and the client of the graphics
-- channel.
--
-- The program. A session actor (crates/drift-rdp) connects to a GNOME host, follows its redirects
-- and feeds the channels. Its visible state is the state machine of crates/drift-core; whether and
-- when a lost connection is retried is decided there too. Key events of macOS pass through
-- crates/drift-input and leave as wire-level input events. The graphics channel hands its payloads
-- to crates/drift-gfx, which drives the renderer behind the FrameSink interface and acknowledges the
-- frames that the renderer presented.
--
-- Base: lists, results, Boolean tests over the native numbers, and ordered maps (BTreeMap).
--
-- Core (crates/drift-core/src).
--   Core.Geometry is geometry.rs: sizes, points and rectangles in u32, saturating edges.
--   Core.State is state.rs: SessionState, DisconnectReason, `transition` (SessionState::transition).
--     Core.State.Rules has the step relation `Step` of the documented state graph, and
--     Core.State.Paths the sequences of transitions from the idle state.
--   Core.Reconnect is reconnect.rs: ReconnectPolicy with its random generator, the capped
--     exponential backoff and the budget of attempts. Instants and durations are counts of
--     nanoseconds in one clock. Core.Reconnect.Backoff is about the delays, Core.Reconnect.Budget
--     about any sequence of calls.
--   Core.Triggers is triggers.rs: TriggerMerger, which merges the network, sleep and wake events.
--   Core.Profile has the modes and preferences of profile.rs, and Core.Floats the f64 operations that
--     the code takes from the language, with ViewGeometry of geometry.rs.
--   Core.Layout is layout.rs: `desired_layout`, the monitor layout for a view. Core.Layout.Bounds has
--     its bounds.
--   Core.Events is input.rs (InputEvent) and the keyboard preferences of profile.rs.
--
-- Input (crates/drift-input/src).
--   Input.Keymap is keymap.rs: the virtual key codes (Input.Keymap.Ansi, Input.Keymap.Codes) and the
--     table of scancodes (Input.Keymap.Table), as a list of rows in the order of the source's arms.
--   Input.Modifiers is modifiers.rs: flag words, the eight modifier keys and sets of them in a u8.
--   Input.Unicode is unicode.rs: the routing of a key, and text as UTF-16 units.
--   Input.Keyboard is keyboard.rs: the record Keyboard and one operation for each method. An
--     operation returns the new state and the events that the method appends to its output.
--     Input.Keyboard.Wire has the independent view of the events, `replay`: the remote holds a set of
--     pressed scancodes, and accepts a press only of a key that is up and a release only of one that
--     is down. Input.Keyboard.Press, Batch, Typed and Sound have its lemmas for each operation, and
--     Input.Keyboard.Calls runs any list of calls; Input.Keyboard.Command is about the Command key,
--     whose press is deferred.
--
-- Gfx (crates/drift-gfx/src).
--   Gfx.State is state.rs and error.rs: GfxState, the rectangle checks and the errors.
--   Gfx.Ack is ack.rs: the shared state of the acknowledgements. Each lock section is one step, and
--     Gfx.Ack.Laws runs the steps of the client, the render thread and the actor in any order.
--   Gfx.Pdu has the PDUs of the channel, Gfx.Sink the calls of FrameSink (sink.rs) and the contract of
--     a sink as a checker. Gfx.Monad has the `?` of methods that change a state before they fail.
--   Gfx.Client and Gfx.Handler are client.rs: GfxClient, its drawing commands and `handle_pdu`; the
--     log of sink calls is a field of the client.
--     Gfx.Contract says what a sink may rely on: the calls that a method makes, checked by the sink's
--     contract from the old state to the new one; its children go through the commands, the
--     payloads and any history of calls.
--   Gfx.Payload is the rest of client.rs: the loop over the PDUs of a payload, and the DVC processor.
--
-- Rdp (crates/drift-rdp/src).
--   Rdp.Redirect is redirect.rs and the credentials of rdstls.rs: RedirectLoop, one leg after another,
--     and the routing token. Rdp.Redirect.Legs and Rdp.Redirect.Tokens are about the two,
--     and Rdp.Redirect.Following about any sequence of PDUs.
--   Rdp.Resize is resize.rs: ResizeDriver; Rdp.Resize.Sends and Rdp.Resize.Settles run any calls of it.
--   Rdp.Greeter is greeter.rs: GreeterTypist; Rdp.Greeter.Typing runs it at one greeter.
--   Rdp.Actor is actor.rs, with Rdp.Actor.State, Rdp.Actor.Ends and Rdp.Actor.Gate (`Io`): the actor is
--     a machine whose phases are the places where the source awaits. `step` hands an event to the
--     handler of the phase, and `run` any list of events, each at its instant. The redirect loop, the
--     reconnect policy, the resize driver and the typist are fields of the actor, called as the source
--     calls them. Rdp.Actor.Sound, Allowed and Rejections are about the gate of the states, Keeps and
--     History about what is emitted, Greeting about the typist.
--
--   Rdp.Certificates is the certificate decision of connect.rs, with the prompt of actor.rs; the
--     digest of a certificate is a parameter, and the actor machine has no prompt.
--   Rdp.Fastpath is fastpath.rs: InputEncoder; Rdp.Fastpath.Held has what the server then holds.
--
-- Clipboard (crates/drift-clipboard/src).
--   Clipboard.Text has the text conversions of formats.rs, Clipboard.Formats the formats, with
--     Clipboard.Formats.Images for PNG and DIB, and Clipboard.Formats.Convert for what is offered and
--     fetched.
--   Clipboard.Sync is sync.rs: ClipboardSync (Clipboard.Sync.State), the inputs from the app
--     (Clipboard.Sync.Local) and those from the server, and `handle`, which takes the instant of the
--     clock. Requests, Scope and Findings are about the requests on the wire, the offers of the local
--     clipboard, and two corners.
--
-- Video (crates/drift-video/src).
--   Video.Annexb is annexb.rs: the Annex-B and AVCC byte streams of H.264.
--   Video.Sps is sps.rs: Reader is BitReader, as a monad over the bytes and the position, Writer is
--     BitWriter, Escape the emulation prevention, Syntax the elements of an SPS, Vui the copied and
--     the new VUI, and Video.Sps itself has parse and with_bt709_full_range. Streams, Elements,
--     Written, Copied, Signal, Rewriting, Headed, Rewritten and Info are about which bits a read
--     takes and which bits were written. The position is a natural number without bound.
--   Video.Metablock is metablock.rs: the metablock of an AVC420 bitmap stream.
--
-- Codec (crates/drift-codec/src).
--   Codec.Tile is tile.rs and error.rs: BgraTile and its blits; Codec.Blits is about the blits.
--   Codec.Uncompressed is uncompressed.rs.
--   Codec.Progressive is progressive.rs. Blocks has the blocks of a stream and Iron, the parameter for
--     the crates ironrdp-graphics and ironrdp-pdu. Rounds groups the tiles of a REGION, Tiles prepares
--     one tile and Running decodes it; Regions has the tiles of a REGION and what of them is visible,
--     Loops the loop over the blocks, and Decoder is ProgressiveCodec. Pixels and Shown carry
--     what holds of a tile through the decoder; Bounds is about the rectangles that are updated,
--     Blitted about their blits, and Isolation and Surfaces about what is retained of other surfaces.
--     A map with the surface in its key is a function. The parallel run of a round is a map over its
--     jobs, each of which owns its state. A tile that is shown from its retained state is rendered
--     inside the loop, from the same grid.
--
-- Parameters. The pixel codecs, the H.264 decoder, ZGFX and the PDU parsers belong to drift-codec,
-- drift-video and the IronRDP crates. For the client they are the record Gfx.Codecs.Codecs, without
-- hypotheses; Codec.Progressive is not put in its place. What progressive.rs takes of other crates is
-- the record Iron; the bound of the updated rectangles has the hypothesis that an intersection with
-- a rectangle lies inside it and has no empty part, their blits also that a reconstructed tile has
-- 16384 bytes. The f64 operations are the record Core.Floats.Floats, without hypotheses; the decoder of
-- the target certificate of a redirection is a parameter too, and the conversions of the image crate are the record
-- Clipboard.Formats.Images.Images. A codec with a state returns it also when it fails.
--
-- Fuel. The loop over a payload is recursion on one unit of fuel for each byte; it takes at least
-- eight bytes in each round, so the fuel is enough for any payload. The loop that shrinks a layout has
-- 16385 units, and the loop over an AVCC sample one for each byte: the sides of a layout are at most
-- 8192 each, a round takes a pixel off one of them, and a NAL unit has a length prefix of a byte or more.
--
-- Not modelled: texts of errors and logs, and the reason string of a disconnect; the size of a
-- view in pixels; of a live leg the clipboard, graphics, statistics and wire writes, and the
-- certificate prompt inside the machine of the actor; the buffer that process_payload keeps
-- between calls; the mutex of the acknowledgements (each lock section is atomic); threads,
-- sockets, Metal, AppKit and the Tauri front end.
pub mod Base
pub mod Core
pub mod Input
pub mod Gfx
pub mod Rdp
pub mod Clipboard
pub mod Codec
pub mod Video
