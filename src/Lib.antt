-- ===== src/Lib.antt =====
-- wrb: the storage of web pods and the text user interface of the wrb browser.
--
-- A page of wrb is a Clarity program that draws on viewports and keeps data in the slots of a
-- replicated database. This library models the two parts that hold state of their own:
--
-- * Storage (src/storage). A chunk of the database holds the slices of one application
--   (WrbpodSlices), and the superblock (WrbpodSuperblock) says which application owns which slot.
--   Storage/Slices.antt has the operations of WrbpodSlices and Storage/Slices/Wire.antt its
--   bytes, both from src/storage/mod.rs and src/storage/wrbpod.rs; Storage/Superblock.antt has
--   fill_free_slot, allocate_slots and delete_slots. Storage/Codec.antt is the interface of the
--   message codec, which is a library: its functions are a parameter with named laws, and
--   Storage/Codec/BigEndian.antt and BigEndianVec.antt show that they can hold.
--   Storage/Superblock/Wire.antt has the bytes of the superblock. Storage/Wrbpod.antt is the
--   client Wrbpod of src/storage/wrbpod.rs (the superblock, put_chunk and the reading of chunks),
--   Storage/Wrbpod/Manage.antt opens, formats and allocates, and Storage/Wrbpod/Slots.antt is what
--   an application calls (fetch_chunk, get_slice, put_slice, sync_slot). It talks to two nodes
--   through the interface StackerDbClient of Storage/Client.antt, where the hashes and signatures
--   are a record of functions too.
--   Storage/Local.antt is one node: the LocalStackerDBClient of src/storage/mock.rs.
-- * Ui (src/ui). Ui/CharBuff.antt is the grid of character cells of src/ui/charbuff.rs, with its
--   word-wrapping printer in Ui/CharBuff/Wrap.antt; Wrap/Words.antt says what the words of a text
--   are, and Wrap/Layout.antt where they go. Ui/Viewport.antt is src/ui/viewport.rs, which keeps a
--   grid at a place of the page. Ui/Scanline.antt compiles a grid to drawing commands as
--   src/ui/scanline.rs does; Ui/Scanline/Screen.antt is a screen that obeys them, where a line that
--   is cleared loses what was written in it. Ui/GapBuffer.antt, with the other operations in
--   GapBuffer/Move, Walk, Read, Area, Extent and Iter, is the gap buffer of the text area in
--   src/ui/forms/textarea.rs; GapBuffer/Walk/Place.antt has the moves by words and lines on a text
--   without a gap. Ui/Color.antt is Color. Ui/SceneGraph.antt is SceneGraph and
--   Ui/Root.antt, with Ui/Root/Focus.antt, is Root, both of src/ui/root.rs: which viewport is seen
--   where, the frame that is rendered, and which form has the focus and gets the events. A form is
--   a value of any type with the methods of WrbForm (src/ui/forms/mod.rs). Ui/Forms.antt has what
--   keys do to the forms in src/ui/forms/textline.rs, checkbox.rs and button.rs.
--
-- Common passes on the library's names and has the tests, list functions, ordered maps and
-- big-endian numbers that the parts share. Modules below a component prove; the modules named
-- Runs have its tests.
--
-- A character is its code point, a byte a number below 256, a string of the storage its bytes.
-- Numbers are natural numbers. The build is a release build on a 64-bit target: sums and
-- products of u64 and usize that come from outside wrap (add_u64, mul_u64), and a conversion
-- between usize and u64 does not fail. Counters and indices that a list in memory bounds are not
-- reduced. A panic (an index out of range, a division by zero, a failed assertion) is the value
-- none of an option. Loops are structural recursion on the list that is traversed or on the
-- rounds that the code's range has. A while loop of the gap buffer has as its rounds the
-- characters in its direction, and one more where its last round is the one that stops, so that
-- the rounds cannot run out before it stops. The loops of put_chunk and upload_superblock have
-- their rounds as an argument, since a node can keep them going, and are none when these run
-- out. The loop of fetch_chunk has two rounds, the second with the signers refreshed. The walk
-- from a viewport to the root has one round more than there are viewports. A method of Wrbpod
-- gives its error with the state that it leaves.
--
-- Not modelled: the decoding of Clarity values, logging and debug flags, the terminal, the
-- database, the network and the virtual machine, which are libraries or input and output; tx and
-- net, which are copies of another project's code; the setting and updating of the forms of Root,
-- and of the forms their rendering and the key handler of the text area.
pub mod Common
pub mod Storage
pub mod Ui
