-- ===== src/Lib.antt =====
-- Verification of c2pa-rs (Rust), the library that reads, writes and validates C2PA manifests.
--
-- Parts. A manifest store is a tree of JUMBF boxes. sdk/src/jumbf/boxes.rs writes it to bytes and
-- reads it back; sdk/src/jumbf/labels.rs makes and takes apart the URIs that name its boxes. While
-- a store is validated, every check logs an item in the status tracker (sdk/src/status_tracker);
-- at the end the items become validation statuses (sdk/src/validation_status.rs), and these, less
-- what an ingredient has recorded already, the validation results with their state
-- (sdk/src/validation_results.rs), which name the manifest of a status by its URI. The hashes that
-- the checks compare come from sdk/src/utils/hash_utils.rs and, for fragmented files, from the
-- Merkle trees of sdk/src/utils/merkle.rs, checked in sdk/src/assertions/bmff_hash.rs. An asset
-- handler, here those of PNG and HTML (png_io.rs and html_io.rs of sdk/src/asset_handlers), puts a
-- store into an asset, reads and removes it, and reports where it stands; the data hash
-- (sdk/src/assertions/data_hash.rs) excludes that part and binds the rest, the box hash
-- (sdk/src/assertions/box_hash.rs) binds the parts that the handler lists. A claim
-- (sdk/src/claim.rs) keeps the assertions, gives each label an instance of its own and links to
-- them by URI; its verification logs what it finds in the status tracker and checks, among others,
-- that links and assertions agree and that the data hash holds for the asset.
--
-- Files.
--   Prelude, Result, Error, Io: shared names and lemmas, outcomes (ok, err, panic), the crate's
--     errors, in-memory cursors and sdk/src/utils/io_utils.rs.
--   Jumbf/Boxes, Jumbf/Write: the boxes as the data type DataBox, `new`, `set_salt`, `box_size`,
--     `write_box`; the trait BMFFBox is the data type, an implementation of it a clause.
--   Jumbf/Header, Jumbf/ReadDescription, Jumbf/ReadContent, Jumbf/ReadSuper: `BoxReader`, one
--     function per method (read_header, read_desc_box, read_json_box, ..., read_super_box with
--     its loop read_boxes); read_store is the call in sdk/src/store.rs, with its test
--     for an empty buffer.
--   Jumbf/Labels: the functions of sdk/src/jumbf/labels.rs under their names;
--     Labels/ManifestParts its parts of a manifest label.
--   Jumbf/RoundTrip: what is written reads back, piece by piece (Parts, Description, Content,
--     Media, Found, Size, Leaf, Super, Store), and where writer and reader part (Limits).
--   Status/LogItem, Status/Tracker, Status/Log: the tracker and its laws.
--   Status/Codes, Status/ValidationStatus, Status/ValidationResults: statuses and results;
--     State, Flat and Verdict hold what is shown of them.
--   Hashing/Hasher, Hashing/Merkle, Hashing/Check, Hashing/Proof: hashing of a buffer, the tree
--     with its proofs, and the check of a proof.
--   Hashing/Ranges: `hash_stream_by_alg` and its callers, as a plan of spans and their hashing.
--     Select, Exclusions, Binding: the bytes that exclusions leave, and the hash of them.
--   Hashing/DataHash: the data hash; Padding and Verify hold what is shown of it.
--   Hashing/BoxHash: the box hash of sdk/src/assertions/box_hash.rs; Longer, Laws and RoundTrip hold
--     what is shown of it.
--   Assets/Positions: HashObjectPositions of sdk/src/asset_io.rs, and `Vec::splice`.
--   Assets/Png: the PNG handler. File has a PNG file as a list of chunks, Scan, Edit, Laws,
--     ReadBack and Locations relate the operations on bytes to it.
--   Assets/Trim, Assets/Html: `str::trim`, and the HTML handler. Page has the laws of the crates
--     and the trimming of base64, ReadBack relates writing, reading and the locations.
--   Assets/Bound: the data hash over a page, from one store in it to another.
--   Claim/Decimal, Claim/Labels, Claim/Assertion, Claim/Store: `usize` as text, the labels with
--     instances and with versions of sdk/src/assertion.rs and sdk/src/claim.rs, and the assertion
--     store. Parts, Unique and Redact hold what is shown of them.
--   Claim/Update: `update_assertion`, `replace_assertion` and `update_data_hash`; InStep and
--     Reserved hold what is shown of them.
--   Claim/Check: a check as a function from a tracker to a tracker and a result, with `log_item!`
--     and the operations that log it; Laws says what a composed check accepts.
--   Claim/Verify: `Claim::verify_internal` of sdk/src/claim.rs in parts. Head is the signature,
--     the icons, the redactions, the parents; Links the links and the stored assertions; Bindings
--     the hard bindings; Rules and Actions `Claim::verify_actions`; Internal their sequence;
--     Decoded has what serde makes of actions and ingredients. The modules Accepts under each have what it
--     accepts as a Boolean, Tracking the list of assertions without a link, Keys, Grow and Added a
--     claim that grows, Bmff and Bound the hard bindings, First the opening action, Panics a URI in
--     an action.
--   The modules whose names end in Tests hold runs on concrete inputs.
--
-- Model. Bytes, lengths and texts are native numbers and lists of them; a text is its UTF-8 bytes.
-- Arithmetic of u32 and u64 wraps around as in a release build where boxes.rs computes sizes. An
-- index out of bounds is the outcome `panic`. Streams are in-memory cursors, so a read fails only
-- past the end. What an asset handler writes goes to an empty output. Sequences that a vector
-- pushes to grow at their end. The text of an error (`Debug`) is an argument. An assertion has, beside
-- its own fields, what its methods `label` and `label_root` give, computed by `new_assertion`, which
-- panics where they do. The
-- asset of a claim is in memory, a stream or a fragment.
--
-- Bounds and fuel. The loop and the recursion of read_super_box run on fuel; running out is
-- `stuck`, a value that the source does not have. read_store gives the length of the stream as
-- fuel. Every box takes at least 8 bytes, so that is enough for what the writer makes. Stores are
-- bounded by 2^32 bytes, the range of a box size. The layers of a Merkle tree run on the number of
-- leaves, since a layer of more than one node is longer than the next; the chunks of a hash run on
-- the length of the data. The scan of a PNG file runs on its length, as a chunk takes 12 bytes at
-- least. `pad_to_size` pads at most as many times as the size that is wanted, starts once more
-- with at most half the padding, and so ends within twice that size and four rounds.
--
-- Not modelled: the SHA-2 functions (a hasher is a parameter, and where parts are hashed one
-- after another it is assumed to hash their concatenation), the crates range_set, png_pong,
-- img_parts, regex and base64 and the size of a serialized assertion (parameters too), the hash
-- of an assertion's box and the compatibility checks of the claim (parameters as well, since
-- they decode assertions), of the verification of a claim the decoding of assertions and the
-- check of BMFF hashes (parameters again), the rest of the claim, the wrappers of
-- boxes in the store, XMP in assets, the other asset handlers, operations on paths, the store,
-- builder and reader, signatures, identity assertions, settings, the C interface and the
-- command line tool.
pub mod Assets
pub mod Claim
pub mod Prelude
pub mod Result
pub mod Error
pub mod Io
pub mod Jumbf
pub mod Status
pub mod Hashing
