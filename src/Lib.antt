-- ===== src/Lib.antt =====
-- wire-harness: the decoders, the comparison of traces and the roll checks of the conformance client.
--
-- The client talks to a World of Warcraft 1.12.1 server and judges what it sends. A packet's body is
-- decoded into named fields (src/decode.rs). A second, independent decoder reads the VALUES blocks
-- of an object update (src/values_mask.rs). A recorded stream and a live one are laid side by side
-- by the alignment of src/compare.rs, and their fields are compared under the rules of a scenario,
-- which pairs the GUIDs of the two servers as it goes. Two statistical checks count the outcomes of
-- swings and spells from decoded packets (src/rolls.rs, src/spell_rolls.rs). Decoded packets are kept
-- in traces, without their texts (src/trace.rs). A scenario says what each Character sends, and what
-- a step makes of the packets it receives (src/scenario.rs); the benchmark reads the
-- counters of the server from a Prometheus scrape (src/metrics.rs).
--
-- Files.
--  Prelude: the shared names, lists measured by native numbers, Boolean tests, bits, results.
--  Decode: src/decode.rs. Decode/Field has `Field` and `Packet`, with a `BTreeMap` as an association
--   list. Decode/Body has the methods of `Body`: a parser takes the bytes that are left and
--   gives an error or a value and the bytes after it. Decode/Movement has `movement_info`, `targets`
--   and `movement`. Decode/Packets has one definition for every arm of the `match` of `decode`, by
--   subject. Decode/Dispatch is `decode` itself, with the inflater as a parameter. Decode/Stable,
--   Decode/Framing and Decode/Compressed are about them.
--  ValuesMask: `parse_values_updates` of src/values_mask.rs; ValuesMask/Reads, ValuesMask/Agreement,
--   ValuesMask/Kinds, ValuesMask/Frames, ValuesMask/Truncation and ValuesMask/Bounds are about it.
--   Agreement and Frames compare it with Decode.
--  Align: `align` of src/compare.rs. Align/Score orders the values of an alignment, Align/Matching
--   says what an alignment is, Align/Rows is about `lengths`, Align/Split about the two halves,
--   Align/Greatest about `max_by_key`, Align/Single about one expected packet, Align/Optimal about
--   `lcs`, Align/Cache about the cached scores, Align/Output about the result.
--  Compare: the comparison of two fields in src/compare.rs. Compare/Rules has the rules, over a
--   parameter for f64, Compare/Equality the equality of fields, `subject` and `data_shape_matches`,
--   Compare/State the Comparator with its GUID maps and differences, Compare/Ruled the rules in the
--   order in which `field` tries them, Compare/Fields `field` and `fields`: a definition takes the
--   Comparator as it stands and gives it as it stands then. Compare/Deviations has `finish` and the
--   counts of a Comparison. Compare/Bijection, Compare/Growth, Compare/Enough, Compare/Same, Compare/Keys,
--   Compare/Pairs, Compare/Sound, Compare/Report and Compare/Finished are about them.
--  Metrics: Metrics/Labels has `parse_labels`, `split_key`, `label_value` and the writing of labels in
--   src/metrics.rs, Metrics/Samples has `parse_sample` and `parse`, over code points. A `BTreeMap` is
--   a list in the order of its keys. Reading an f64 is a parameter. Metrics/Window has
--   `Snapshot::counter_delta`, over a parameter for f64. Metrics/Order, Metrics/Escapes,
--   Metrics/RoundTrip, Metrics/Parsed, Metrics/Keys, Metrics/Lines, Metrics/Inserted, Metrics/Scraped,
--   Metrics/Shorter, Metrics/Loop and Metrics/Kept are about them.
--  Scenario: Scenario/Packets has `ClientPacket` of src/scenario.rs and its `encode_with`;
--   Scenario/Bits, Scenario/Guids and Scenario/Bound are about it. A GUID map is an association list.
--   Scenario/Steps has `Step` and `Checkpoint` and the streams they declare, Scenario/Observations
--   has `Observation::from_frame_for_rules`, with the decoder of Decode; Scenario/Declared and
--   Scenario/Classified are about it. Scenario/Fixtures has `validate_fixtures`, with f32 as bit patterns
--   and a `BTreeSet` as a list whose order stands for nothing; Scenario/Members and Scenario/Entered are
--   about it.
--   Scenario/Connections has the part of `validate_multi` that keeps who is connected, over the steps
--   and their timed events; Scenario/Sessions is about it.
--  Reading: how the roll checks read the fields of a packet.
--  Rolls: `Specification` and `Counts` of src/rolls.rs, and `Counts::observe`, which gives its result
--   and the counts as they stand then. Rolls/Binomial has `binomial_p_ratio_upper` over a parameter
--   for f64, Rolls/Recording has `CheckRecording` and `compare`; Rolls/Swings and Rolls/Blocks are
--   about them.
--  SpellRolls: `Collector` of src/spell_rolls.rs, where `observe` gives its result and the collector
--   as it stands then. SpellRolls/Outcomes has `Counts`, SpellRolls/Recording has `Specification`,
--   `CheckRecording` and `compare`. SpellRolls/Protocol has the step relation of the collector,
--   SpellRolls/Reported what a packet reports of a cast, SpellRolls/Reads, SpellRolls/Said and
--   SpellRolls/Completed are about the packets that complete one,
--   SpellRolls/Landed what every state satisfies, SpellRolls/Session the runs without an error;
--   SpellRolls/Totals is about the sums of a recording.
--  Trace: Trace/Recorded has `RecordedField` of src/trace.rs and `identifier` of src/scenario.rs,
--   with SHA-256 as a parameter; Trace/Packets has `Trace::record` and `Trace::validate`.
--   Trace/Depth and Trace/Opening are about them.
--  Tests: runs on concrete inputs.
--
-- Bounds. `lcs` takes the number of expected packets as fuel: each half of a list of two or more is
-- shorter than the list. `decimal` takes one round for a digit of its number.
-- `field` takes one round for a level of the expected field, and `data_shape_matches` as well; the
-- loop of `parse_labels` takes one round for a character, and running out of rounds is an error that
-- the source does not have. Machine integers wrap
-- where the source's do: the u32 additions of Rolls/Recording and SpellRolls/Recording. Checked
-- additions are tests against 2 ^ 32. Everything else is structural.
--
-- Not modelled: the text of errors and of reports, the inflater, SHA-256 and the f64 operations
-- (parameters), the comparison of whole traces and the validation of rules in src/compare.rs, the
-- rest of src/trace.rs and src/scenario.rs, the benchmark's sums of src/metrics.rs, sockets, files, serialization,
-- and the parts of the repository that drive a live server (src/lib.rs, src/runner.rs,
-- src/scenarios, src/bin, adapters).
pub mod Prelude
pub mod Decode
pub mod ValuesMask
pub mod Align
pub mod Reading
pub mod Rolls
pub mod SpellRolls
pub mod Trace
pub mod Compare
pub mod Metrics
pub mod Scenario
mod Tests
