-- ===== src/Lib.antt =====
-- Factum: a store of knowledge nodes for agents, with soft retraction that cascades, permissions,
-- queries with conflict arbitration, and a queue of what a human must decide.
--
-- The parts and their files. Prelude holds Boolean tests, lists, bytes, integers and results;
-- HashMap a map as an association list with its laws. Core is crates/factum-core: Core/Platform
-- what the code takes from outside (the instants and dates of chrono, f32), a parameter of
-- everything; Core/Types and Core/Types/Equality the nodes and their derived equality
-- (crates/factum-core/src/types.rs); Core/PermissionTag; Core/Decimal the decimals of
-- `dec_from_str` and `to_canonical_string`; Core/Morphemes the registry
-- (crates/factum-core/src/morphemes.rs); Core/Canonical the canonical form of predicates and
-- Core/Canonical/Nodes that of nodes (crates/factum-core/src/serialize.rs); Core/Lexer and
-- Core/Lexer/Scan the tokens (crates/factum-core/src/lexer.rs); Core/Parser, with Base, Terms and
-- Nodes below it, the parser (crates/factum-core/src/parser.rs). Rt is crates/factum-rt: Rt/Storage
-- the in-memory backend (crates/factum-rt/src/storage.rs), Rt/Storage/Writes its laws;
-- Rt/Permission; Rt/Subscription; Rt/Verifier; Rt/Store the state of `FactumStore`
-- (crates/factum-rt/src/store.rs), with Entries (`build_insert_ops`), Write (`insert`,
-- `insert_batch`), Read (the lookups), Cascade (`retract_recursive`) and Retract (`retract`,
-- `retract_with_limit`); Rt/Query (crates/factum-rt/src/query.rs) with Match (`match_pattern`) and
-- Arbitration (crates/factum-rt/src/arbitration.rs); Rt/Review (crates/factum-rt/src/review.rs).
-- The other files hold theorems: Lexer/Progress and Lexer/Total are about tokens, Lexer/Reads,
-- Lexer/Yields, Lexer/Numbers and Lexer/Lexes about the tokens of given texts, Parser/Ensures,
-- Parser/Depth, Parser/Shrinks, Parser/Sound and Parser/Total about what the parser returns,
-- Decimal/RoundTrip, Parser/Durations, Parser/Tokens, Parser/RoundTrip, Parser/Spells and
-- Parser/Canonical about reading what the program prints, Store/Index says what a well-formed store
-- is, Added, Insert, Single and Batch are about writes, Cascade/Effect, Cascade/Post and
-- Cascade/Closure about cascades, Retract/Chosen about what a retraction lists, Lookup about
-- lookups, Run about sequences of calls; Query/Laws, Query/Answers and Query/Refusal are about
-- answers, Review/Laws and Review/Order about the queue. Latent is crates/factum-l:
-- Latent/PackedCodec (crates/factum-l/src/packed_codec.rs) the code of strings and argument types,
-- with PackedCodec/RoundTrip about it; Latent/Sequiv (crates/factum-l/src/sequiv.rs) the comparison
-- of predicates and Sequiv/Nodes that of nodes, with Rounds, Content and Laws about them.
-- Core/Calibration (crates/factum-core/src/calibration.rs) holds the confidence of a kind of
-- evidence, Core/Compact the compact form of nodes (crates/factum-core/src/serialize.rs). Mcp is
-- crates/factum-mcp: Mcp/Json the values of JSON, Mcp/Protocol requests and responses
-- (crates/factum-mcp/src/protocol.rs), Mcp/Params the parameters of the tools
-- (crates/factum-mcp/src/tools.rs), Mcp/Handler the state of the server; Mcp/Write (insert, batch,
-- retract, upsert), Mcp/Assert, Mcp/Read (query, lookup, resources), Mcp/Search, Mcp/Review the
-- tools and Mcp/Server the dispatch (crates/factum-mcp/src/handler.rs). Mcp/Serving, Mcp/Answers
-- and Mcp/Laws are about every request, Mcp/Reject, Mcp/Upsert and Mcp/Facts about single tools.
-- Tests holds concrete data.
--
-- How the code corresponds to the model. The store is a record that is passed from call to call; a
-- lock is held for one call at most, so calls are the steps. An insertion writes the backend, then
-- the in-memory indices, and tells the subscribers; a query reads the indices and arbitrates.
-- Errors are values beside the store that the call leaves. A map in memory is an association list;
-- where Rust iterates over a map, whose order is arbitrary, the model takes the order of insertion.
-- It does so for the validity index as well, a `BTreeMap` that Rust walks in the order of its keys,
-- so the order of what `lookup_valid_at` returns is not modelled. Text is its UTF-8 bytes. `f32` is
-- a type with operations and no laws; the theorems of PackedCodec/RoundTrip suppose one, that
-- quotients of small numbers are recovered by rounding, and those on bands of confidence another,
-- that decimals of two digits up to one keep their order. The server passes its store, its review
-- queue and the negotiated form from request to request. `Outside` of Mcp/Params is what serde
-- derives and the standard library gives: the readers of parameters, the text of values, the hash
-- of a text, lower case; the table of tools is one of its values.
--
-- Fuel: `retract_recursive` takes one unit more than there are nodes that are not retracted, since
-- each level of the recursion retracts one. `tokenize` takes one unit more than there are bytes,
-- since each token takes a byte; the parser two units for each token and two more, since each token
-- opens at most two calls. A panic of `winners[0]` under `HighestAuthority` is a result without an
-- answer.
--
-- Not modelled: the RocksDB backend (a third-party database), the transports of the MCP server and
-- the texts of its tool descriptions, the language-model encoder and decoder, the benchmarks and
-- the demo (input and output around the store), the vectors of the packed codec, the seed
-- morphemes, and the grouping by bindings of `arbitrate` without a pattern, which only tests call.
pub mod Prelude
pub mod HashMap
pub mod Core
pub mod Rt
pub mod Latent
pub mod Mcp
pub mod Tests
