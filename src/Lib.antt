-- ===== src/Lib.antt =====
-- A verification library for the crate: what the clients and aggregators of private aggregation
-- compute with, from machine words up.
--
-- The parts and their files:
-- * Common and Outcome are shared. Common.Words has the operators of `u64`, `u128` and `usize` with
--   their wrap-around written out; Outcome is what a Rust function returns: a value, an error, a
--   panic, or nothing because a loop does not end.
-- * Fp is src/fp.rs. A `u128` is a native number. `FieldParameters` is the record of that name, and
--   `add`, `sub`, `mul`, `pow`, `inv`, `neg`, `montgomery`, `residue`, `modp` and `log2` are the
--   functions of those names. `mul` is the composition of `product`, `reduce_first`,
--   `reduce_second` and `final_subtraction`, the four phases of the source's one function, with its
--   intermediate words as names. Fp.Params has FP32, FP64, FP96 and FP128, and Fp.Roots their
--   tables of roots.
-- * Codec is src/codec.rs. `Cursor` is a position and the bytes behind it, a `Decoder` takes a cursor
--   and an `Encoder` appends to a buffer. `decode_items` runs on `len + 1` rounds of fuel: a decoder
--   of items that takes a byte at least needs no more, and with any other the loop of the source
--   does not end. The functions of the package byteorder are the parameter `ReadBytesExt`, with
--   what its documentation says of them. Codec.Lawful is the contract between the codecs and
--   their users: on valid values encoding appends the value's bytes and decoding reads these back.
-- * Field is src/field.rs. `FieldType` has the arguments of the macro `make_field!`, and the elements
--   are the words inside its struct. Field.Bytes is the loops over an element's bytes in either
--   order, Field.Codec the element's codec, which fills the contract of Codec.Lawful, and
--   Field.Elementwise and Field.Vectors additive secret sharing. The random vectors of `split_vector` are an argument: a
--   function from the number of the call to what that call returns.
-- * Util is src/util.rs: the layout of a proof and the sum of two shares. The additions of a `usize`
--   panic where they overflow, and `next_power_of_two` tries the 64 powers that a `usize` has.
-- * Polynomial is the part of src/polynomial.rs that evaluates and multiplies slices of
--   coefficients; an index out of range panics.
-- * Vdaf is the part of src/vdaf.rs on shares: `Share` with its codec, for which a seed is a list of
--   bytes, and `AggregateShare` with `merge` and `accumulate`, which return the new share.
-- * Prg is src/vdaf/prg.rs. A seed of L bytes is a list of that length. The traits `Prg` and
--   `SeedStream` are a record that the definitions take, with the one thing that the code relies on:
--   filling a buffer gives as many bytes as it has. A `RandSource` is a function from the number of the
--   call to what that call returns. Prg.Equality is the comparison of seeds.
-- * Prng is src/prng.rs, over any seed stream. `get` runs on the number of buffers that it may read,
--   since a stream whose every sample is rejected is read for ever; Prng.Chunks is about its buffer and
--   Prng.Reading about its invariant and what it reads, by a reference that takes the samples in order.
-- * Flp is the interface that src/flp.rs gives to Prio3, which is generic over it: the trait `Type` is
--   the record `FlpType`, in the trait's words. Flp.Types is the part of src/flp/types.rs that
--   encodes and truncates: Count, Sum and Histogram, whose shifts panic where they overflow;
--   Flp.SumRoundTrip is about Sum.
-- * Prio3 is src/vdaf/prio3.rs. Prio3.Shard has `shard_with_rand_source`, with the calls of the random
--   source counted, Prio3.Prepare `prepare_init`, `prepare_preprocess` and `prepare_step`, Prio3.Messages
--   the codecs, and Prio3.Aggregate `aggregate`, `unshard` and the conversions of the results. A `fail`
--   transition is an error of the chain that `prepare_step` makes, and `count`, a `u8`, panics where it
--   overflows. Prio3.Hints, Loops, Views and Sharing are about sharding, Prio3.Rounds, Queries,
--   Finishing and Completeness about preparation, Prio3.Transitions is its state machine,
--   Prio3.MessageCodec and StepCodec are the codecs and Prio3.Totals the sums.
-- * Poplar1 is src/vdaf/poplar1.rs. Poplar1.Input has `IdpfInput` with its order, and sets of inputs: a
--   `BTreeSet` and a `BTreeMap` are lists in the order of their keys. The trait `Idpf` is the record of
--   that name, and Poplar1.Points the contract that Poplar1 takes, a point function; Poplar1.Toy is
--   `ToyIdpf`, which fills it in Tables, WholeTables, ToyPoints and ToyContract, with the vectors of
--   `random_vector` as arguments. Poplar1.Shard, Prepare, Collect and Wire have the client, the
--   aggregators, the collector and the codecs; what `Prng::new` gives is an argument of `shard`. The
--   operators of a `usize` panic where they overflow, as does a shift by 64. Draws, Correlation, Sums,
--   Sketch, Prefixes, Blinds, Agreement, Hits, Reports and Completeness are about an honest report,
--   Counts about many of them, Transitions about the state machine, InputBounds about `IdpfInput::new`,
--   and Ordered, SetCodec, KeyCodec and ReportCodec about codecs.
-- * Tests applies the theorems to concrete inputs.
--
-- Every element is a word below p, its Montgomery form; Fp.Element.Represents says for which integer
-- modulo p a word stands.
--
-- Not modelled: the serde visitor, printing and hashing of elements; the FFT and what polynomials do
-- with it; the proofs of src/flp.rs with the gadgets, the validity circuits and CountVec, in place of which
-- Prio3 takes any record of the trait's operations, and with them the constructors of the four instances of
-- Prio3; the client and the server of Prio v2; encryption and the pseudo-random generators
-- themselves, which call other packages.
pub mod Codec
pub mod Common
pub mod Field
pub mod Flp
pub mod Fp
pub mod Outcome
pub mod Polynomial
pub mod Poplar1
pub mod Prg
pub mod Prio3
pub mod Prng
pub mod Tests
pub mod Util
pub mod Vdaf
