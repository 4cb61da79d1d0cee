-- ===== src/Lib.antt =====
-- Forest, a Filecoin node: a model of parts of its Rust code, with proofs.
--
-- Three parts are modelled, each as its own tree of modules, on top of shared helpers in Base.
--
-- Base holds what they use: Base/Lists (lists measured by native numbers), Base/Bits (bit operations
-- on numbers), Base/Int (signed integers
-- for BigInt amounts and i64 epochs, with the wrap-around of i64 written out) and Base/Words (sums and
-- differences of usize, with their wrap-around).
--
-- BitField is utils/bitfield. Actors use it for sets of sector numbers.
--   BitField/Range, Combine and Iter model src/iter: a range iterator is the list of ranges that it
--     yields. Combine holds Combinator and its five instances, `_Combine::next_range`, the filter of
--     empty outputs (`outputs`) and `Merge`; Iter holds Skip, Take and `ranges_from_bits`. `outputs`
--     runs on fuel, one unit for each call of `next_range`; each call uses up a range of one side, so
--     the number of ranges on both sides is enough, and `combine` gives that much. Stream, Bitwise, Merge
--     and Correct hold the proofs for the four combinators that work bit by bit, CutSteps and Cutting those
--     for Cut, Iter/Rank and Iter/Runs those for Iter.
--   BitField/Field models src/lib.rs: BitField with its ranges and its sets of set and unset bits (lists
--     without repetition for HashSet), and each operation under its own name, but `set_bit`,
--     `unset_bit`, `all_ranges` and `union_all` for `set`, `unset`, `ranges` and `union`. BitField/Field/Json
--     is its module `json`. The other children hold the proofs.
--   BitField/Rle models src/rleplus: the reader and the writer of bits, the lengths, `from_bytes` and
--     `to_bytes`, and the limit on the size of the serialised form. A u16 or a byte is a number with its
--     wrap-around written out. The loop of `from_bytes` runs on fuel: each round takes a bit at least, and
--     the fuel is the number of bits. `unsigned_varint` is a parameter. BitField/Rle/Unvalidated is
--     src/unvalidated.rs. Reader, Lengths, Writer, Encode, Blocks and Start hold the lemmas, which read a
--     sequence of bytes as one number; Decode, RoundTrip and TooLong what follows for whole fields.
--   Not modelled: the FromIterator impls, and the operators that assign.
--
-- Actor is the runtime of builtin actors and two of them.
--   Actor/Error is vm/src/error.rs and vm/src/exit_code.rs, and the monad of calls that change a state
--     or fail. The text of an error is left out.
--   Actor/Map stands for the HAMT and AMT maps of an actor's state: association lists. The model keeps
--     them in the state, so it has no failures of the block store.
--   Actor/Runtime is the trait Runtime of vm/runtime and the parts of
--     vm/interpreter/src/default_runtime.rs that check the caller and read or commit the state, and
--     `resolve_to_id_addr` of vm/actor/src/builtin/shared.rs. The world that a call changes has the
--     receiver's state and balance and all else. `send`, address resolution, hashing and signatures are
--     parameters; `send` may call the receiver again. Gas and call depth are left out, and so is the
--     flag that a caller was validated, as each method validates once.
--   Actor/Multisig is vm/actor/src/builtin/multisig: Defs for state.rs and types.rs, Admin for the
--     methods by which a wallet changes itself, Multisig for the others and `invoke_method`. The closures that
--     run in transactions are functions of their own. Invariant, Removal and Preserve hold the invariant
--     and its lemmas, Create and Methods that every method keeps it, Reach the nesting of calls, Reads,
--     Outcomes, Quorum and Propose what successful calls have done, Authority who may call, Purge and
--     Locked the laws of the state's own operations. Actor/Inversion and Actor/Keeps hold what both
--     actors' proofs use: what a successful call says of its parts, and calls that keep a property.
--   Actor/Paych is vm/actor/src/builtin/paych: in Defs its types, the merge of lanes and the closure of
--     `update_channel_state` (`redeem`), and the methods, whose long bodies are cut into the functions
--     `check_signature`, `check_voucher`, `check_secret`, `verify_extra` and `redeem_voucher`. Redeem and
--     Later hold what a redemption and a settlement do, Reach the nesting of calls, Outcomes and Safety
--     what successful calls have done and what later calls cannot undo.
--
-- Hamt is ipld/hamt, the trie in which actors keep their maps.
--   Hamt/HashBits is hash_bits.rs, Hamt/Bitfield is bitfield.rs, its four words of 64 bits as one number
--     of 256 bits. Hamt/Slots is the vector of pointers by the bits that are set.
--   Hamt/Node and Hamt/Remove are node.rs and pointer.rs: `modify_value`, `get_value`, `rm_value` and
--     `clean`. A link has a node in its cache or not. The recursion runs on fuel; a call takes a bit of
--     the hash at least where the bit width is not zero, so 257 calls are enough for 256 bits. A panic is a
--     result of its own. Hamt/Trie and Hamt/Flush are hamt.rs.
--   View, Buckets, Lookup and Total hold the lemmas, Refines the trie as a map from keys to values, Delete
--     what removal has in common with search.
--   The store, the equality and order of keys and values, and the hash are parameters.
--   Not modelled: `for_each`, loading a root, the serialised form, the feature that ignores dead links,
--     the filling of a cache by a lookup, and what a failed call leaves behind. The law of removal is not
--     proved.
--
-- The other parts of the node (stores, AMT, the message pool, chain
-- synchronisation, networking, RPC and the command line, the miner, market, power, reward and registry
-- actors) are not modelled.
pub mod Base
pub mod BitField
pub mod Actor
pub mod Hamt
