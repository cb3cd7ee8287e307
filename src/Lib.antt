-- ===== src/Lib.antt =====
-- Fuzzy private set intersection: `fpsi/` of the repository. Two parties hold points with
-- coordinates of 64 bits and learn which pairs of points are near each other. The distance in
-- one dimension becomes a question of equality of strings: the receiver writes the interval
-- around its coordinate as a set of binary prefixes, the sender asks for the prefixes of its own
-- coordinate, and one of them is in the set if and only if the coordinate lies in the interval.
-- Equality of values that the parties share is decided bit by bit on multiplication triples.
--
-- The files:
--   * `Prefix` models `fpsi/utils/set_dec.cpp`. A string of '0' and '1' is the list of its
--     characters (`true` for '1'), a `set<u64>` the list of its elements. `decompose_improve`,
--     `set_dec`, `set_prefix`, `up_bound` and `low_bound` have the names of the code. The search
--     for the next multiple of a power of two has as much fuel as the power, which is enough
--     since one of that many successive numbers is a multiple.
--   * `Equality` models `fpsi/pis_new`: `Equality/Triples` the triples of `triple.cpp`,
--     `Equality/Round` and `Equality/Run` the rounds of `eq0` and `eq1` of `equal.cpp` with both
--     parties side by side, `Equality/Peqt` the protocols of `batch_peqt.h` and `batch_psm.cpp`,
--     and `Equality/Pis` the recovery of an index of `batch_pis_new.h`, for one batch.
--     A message is the value that the other party receives. The number of rounds, `log2ceil` of
--     cryptoTools, is a parameter, and so are the results of the oblivious transfers of libOTe.
--   * `Grid` models `fpsi/utils/dist_util.cpp` and `dist_util.h`: cells, distances, the cells
--     around a point, and powers of words, with 64 rounds of fuel for an exponent of 64 bits.
--   * `Matching` models the parameter tables of `fpsi/utils/params_selects.h` and, from
--     `fpsi/fpsi_recv.cpp` and `fpsi/fpsi_sender.cpp`, the strings that the parties compute for
--     one coordinate and for the final sum, before they are hashed.
--   * `Mapping` models `fpsi/cmp_fmap/fmap.cpp`: `Mapping/Assign` the random values of the cells
--     in `getID`, for one dimension, and `Mapping/Exchange` the exchange of identifiers in
--     `fuzzyMap`, for one point. `Mapping/Field` is the interface of the blocks: `gf128Mul` and
--     `^` of cryptoTools with the laws of a field of characteristic 2. The loop that relabels a
--     run has the size of the map as fuel, enough since each round changes one value. Decoding
--     of the key-value store, the PRF and the VOLE are hypotheses.
--   * `Protocol` models the matching for the maximum norm and the transfer of identifiers of
--     `fpsi/fpsi_recv.cpp` and `fpsi/fpsi_sender.cpp`, with both parties side by side:
--     `Protocol/Offline` the identifiers of `psi_offline_sh`, `Protocol/Linf` the lists of
--     hashed keys (`mp_ssFMat_linf_sh`, `mp_ssFMat_linf`), `Protocol/Rounds` the two
--     programmable PRFs of a dimension and the sums over the dimensions, `Protocol/Powers` the
--     arithmetic on the powers of distances of `mp_ssFMat_lp_sh` for one prefix that both
--     parties have, `Protocol/Lp` the lists of keys of `mp_ssFMat_lp_sh` and `mp_ssFMat_lp`
--     with the rows that are programmed for them, `Protocol/Interval` the last
--     comparison (`ssIFMat_recv`, `ssIFMat_send`), and `Protocol/Transfer` the last step
--     of `psi_online_sh` and `psi_online_cmp`. A vector is a function of its index, a bin
--     of the cuckoo table an `Option`. blake3, the programmable PRF, the tables and the random
--     transfers are parameters; that hash values do not collide and that random blocks do not
--     meet by accident are hypotheses.
--   * `Ufmap` models `fpsi/ufmap/ufmap.cpp`: the blocks of a coordinate (`Ufmap/Blocks`), the
--     values of `getID` (`Ufmap/Ids`), the shares from the programmable PRF (`Ufmap/Recover`)
--     and the exchange of identifiers (`Ufmap/Exchange`). The draws of dummies leave out those
--     that are drawn again because they are labels.
--   * `Okvs` models `RBOKVS` of `fpsi/rb_okvs/rb_okvs.cpp`, the random-band key-value store:
--     `Okvs/Hash` the place and the bits of a key's band, `Okvs/Row` the rows and `reformalize`,
--     `Okvs/Insert` the elimination, `Okvs/Solve` the back substitution and `decode`, with the
--     unrolled loops over the words of a band, `Okvs/Encode` the whole of `encode`, and
--     `Okvs/Threads` `decode` on many keys. A `u64` of a band is the row of its 64 bits.
--     `Okvs/Values` is the interface of the values, which a block fills and which the vectors of
--     blocks of `MatrixRow_LongValue` fill. The loop of `insert` has the number of columns as
--     fuel, enough since every round moves the row on. A read past the columns is undefined, as
--     is one past a band. BLAKE3 and the draws for free columns are parameters. `getParams`,
--     which computes with floating-point numbers, is left out.
--   * `Chunks` models `fpsi/utils/commu_util.cpp`.
--   * `Prelude` holds the lists, words and results that the other files share, `Tests` the runs
--     on concrete inputs.
--
-- A throw is a value of `Result`; undefined behaviour (a read out of range, a division by 0, a
-- shift by the width or more) is the fault `undefined`. Subtraction and addition of words wrap.
--
-- Not modelled: the second programmable PRF for the sums of powers, hashing, random numbers and
-- sockets, the limits of `reserve` and of memory, the code under `#if 0`, `RBOKVS_rist` of
-- `fpsi/rb_okvs/rb_okvs.cpp`, and `fpsi/opprf`, which is a copy of volePSI.
pub mod Okvs
pub mod Prelude
pub mod Protocol
pub mod Ufmap
pub mod Prefix
pub mod Equality
pub mod Grid
pub mod Matching
pub mod Mapping
pub mod Chunks
pub mod Tests
