-- ===== src/Lib.antt =====
-- UltraPatch: differential firmware patches, made by a host encoder and applied in place by a small
-- decoder on the device.
--
-- The program. The encoder (src/patch_generate.c with src/enc_*.c) plans copies and literals that turn
-- one image into another, codes them with adaptive models through a binary range coder, and wraps
-- the body into an envelope. The decoder (src/patch_apply.h) reads the envelope from a byte source,
-- checks the source image, and decodes the body while it rewrites flash. What both sides have to
-- compute alike stands in src/rc_models.h. The central promise is that the decoder recovers what the
-- encoder wrote, bit for bit and with the same models at every step; the development is built around
-- it, from the single bit up.
--
-- Base: names passed on from the libraries, Boolean tests and lists over the native numbers, signed
-- integers, casts to fixed widths, and lemmas on the bitwise operations.
--
-- Wire.Zigzag: rc_i32_from_u32, rc_unzz32_value and rc_zz_abs (src/rc_models.h), rc_zz32,
-- rc_natural_desc and rc_dir_is_natural (src/enc_internal.h).
-- Wire.Uleb: put_uleb, put_uleb_overlong and the buffer writers (src/enc_util.c), up_env_byte,
-- up_env_u32le, up_env_uleb and up_env_zz_abs (src/patch_apply.h).
--
-- Coder.Prob: the adaptation of probabilities and the bounds that split a range. Coder.Encoder: REnc
-- with re_shift_low, re_bit, re_raw and re_flush_opt (src/enc_rc.c). Coder.Decoder: up_RangeDec with
-- up_next_byte, up_rc_init, up_rc_decode, up_s_bit_r and up_s_raw (src/patch_apply.h).
-- The other modules of Coder carry the proof: Value reads the encoder's state as a number and shows
-- each round of the renormalisation to be exact, Renorm keeps the invariant between two bits, Sync
-- keeps the decoder's code equal to the distance from the body to the low end of the encoder's
-- interval, Prefix and Flush show that the trimmed flush lies in the final interval, Step and
-- RoundTrip put these together. Coder.Codec is the interface that every symbol fills: a writer and a
-- reader on one model, and the two laws by which runs and pairs of symbols follow.
--
-- Model: the byte tree (up_BitTree), the unary prefix, Gamma and Rice codes (up_UGGamma, up_UGRice) of
-- src/rc_models.h, src/enc_rc.c and src/patch_apply.h, the initial models, and the literal trees seeded
-- from a histogram (Model.Seed). Model.Codecs fills the interface with them.
-- Delta: the escape values (bv_xfer, up_s_bv), the move-to-front cache (rc_mtf_promote_i32,
-- rc_mtf_insert_i32, dr_transition of src/enc_emit.c), and the coding of one delta (delta_xfer,
-- up_pull_delta).
-- Envelope: emit_wire_blob of src/patch_generate.c and the reads of up_decode_header up to the length
-- of the body.
-- Field.ShiftMap: rc_smap_at and the predictions of relocation deltas (src/rc_models.h). Field.Thumb:
-- the BL and LDR instructions that hold relocated fields, with the packing of an immediate.
--
-- Apply: the decoder of src/patch_apply.h from the first byte to the verdict. The struct PatchApply is
-- split by who changes it: Apply.Pages has the device and the two-slot cache of output pages (up_orow_*,
-- up_out_*), Apply.Content the token stream and its models (up_next_content, up_read_uleb),
-- Apply.Relocs the detection of fields (up_field_at), Apply.Copy the loops that copy and write,
-- Apply.Step one operation (up_apply_op) and the loop over them, Apply.Run the header's gates, the start
-- and patch_apply_run. The flash primitives, the base and the size of the partition are the record
-- Device, whose laws are IsDevice: a page write programs the complete page and nothing else, and the
-- assertions of the header on the integration hold.
-- Apply.Pages.Commit, Load, Put and Write refine the cache to an array of bytes. Apply.Frontier is the
-- step relation of the writes: its children follow the loops from a byte to the whole run. Apply.Sticky
-- and Apply.Relocs.Packed are what the error latch has to do with it. Apply.Safety draws the
-- conclusions on flash; Apply.Safety.Window is about what of it the cache has not changed yet.
-- Crc: crc32_buf (src/enc_util.c) and up_crc32_decode_default (src/patch_apply.h), over a flash that is
-- read by a parameter. Crc.Detects is about what the CRC tells apart.
-- finalize_ops of src/enc_plan.c, with copy_hazard_at, final_op_push and row_covered
-- (src/enc_internal.h), is in Plan.antt and its laws are in Plan.Finalize and Plan.Hazard; Plan.Hazard.Reads joins the
-- plan with the decoder's page cache. Plan.Runs has
-- split_nonzero_diff_runs of src/enc_field.c with its estimates of price: Plan.Runs.Picks is about the
-- runs that it finds and picks, Plan.Runs.Walk about the plan that results.
-- Emit: the index of literal-load targets (src/enc_field.c), classify_field and smap_resid of
-- src/enc_emit.c; Emit.Restores compares them with what the decoder writes. Emit.Candidates is
-- smap_build_full of src/enc_field.c, where qsort is a parameter for each of its two orders.
-- Emit.Tokens is the cursor of src/enc_lz.c that writes the content tokens (content_cursor_start_token,
-- content_cursor_to). Emit.Tokens.RoundTrip has the parts of a token's header on both sides,
-- Emit.Tokens.Header, Kinds and Start put them together; Emit.Tokens.Literals and Spans are about the
-- bytes of a span. Emit.Geometry has emit_geom, and Emit.Map smap_wire_feasible and the map's part of
-- emit_body (src/enc_emit.c).
-- Host: src/patch_host_backend.c. Host.Nvm is the flash emulator, Host.Run an apply on it with the
-- checks of selfcheck and decode_patch. Host.Device shows the emulator to be a device up to its size,
-- which is smaller than the partition, Host.Peek that it covers what the header asks for, Host.Canary
-- and Host.Safety draw the conclusions.
-- Body: runs of each kind of symbol through a whole body. Witness: the results at concrete inputs,
-- with Witness.Run, a patch that the decoder applies, Witness.Apply, Witness.Plan and
-- Witness.Tokens.
--
-- Conventions. A word is a natural number below its modulus, and wrap-around is written out. A Buf is
-- the list of its bytes; the byte source is the list of the bytes still to come. A C array of
-- probabilities or cache entries is a function from its index. `none` is a return of 0 in the
-- envelope; in the body an error sets the latch `rcerr` as g_rcerr does. A routine that is both a
-- coder and a price estimate in C is modelled in its coding mode.
--
-- Loops. Loops with a fixed number of rounds recurse on that number. The renormalisation loops get
-- three rounds, since a range of at least one byte reaches 2^24 in three shifts. The uLEB and escape
-- loops get five rounds, one for each seven bits of a word; the escape reader is shown not to need
-- more. bitlen32 gets 32 rounds. The binary search gets one round more than there are entries. Unary
-- readers recurse on what is left of their cap. The scan for literal loads gets a round for each byte
-- of its distance, the copy loop a round for each byte of the copy, and the loop over the operations
-- to_size rounds and one, which is shown to be enough. The loop of up_next_content gets 2^16 rounds:
-- a token that is read has a byte to replay in the next round, except an out-match whose length wraps
-- to 0, which the source declares out of scope; Apply.Rounds
-- is about the others.
--
-- Not modelled: the search for a good plan and parse (src/enc_bsdiff.c, src/enc_lz.c, and
-- the rest of src/enc_field.c and src/enc_plan.c) with its price tables, the event walk of
-- src/enc_emit.c, an integrator's own CRC32_DECODE, the sweep over plans in src/patch_generate.c, file
-- access and the command line, and the vendored suffix sort, which the sources only call.
pub mod Base
pub mod Wire
pub mod Coder
pub mod Model
pub mod Plan
pub mod Host
pub mod Emit
pub mod Delta
pub mod Envelope
pub mod Field
pub mod Crc
pub mod Apply
pub mod Body
pub mod Witness
