-- ===== src/Witness/Run.antt =====
-- Runs of the decoder: a patch of 17 bytes that makes the byte 90 from nothing, and headers that are
-- refused.
use ultra_patch.Wire.Uleb.{env_byte, env_u32le, uleb_overlong, env_uleb_loop, env_uleb, env_zz_abs}
use ultra_patch.Wire.Zigzag.{i32_from_u32, unzz32_value, zz_abs}
use ultra_patch.Envelope.{
  wire_from_crc, read_sizes, is_desc, read_fp_end, read_fp_start, read_walk, fields_of,
  within_capacity, read_fields, Sizes, Walk, fields,
}
use ultra_patch.Crc.{crc_flash_bits, crc32_flash_loop, crc32_decode_default}
use ultra_patch.Coder.Decoder.{
  pull_body, next_byte, refill, refill_times, rc_init, refill_round, renorm_dec, choose, rc_decode,
  s_bit_r, s_raw,
}
use ultra_patch.Coder.Prob.{prob_bound, adapt, bt_adapt}
use ultra_patch.Model.Tree.{bt_init, s_bt_loop, s_bt}
use ultra_patch.Model.Unary.{take_at, s_unary_loop, s_unary}
use ultra_patch.Model.Golomb.{
  ugg_mant_idx, ugg_init, ugr_init, ugg_seed_cont, s_ug_mant, s_ug_gamma,
}
use ultra_patch.Model.Init.{idx_init, fl_init, fl_hist, init_prekd, init_tok}
use ultra_patch.Model.Seed.{
  seed_division, lit_seed_prob, lit_node, tree_level, tree_levels, lit_tree_from_hist,
}
use ultra_patch.Delta.Cache.{dr_init}
use ultra_patch.Apply.Pages.{
  image_flash_read, orow_commit_slot, last_slot, orow_commit_all, orow_reset, out_read, load_page,
  put_byte, out_write,
}
use ultra_patch.Apply.Content.{
  lit0_sel, outmatch_pos, outmatch_next_expect, emit_ring, span_byte, token_rounds, token_byte,
  replay, read_flag, read_span, read_out_match, read_backref, read_distance, read_fresh, read_match,
  read_token, content_loop, next_content, read_uleb_loop, read_uleb, Content,
}
use ultra_patch.Apply.Copy.{
  litcur_step, litcur_init, wr_extra, wr_extras, take_literal, wr_copy, put_packed, put_copies,
  slide_word, copy_byte, copy_field, copy_window, copy_tail, copy_round, copy_loop, Applying,
  stopped,
}
use ultra_patch.Apply.Step.{
  read_lengths, place_up, place_down, lengths_fit, op_copy, op_content, op_at, apply_op, arrived,
  ops_loop,
}
use ultra_patch.Apply.Run.{
  flash_hist, raw_bits, map_entry, read_map, relocs_start, content_start, geo_of, check_source,
  decode_header, seed_trees, apply_start, apply_phase, verdict, run_body, run_header,
  patch_apply_run, MapReader, image_crc,
}
use ultra_patch.Base.{
  ℕ, ◌+◌, ◌-◌, ◌^◌, ◌≡◌, refl, List, [], ◌∷◌, ltb, leb, ◌&&◌, if◌then◌else◌, some, false, ◌≢◌,
  arith,
}
use ultra_patch.Apply.Pages.{Device}
use ultra_patch.Base.Int.{◌-ℤ◌, ◌+ℤ◌, pos}
use ultra_patch.Apply.Run.{done}

-- The contents are a function from the address; the partition has four pages.
abbrev pub chip : Device (ℕ → ℕ)
chip = record {
  flash_read = λ f a. f a;
  flash_write_page = λ f a page x. if leb a x && ltb x (a + 256) then page (x - a) else f x;
  image_base = 2 ^ 27;
  capacity = 1024;
}

abbrev pub erased : ℕ → ℕ
erased a = 255

abbrev pub blob : List ℕ
blob = 1 ∷ 0 ∷ 0 ∷ 0 ∷ 103 ∷ 87 ∷ 188 ∷ 89 ∷ 0 ∷ 2 ∷ 0 ∷ 5 ∷ 0 ∷ 7 ∷ 199 ∷ 184 ∷ 191 ∷ []

pub blob_applies : (patch_apply_run chip erased blob).1 ≡ done
unfolding env_byte env_u32le uleb_overlong env_uleb_loop env_uleb env_zz_abs i32_from_u32
    unzz32_value zz_abs wire_from_crc read_sizes is_desc read_fp_end read_fp_start read_walk
    fields_of within_capacity read_fields crc_flash_bits crc32_flash_loop crc32_decode_default
    pull_body next_byte refill refill_times rc_init refill_round renorm_dec choose rc_decode s_bit_r
    s_raw prob_bound adapt bt_adapt bt_init s_bt_loop s_bt take_at s_unary_loop s_unary ugg_mant_idx
    ugg_init ugr_init ugg_seed_cont s_ug_mant s_ug_gamma idx_init fl_init fl_hist init_prekd
    init_tok seed_division lit_seed_prob lit_node tree_level tree_levels lit_tree_from_hist dr_init
    image_flash_read orow_commit_slot last_slot orow_commit_all orow_reset out_read load_page
    put_byte out_write lit0_sel outmatch_pos outmatch_next_expect emit_ring span_byte token_rounds
    token_byte replay read_flag read_span read_out_match read_backref read_distance read_fresh
    read_match read_token content_loop next_content read_uleb_loop read_uleb litcur_step litcur_init
    wr_extra wr_extras take_literal wr_copy put_packed put_copies slide_word copy_byte copy_field
    copy_window copy_tail copy_round copy_loop read_lengths place_up place_down lengths_fit op_copy
    op_content op_at apply_op arrived ops_loop flash_hist raw_bits map_entry read_map relocs_start
    content_start geo_of check_source decode_header seed_trees apply_start apply_phase verdict
    run_body run_header patch_apply_run ◌-ℤ◌ ◌+ℤ◌
blob_applies = refl

blob_writes : (patch_apply_run chip erased blob).0 (2 ^ 27) ≡ 90
unfolding env_byte env_u32le uleb_overlong env_uleb_loop env_uleb env_zz_abs i32_from_u32
    unzz32_value zz_abs wire_from_crc read_sizes is_desc read_fp_end read_fp_start read_walk
    fields_of within_capacity read_fields crc_flash_bits crc32_flash_loop crc32_decode_default
    pull_body next_byte refill refill_times rc_init refill_round renorm_dec choose rc_decode s_bit_r
    s_raw prob_bound adapt bt_adapt bt_init s_bt_loop s_bt take_at s_unary_loop s_unary ugg_mant_idx
    ugg_init ugr_init ugg_seed_cont s_ug_mant s_ug_gamma idx_init fl_init fl_hist init_prekd
    init_tok seed_division lit_seed_prob lit_node tree_level tree_levels lit_tree_from_hist dr_init
    image_flash_read orow_commit_slot last_slot orow_commit_all orow_reset out_read load_page
    put_byte out_write lit0_sel outmatch_pos outmatch_next_expect emit_ring span_byte token_rounds
    token_byte replay read_flag read_span read_out_match read_backref read_distance read_fresh
    read_match read_token content_loop next_content read_uleb_loop read_uleb litcur_step litcur_init
    wr_extra wr_extras take_literal wr_copy put_packed put_copies slide_word copy_byte copy_field
    copy_window copy_tail copy_round copy_loop read_lengths place_up place_down lengths_fit op_copy
    op_content op_at apply_op arrived ops_loop flash_hist raw_bits map_entry read_map relocs_start
    content_start geo_of check_source decode_header seed_trees apply_start apply_phase verdict
    run_body run_header patch_apply_run ◌-ℤ◌ ◌+ℤ◌
blob_writes = refl

-- The parts of the blob as the header reads them.
abbrev pub blob_sizes : Sizes
blob_sizes = record {
  want_from = 1;
  want_to = 0x59bc_5767;
  from_size = 0;
  to_size = 1;
  overlong = false;
}

abbrev pub blob_walk : Walk
blob_walk = record { fwd = false; fp_end = 0; fp_start = pos 0; body_left = 5 }

abbrev pub blob_map : MapReader
blob_map = record { rc = rc_init (0 ∷ 7 ∷ 199 ∷ 184 ∷ 191 ∷ []) 5; relocs = relocs_start; last = 0 }

-- The start of the loop over the operations.
abbrev pub blob_start : Applying (ℕ → ℕ)
blob_start = apply_start chip erased blob_sizes blob_walk blob_map 0

pub blob_start_clear : stopped blob_start ≡ false
unfolding apply_start content_start raw_bits s_raw rc_decode choose rc_init refill_times refill
    next_byte renorm_dec pull_body refill_round
blob_start_clear = refl

-- The same patch for a source with another CRC.
abbrev pub foreign : List ℕ
foreign = 2 ∷ 0 ∷ 0 ∷ 0 ∷ 103 ∷ 87 ∷ 188 ∷ 89 ∷ 0 ∷ 2 ∷ 0 ∷ 0 ∷ []

abbrev pub foreign_sizes : Sizes
foreign_sizes = record blob_sizes { want_from = 2 }

abbrev pub foreign_walk : Walk
foreign_walk = record blob_walk { body_left = 0 }

pub foreign_reads : read_fields 1024 foreign ≡ fields foreign_sizes foreign_walk []
unfolding env_byte env_u32le uleb_overlong env_uleb_loop env_uleb env_zz_abs i32_from_u32
    unzz32_value zz_abs read_sizes is_desc read_fp_end read_fp_start read_walk fields_of
    within_capacity read_fields ◌-ℤ◌ ◌+ℤ◌
foreign_reads = refl

pub foreign_differs : wire_from_crc (image_crc chip erased 0) ≢ 2
unfolding wire_from_crc crc32_decode_default crc32_flash_loop
foreign_differs e = absurd (omega arith)

-- A target of 2048 bytes for a partition of 1024.
abbrev pub large : List ℕ
large = 1 ∷ 0 ∷ 0 ∷ 0 ∷ 0 ∷ 0 ∷ 0 ∷ 0 ∷ 0 ∷ 128 ∷ 32 ∷ []

abbrev pub large_sizes : Sizes
large_sizes = record { want_from = 1; want_to = 0; from_size = 0; to_size = 2048; overlong = false }

pub large_reads : read_sizes large ≡ some (large_sizes, [])
unfolding env_byte env_u32le uleb_overlong env_uleb_loop env_uleb env_zz_abs i32_from_u32
    unzz32_value zz_abs read_sizes is_desc read_fp_end read_fp_start read_walk fields_of
    within_capacity read_fields ◌-ℤ◌ ◌+ℤ◌
large_reads = refl

-- The token that is read at the start of the operations, which has one byte.
abbrev pub first_token : Content
first_token =
    read_token (geo_of blob_sizes blob_walk) (out_read chip blob_start.pages) blob_start.content

pub first_token_left : first_token.tok_left ≡ 1
unfolding env_byte env_u32le uleb_overlong env_uleb_loop env_uleb env_zz_abs i32_from_u32
    unzz32_value zz_abs wire_from_crc read_sizes is_desc read_fp_end read_fp_start read_walk
    fields_of within_capacity read_fields crc_flash_bits crc32_flash_loop crc32_decode_default
    pull_body next_byte refill refill_times rc_init refill_round renorm_dec choose rc_decode s_bit_r
    s_raw prob_bound adapt bt_adapt bt_init s_bt_loop s_bt take_at s_unary_loop s_unary ugg_mant_idx
    ugg_init ugr_init ugg_seed_cont s_ug_mant s_ug_gamma idx_init fl_init fl_hist init_prekd
    init_tok seed_division lit_seed_prob lit_node tree_level tree_levels lit_tree_from_hist dr_init
    image_flash_read orow_commit_slot last_slot orow_commit_all orow_reset out_read load_page
    put_byte out_write lit0_sel outmatch_pos outmatch_next_expect emit_ring span_byte token_rounds
    token_byte replay read_flag read_span read_out_match read_backref read_distance read_fresh
    read_match read_token content_loop next_content read_uleb_loop read_uleb litcur_step litcur_init
    wr_extra wr_extras take_literal wr_copy put_packed put_copies slide_word copy_byte copy_field
    copy_window copy_tail copy_round copy_loop read_lengths place_up place_down lengths_fit op_copy
    op_content op_at apply_op arrived ops_loop flash_hist raw_bits map_entry read_map relocs_start
    content_start geo_of check_source decode_header seed_trees apply_start apply_phase verdict
    run_body run_header patch_apply_run ◌-ℤ◌ ◌+ℤ◌
first_token_left = refl
