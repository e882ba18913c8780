-- ===== src/Witness/Tokens.antt =====
-- Parts of a body at concrete inputs: a token's header, the literals of a span, an operation's lengths
-- and a map.
use ultra_patch.Base.{
  ◌≡◌, refl, true, List, [], ◌∷◌, arith, some, ◌==◌, Bool, false, length, ◌%◌, ℕ, ◌++◌, ◌+◌,
}
use ultra_patch.Emit.Tokens.{
  ContentCursor, match_token, content_cursor_init, models_init_content, put_token, put_match,
  put_match_flag,
}
use ultra_patch.Emit.Tokens.{put_literals}
use ultra_patch.Emit.Tokens.Literals.{IsSpelling, put_literals-Later}
use ultra_patch.Emit.Tokens.Spans.{pull, spelled, all_passed, pull-put_literals}
use ultra_patch.Apply.Content.{span}
use ultra_patch.Base.{◌*◌, ◌%◌, ◌++◌}
use ultra_patch.Plan.{PlanOp}
use ultra_patch.Emit.Geometry.{
  emit_geom, IsShippable, emit_geom-Later, reading, lengths_of, read_lengths-emit_geom,
}
use ultra_patch.Emit.Map.{
  smap_wire_feasible, feasible_loop, wire_gap, put_map, put_map-Later, reader, with_entries,
  last_boundary, read_map-put_map,
}
use ultra_patch.Wire.Zigzag.{zz32}
use ultra_patch.Apply.Step.{read_lengths}
use ultra_patch.Apply.Run.{MapReader, read_map, relocs_start}
use ultra_patch.Model.Init.{init_prekd}
use ultra_patch.Witness.Run.{blob_start}
use ultra_patch.Base.Int.{ℤ, negsuc}
use ultra_patch.Base.Word.{IsU32}
use ultra_patch.Base.{ltb, if◌then◌else◌}
use ultra_patch.Emit.Tokens.Later.{IsWriting}
use ultra_patch.Emit.Tokens.RoundTrip.{synced}
use ultra_patch.Emit.Tokens.Header.{Fits, begun}
use ultra_patch.Emit.Tokens.Start.{read_token-put_token, put_token-Writes}
use ultra_patch.Model.Init.{init_tok, init_groups}
use ultra_patch.Model.Tree.{bt_init}
use ultra_patch.Model.Golomb.{rice_feasible, ugr_init}
use ultra_patch.Apply.Content.{Content, Geo, idle, read_token}
use ultra_patch.Coder.Encoder.{re_init, re_flush_opt}
use ultra_patch.Coder.Decoder.{RangeDec, rc_init}
use ultra_patch.Coder.Renorm.{Contains}
use ultra_patch.Coder.Value.{IsBytes}
use ultra_patch.Coder.Flush.{re_flush_opt_lem}
use ultra_patch.Coder.RoundTrip.{re_init-IsReady, rc_init-Tracks}
use ultra_patch.Coder.Sync.{Tracks}

-- A back-reference as the first token, at distance 5 in a history of 100 bytes.
abbrev first_cursor : ContentCursor
first_cursor = content_cursor_init [] (models_init_content bt_init bt_init 4 6) re_init true true 0

abbrev after_match : ContentCursor
after_match = put_match (put_match_flag first_cursor) 5 7

abbrev geometry : Geo
geometry = record { fwd = true; from_size = 4096; to_size = 4096; image_span = 4096 }

abbrev history : RangeDec → Content
history d = record {
  rc = d;
  lit0 = λ i. bt_init;
  lit1 = bt_init;
  tok = init_tok 4 6;
  out_en = true;
  litprev = 0;
  rep0h = 0;
  oexp = 0;
  lastdist = 0;
  ring = λ i. i % 7;
  ototal = 100;
  tok_left = 0;
  tok_src = 0;
  tok_mode = idle;
  last_span = false;
}

first_cursor-IsWriting : IsWriting first_cursor
unfolding content_cursor_init models_init_content
first_cursor-IsWriting = record { ready = re_init-IsReady; models = (init_groups 4 6).1 }

match-Fits : (d : RangeDec) → Fits geometry (history d) first_cursor (match_token 5 7)
unfolding Fits rice_feasible init_tok ugr_init content_cursor_init models_init_content
match-Fits d = record {
  positive = omega arith;
  held = omega arith;
  near = omega arith;
  nonempty = omega arith;
  bounded = omega arith;
  feasible = refl;
}

match_started : put_token first_cursor (match_token 5 7) ≡ some after_match
unfolding put_token
match_started = refl

match_bytes :
    (bytes : List ℕ) × (re_flush_opt after_match.rc ≡ 0 ∷ bytes)
    × IsBytes bytes
    × Contains bytes after_match.rc
match_bytes =
    re_flush_opt_lem after_match.rc
      (put_token-Writes geometry (λ a. 0) [] [] (λ k. omega arith) first_cursor after_match
        (history (rc_init [] 0)) (match_token 5 7) match_started (match-Fits (rc_init [] 0))
        first_cursor-IsWriting).later.ready

abbrev match_coder : RangeDec
match_coder = rc_init (match_bytes.0 ++ []) (length match_bytes.0)

read_token-put_token_example :
    (d' : RangeDec) × Tracks match_bytes.0 [] after_match.rc d'
    × (read_token geometry (λ a. 0) (synced first_cursor match_coder (history match_coder))
        ≡ begun
            (history match_coder)
            (match_token 5 7)
            (synced after_match d' (history match_coder)))
unfolding content_cursor_init
read_token-put_token_example =
    read_token-put_token geometry (λ a. 0) match_bytes.0 [] match_bytes.2 first_cursor after_match
      match_coder (history match_coder) (match_token 5 7) match_started refl
      (match-Fits match_coder) first_cursor-IsWriting match_bytes.3
      (rc_init-Tracks match_bytes.0 [] match_bytes.2)

-- Five literals of both tags at the start of a span of six, from the start of the coder.
abbrev sentence : ℕ → ℕ
sentence i = (i * 37 + 11) % 256

abbrev odd_tags : ℕ → Bool
odd_tags i = i % 2 == 1

abbrev after_literals : ContentCursor
after_literals = put_literals sentence odd_tags 40 5 first_cursor

first_cursor-IsSpelling : IsSpelling first_cursor
unfolding content_cursor_init models_init_content bt_init
first_cursor-IsSpelling = record {
  ready = re_init-IsReady;
  even = λ i j. (omega arith, omega arith);
  odd = λ j. (omega arith, omega arith);
}

literal_bytes :
    (bytes : List ℕ) × (re_flush_opt after_literals.rc ≡ 0 ∷ bytes)
    × IsBytes bytes
    × Contains bytes after_literals.rc
literal_bytes =
    re_flush_opt_lem after_literals.rc
      (put_literals-Later sentence odd_tags 40 5 first_cursor first_cursor-IsSpelling).0.ready

abbrev literal_coder : RangeDec
literal_coder = rc_init (literal_bytes.0 ++ []) (length literal_bytes.0)

abbrev in_span : Content
in_span = record (history literal_coder) { tok_mode = span; tok_left = 6 }

pull-put_literals_example :
    (d' : RangeDec) × Tracks literal_bytes.0 [] after_literals.rc d'
    × (pull geometry (λ a. 0) odd_tags 5 0 (synced first_cursor literal_coder in_span)
        ≡ (spelled sentence 5 0, synced after_literals d' (all_passed sentence 5 0 in_span)))
unfolding content_cursor_init
pull-put_literals_example =
    pull-put_literals sentence odd_tags 40 geometry (λ a. 0) literal_bytes.0 [] literal_bytes.2 5 0
      first_cursor literal_coder in_span refl (omega arith) refl (λ i. omega arith)
      first_cursor-IsSpelling literal_bytes.3 (rc_init-Tracks literal_bytes.0 [] literal_bytes.2)

abbrev shipped : PlanOp
shipped = record { diff_len = 900; extra_len = 12; adj = negsuc 63 }

shipped-IsShippable : IsShippable shipped
unfolding zz32
shipped-IsShippable = record {
  copied = omega arith;
  added = omega arith;
  moved = omega arith;
  word = omega arith;
}

geometry_bytes :
    (bytes : List ℕ) × (re_flush_opt (emit_geom re_init init_prekd shipped).0 ≡ 0 ∷ bytes)
    × IsBytes bytes
    × Contains bytes (emit_geom re_init init_prekd shipped).0
geometry_bytes =
    re_flush_opt_lem (emit_geom re_init init_prekd shipped).0
      (emit_geom-Later re_init init_prekd shipped shipped-IsShippable re_init-IsReady
        (init_groups 4 6).0).ready

abbrev geometry_coder : RangeDec
geometry_coder = rc_init (geometry_bytes.0 ++ []) (length geometry_bytes.0)

read_lengths-emit_geom_example :
    (d' : RangeDec) × Tracks geometry_bytes.0 [] (emit_geom re_init init_prekd shipped).0 d'
    × (read_lengths (reading blob_start geometry_coder init_prekd)
        ≡ (lengths_of shipped, reading blob_start d' (emit_geom re_init init_prekd shipped).1))
read_lengths-emit_geom_example =
    read_lengths-emit_geom geometry_bytes.0 [] geometry_bytes.2 blob_start re_init geometry_coder
      init_prekd shipped shipped-IsShippable re_init-IsReady (init_groups 4 6).0 geometry_bytes.3
      (rc_init-Tracks geometry_bytes.0 [] geometry_bytes.2)

-- Boundaries 10, 110 and 210.
abbrev boundaries : ℕ → ℕ
boundaries i = if ltb i 3 then 100 * i + 10 else 0

abbrev shifts : ℕ → ℤ
shifts i = negsuc 7

boundaries-IsU32 : (j : ℕ) → IsU32 (boundaries j)
boundaries-IsU32 j = ground arith

three_feasible : smap_wire_feasible boundaries shifts 3 ≡ true
unfolding smap_wire_feasible feasible_loop wire_gap zz32
three_feasible = refl

abbrev empty_reader : RangeDec → MapReader
empty_reader d = record { rc = d; relocs = relocs_start; last = 0 }

map_bytes :
    (bytes : List ℕ) × (re_flush_opt (put_map boundaries shifts 3 0 0 re_init init_prekd).0
      ≡ 0 ∷ bytes)
    × IsBytes bytes
    × Contains bytes (put_map boundaries shifts 3 0 0 re_init init_prekd).0
unfolding smap_wire_feasible
map_bytes =
    re_flush_opt_lem (put_map boundaries shifts 3 0 0 re_init init_prekd).0
      (put_map-Later boundaries shifts 3 0 0 re_init init_prekd three_feasible boundaries-IsU32
        (λ j. omega arith) (omega arith) re_init-IsReady (init_groups 4 6).0).0.ready

abbrev map_coder : RangeDec
map_coder = rc_init (map_bytes.0 ++ []) (length map_bytes.0)

read_map-put_map_example :
    (d' : RangeDec) × Tracks map_bytes.0 []
      (put_map boundaries shifts 3 0 0 re_init init_prekd).0
      d'
    × (read_map 3 0 (reader (empty_reader map_coder) map_coder init_prekd)
        ≡ reader
            (record (empty_reader map_coder) {
              relocs = with_entries boundaries shifts 3 0 relocs_start;
              last = last_boundary boundaries shifts 3 0 0;
            })
            d'
            (put_map boundaries shifts 3 0 0 re_init init_prekd).1)
read_map-put_map_example =
    read_map-put_map boundaries shifts map_bytes.0 [] map_bytes.2 3 (empty_reader map_coder) re_init
      map_coder init_prekd three_feasible boundaries-IsU32 (λ j. omega arith) refl re_init-IsReady
      (init_groups 4 6).0 map_bytes.3 (rc_init-Tracks map_bytes.0 [] map_bytes.2)
