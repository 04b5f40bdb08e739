-- ===== src/Wasm/Parser/Segments.antt =====
-- The element, code and data sections of internal/wasm/parser.go.
use wasm2go.Prelude.{ℕ, ◌+◌, ◌^◌, true, false, not, List, [], ◌∷◌, ltb, ◌==◌, if◌then◌else◌, length}
use wasm2go.Wasm.Reader.{
  Reader, pure, fail, ◌>>=◌, ◌>>◌, wrapped, refuse_if, read_byte, read_full, read_each, too_long,
  unsupported_flag, unsupported_elemkind, count_mismatch, entry, part, offset,
}
use wasm2go.Wasm.Leb128.{read_u32, read_byte_vec}
use wasm2go.Wasm.Module.{Function, ElementSegment, DataSegment, Module}
use wasm2go.Wasm.Parser.ConstExpr.{read_const_expr}
use wasm2go.Wasm.Parser.Sections.{read_count, max_vector_len}

abbrev pub max_function_body : ℕ
max_function_body = 2 ^ 25

-- vec(funcidx)
unfoldable pub read_func_idxs : ℕ → Reader (List ℕ)
read_func_idxs i = do
  cnt ← read_u32
  refuse_if (ltb max_vector_len cnt) (entry i (too_long cnt))
  read_each 0 cnt (λ j. read_u32)

unfoldable pub read_element : ℕ → Reader ElementSegment
unfolding read_func_idxs
read_element i = do
  flag ← read_u32
  if flag == 0x00
      then (do
        off ← wrapped (λ e. entry i (part offset e)) read_const_expr
        idxs ← read_func_idxs i
        pure (record { table_idx = 0; offset = off; func_idxs = idxs }))
      else if flag == 0x02
      then (do
        t_idx ← read_u32
        off ← read_const_expr
        elem_kind ← read_byte
        refuse_if (not (elem_kind == 0x00)) (unsupported_elemkind i elem_kind)
        idxs ← read_func_idxs i
        pure (record { table_idx = t_idx; offset = off; func_idxs = idxs }))
      else fail (unsupported_flag i flag)

unfoldable pub parse_element_section : Module → Reader Module
unfolding read_element
parse_element_section m = do
  n ← read_count
  elements ← read_each 0 n read_element
  pure (record m { elements = elements })

-- `m.Functions[i].Body = body` for each function in turn.
unfoldable pub read_body : ℕ → Function → Reader Function
read_body i f = do
  size ← read_u32
  refuse_if (ltb max_function_body size) (entry i (too_long size))
  body ← wrapped (entry i) (read_full size)
  pure (record f { body = body })

unfoldable pub read_bodies : ℕ → List Function → Reader (List Function)
unfolding read_body
read_bodies i [] = pure []
read_bodies i (f ∷ fs) = do f' ← read_body i f; fs' ← read_bodies (i + 1) fs; pure (f' ∷ fs')

unfoldable pub parse_code_section : Module → Reader Module
unfolding read_bodies
parse_code_section m = do
  n ← read_u32
  refuse_if (not (n == length m.functions)) (count_mismatch n (length m.functions))
  functions ← read_bodies 0 m.functions
  pure (record m { functions = functions })

unfoldable pub read_data : ℕ → Reader DataSegment
read_data i = do
  flag ← read_u32
  if flag == 0x00
      then (do
        off ← read_const_expr
        b ← read_byte_vec
        pure (record { mem_idx = 0; offset = off; bytes = b; passive = false }))
      else if flag == 0x01
      then (do
        b ← read_byte_vec
        pure (record { mem_idx = 0; offset = []; bytes = b; passive = true }))
      else if flag == 0x02
      then (do
        mi ← read_u32
        off ← read_const_expr
        b ← read_byte_vec
        pure (record { mem_idx = mi; offset = off; bytes = b; passive = false }))
      else fail (unsupported_flag i flag)

unfoldable pub parse_data_section : Module → Reader Module
unfolding read_data
parse_data_section m = do
  n ← read_count
  datas ← read_each 0 n read_data
  pure (record m { datas = datas })
