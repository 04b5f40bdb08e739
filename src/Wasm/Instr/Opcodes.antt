-- ===== src/Wasm/Instr/Opcodes.antt =====
-- internal/wasm/opcodes.go: the opcodes that the readers tell apart, and the whole set by groups.
use wasm2go.Prelude.{ℕ, List, [], ◌∷◌}

abbrev pub op_unreachable : ℕ
op_unreachable = 0x00

abbrev pub op_nop : ℕ
op_nop = 0x01

abbrev pub op_block : ℕ
op_block = 0x02

abbrev pub op_loop : ℕ
op_loop = 0x03

abbrev pub op_if : ℕ
op_if = 0x04

abbrev pub op_else : ℕ
op_else = 0x05

abbrev pub op_try : ℕ
op_try = 0x06

abbrev pub op_catch : ℕ
op_catch = 0x07

abbrev pub op_throw : ℕ
op_throw = 0x08

abbrev pub op_rethrow : ℕ
op_rethrow = 0x09

abbrev pub op_delegate : ℕ
op_delegate = 0x18

abbrev pub op_catch_all : ℕ
op_catch_all = 0x19

abbrev pub op_end : ℕ
op_end = 0x0b

abbrev pub op_br : ℕ
op_br = 0x0c

abbrev pub op_br_if : ℕ
op_br_if = 0x0d

abbrev pub op_br_table : ℕ
op_br_table = 0x0e

abbrev pub op_return : ℕ
op_return = 0x0f

abbrev pub op_call : ℕ
op_call = 0x10

abbrev pub op_call_indirect : ℕ
op_call_indirect = 0x11

abbrev pub op_drop : ℕ
op_drop = 0x1a

abbrev pub op_select : ℕ
op_select = 0x1b

abbrev pub op_select_t : ℕ
op_select_t = 0x1c

abbrev pub op_local_get : ℕ
op_local_get = 0x20

abbrev pub op_local_set : ℕ
op_local_set = 0x21

abbrev pub op_local_tee : ℕ
op_local_tee = 0x22

abbrev pub op_global_get : ℕ
op_global_get = 0x23

abbrev pub op_global_set : ℕ
op_global_set = 0x24

abbrev pub op_mem_size : ℕ
op_mem_size = 0x3f

abbrev pub op_mem_grow : ℕ
op_mem_grow = 0x40

abbrev pub op_i32_const : ℕ
op_i32_const = 0x41

abbrev pub op_i64_const : ℕ
op_i64_const = 0x42

abbrev pub op_f32_const : ℕ
op_f32_const = 0x43

abbrev pub op_f64_const : ℕ
op_f64_const = 0x44

abbrev pub op_ref_null : ℕ
op_ref_null = 0xd0

abbrev pub op_ref_func : ℕ
op_ref_func = 0xd2

abbrev pub op_prefix_fc : ℕ
op_prefix_fc = 0xfc

abbrev pub op_prefix_fd : ℕ
op_prefix_fd = 0xfd

abbrev pub op_prefix_fe : ℕ
op_prefix_fe = 0xfe

-- OpI32Load up to OpI64Store32.
abbrev pub memory_ops : List ℕ
memory_ops =
    0x28 ∷ 0x29 ∷ 0x2a ∷ 0x2b ∷ 0x2c ∷ 0x2d ∷ 0x2e ∷ 0x2f ∷ 0x30 ∷ 0x31 ∷ 0x32 ∷ 0x33 ∷ 0x34 ∷ 0x35
    ∷ 0x36 ∷ 0x37 ∷ 0x38 ∷ 0x39 ∷ 0x3a ∷ 0x3b ∷ 0x3c ∷ 0x3d ∷ 0x3e ∷ []

-- OpI32Eqz up to OpF64Ge.
abbrev pub comparison_ops : List ℕ
comparison_ops =
    0x45 ∷ 0x46 ∷ 0x47 ∷ 0x48 ∷ 0x49 ∷ 0x4a ∷ 0x4b ∷ 0x4c ∷ 0x4d ∷ 0x4e ∷ 0x4f ∷ 0x50 ∷ 0x51 ∷ 0x52
    ∷ 0x53 ∷ 0x54 ∷ 0x55 ∷ 0x56 ∷ 0x57 ∷ 0x58 ∷ 0x59 ∷ 0x5a ∷ 0x5b ∷ 0x5c ∷ 0x5d ∷ 0x5e ∷ 0x5f
    ∷ 0x60 ∷ 0x61 ∷ 0x62 ∷ 0x63 ∷ 0x64 ∷ 0x65 ∷ 0x66 ∷ []

-- OpI32Clz up to OpI64Rotr.
abbrev pub integer_ops : List ℕ
integer_ops =
    0x67 ∷ 0x68 ∷ 0x69 ∷ 0x6a ∷ 0x6b ∷ 0x6c ∷ 0x6d ∷ 0x6e ∷ 0x6f ∷ 0x70 ∷ 0x71 ∷ 0x72 ∷ 0x73 ∷ 0x74
    ∷ 0x75 ∷ 0x76 ∷ 0x77 ∷ 0x78 ∷ 0x79 ∷ 0x7a ∷ 0x7b ∷ 0x7c ∷ 0x7d ∷ 0x7e ∷ 0x7f ∷ 0x80 ∷ 0x81
    ∷ 0x82 ∷ 0x83 ∷ 0x84 ∷ 0x85 ∷ 0x86 ∷ 0x87 ∷ 0x88 ∷ 0x89 ∷ 0x8a ∷ []

-- OpF32Abs up to OpF64Copysign.
abbrev pub float_ops : List ℕ
float_ops =
    0x8b ∷ 0x8c ∷ 0x8d ∷ 0x8e ∷ 0x8f ∷ 0x90 ∷ 0x91 ∷ 0x92 ∷ 0x93 ∷ 0x94 ∷ 0x95 ∷ 0x96 ∷ 0x97 ∷ 0x98
    ∷ 0x99 ∷ 0x9a ∷ 0x9b ∷ 0x9c ∷ 0x9d ∷ 0x9e ∷ 0x9f ∷ 0xa0 ∷ 0xa1 ∷ 0xa2 ∷ 0xa3 ∷ 0xa4 ∷ 0xa5
    ∷ 0xa6 ∷ []

-- OpI32WrapI64 up to OpI64Extend32S.
abbrev pub conversion_ops : List ℕ
conversion_ops =
    0xa7 ∷ 0xa8 ∷ 0xa9 ∷ 0xaa ∷ 0xab ∷ 0xac ∷ 0xad ∷ 0xae ∷ 0xaf ∷ 0xb0 ∷ 0xb1 ∷ 0xb2 ∷ 0xb3 ∷ 0xb4
    ∷ 0xb5 ∷ 0xb6 ∷ 0xb7 ∷ 0xb8 ∷ 0xb9 ∷ 0xba ∷ 0xbb ∷ 0xbc ∷ 0xbd ∷ 0xbe ∷ 0xbf ∷ 0xc0 ∷ 0xc1
    ∷ 0xc2 ∷ 0xc3 ∷ 0xc4 ∷ []
