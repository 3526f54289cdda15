-- ===== src/Dwarf/Attribute.antt =====
-- dwarf/data.hh: the attributes of `DW_AT` that the library itself asks for, by their codes.
use libelfin.Prelude.{ℕ, List, [], ◌∷◌, Bool, false, ◌||◌, ◌==◌}

abbrev pub sibling : ℕ
sibling = 0x01

abbrev pub location : ℕ
location = 0x02

abbrev pub byte_size : ℕ
byte_size = 0x0b

abbrev pub bit_offset : ℕ
bit_offset = 0x0c

abbrev pub bit_size : ℕ
bit_size = 0x0d

abbrev pub name : ℕ
name = 0x03

abbrev pub low_pc : ℕ
low_pc = 0x11

abbrev pub high_pc : ℕ
high_pc = 0x12

abbrev pub comp_dir : ℕ
comp_dir = 0x1b

abbrev pub abstract_origin : ℕ
abstract_origin = 0x31

abbrev pub specification : ℕ
specification = 0x47

abbrev pub stmt_list : ℕ
stmt_list = 0x10

abbrev pub string_length : ℕ
string_length = 0x19

abbrev pub lower_bound : ℕ
lower_bound = 0x22

abbrev pub return_addr : ℕ
return_addr = 0x2a

abbrev pub start_scope : ℕ
start_scope = 0x2c

abbrev pub bit_stride : ℕ
bit_stride = 0x2e

abbrev pub upper_bound : ℕ
upper_bound = 0x2f

abbrev pub count : ℕ
count = 0x37

abbrev pub data_member_location : ℕ
data_member_location = 0x38

abbrev pub frame_base : ℕ
frame_base = 0x40

abbrev pub macro_info : ℕ
macro_info = 0x43

abbrev pub segment : ℕ
segment = 0x46

abbrev pub static_link : ℕ
static_link = 0x48

abbrev pub use_location : ℕ
use_location = 0x4a

abbrev pub vtable_elem_location : ℕ
vtable_elem_location = 0x4d

abbrev pub allocated : ℕ
allocated = 0x4e

abbrev pub associated : ℕ
associated = 0x4f

abbrev pub data_location : ℕ
data_location = 0x50

abbrev pub byte_stride : ℕ
byte_stride = 0x51

abbrev pub ranges : ℕ
ranges = 0x55

abbrev pub lo_user : ℕ
lo_user = 0x2000

abbrev pub hi_user : ℕ
hi_user = 0x3fff

-- The attribute is one of the labels of a `switch`.
abbrev pub any_of : ℕ → List ℕ → Bool
any_of attr [] = false
any_of attr (label ∷ labels) = attr == label || any_of attr labels
