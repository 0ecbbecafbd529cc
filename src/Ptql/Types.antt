-- ===== src/Ptql/Types.antt =====
-- The types of src/sigar_ptql.c. A union is a data type with its members tagged, so that a read of
-- another member than the one written can be seen; `op_flags` is a record of its bits.
use libsigar.Base.{ℕ, Bool, false, List, Option, none, some}
use libsigar.Text.{Bytes}

-- `ptql_value_type_t`, in its order.
pub data ValueType : Type 0 where
  type_ui64 type_ui32 type_dbl type_chr type_str type_any : ValueType

abbrev pub type_rank : ValueType → ℕ
type_rank type_ui64 = 0
type_rank type_ui32 = 1
type_rank type_dbl = 2
type_rank type_chr = 3
type_rank type_str = 4
type_rank type_any = 5

-- `ptql_op_name_t`, in its order.
pub data OpName : Type 0 where
  op_eq op_ne op_gt op_ge op_lt op_le op_ew op_sw op_re op_ct op_max : OpName

abbrev pub op_rank : OpName → ℕ
op_rank op_eq = 0
op_rank op_ne = 1
op_rank op_gt = 2
op_rank op_ge = 3
op_rank op_lt = 4
op_rank op_le = 5
op_rank op_ew = 6
op_rank op_sw = 7
op_rank op_re = 8
op_rank op_ct = 9
op_rank op_max = 10

-- `PTQL_OP_MAX_NSTR`.
abbrev pub op_max_nstr : ℕ
op_max_nstr = 5

-- `PTQL_OP_FLAG_*`.
pub record OpFlags : Type 0 where
  pub parent : Bool
  pub ref : Bool
  pub glob : Bool
  pub pid : Bool
  pub icase : Bool

abbrev pub no_flags : OpFlags
no_flags = record { parent = false; ref = false; glob = false; pid = false; icase = false }

-- `ptql_parse_branch_t`.
pub record ParseBranch : Type 0 where
  pub name : Bytes
  pub attr : Bytes
  pub op : Bytes
  pub value : Bytes
  pub op_flags : OpFlags

-- The functions that a lookup's `get` points to: a getter of the platform for a struct, or a matcher.
pub data Getter : Type 0 where
  struct_member : Bytes → Bytes → Getter
  args_match modules_match env_match pid_match : Getter

-- The functions that a lookup's `init` points to.
pub data Init : Type 0 where
  init_none init_any init_args init_port init_pid init_service : Init

-- `ptql_lookup_t`; the member's offset is part of the getter.
pub record Lookup : Type 0 where
  pub name : Option Bytes
  pub get : Getter
  pub type : ValueType
  pub init : Init

-- `ptql_entry_t`.
pub record PtqlEntry : Type 0 where
  pub name : Bytes
  pub members : List Lookup

-- The `PTQL_PID_*` kinds, in their order; a branch's `flags` starts at zero.
abbrev pub pid_pid : ℕ
pid_pid = 0

abbrev pub pid_file : ℕ
pid_file = 1

abbrev pub pid_sudo_file : ℕ
pid_sudo_file = 2

abbrev pub pid_tcp_port : ℕ
pid_tcp_port = 3

abbrev pub pid_udp_port : ℕ
pid_udp_port = 4

abbrev pub pid_service_name : ℕ
pid_service_name = 5

abbrev pub pid_service_display : ℕ
pid_service_display = 6

abbrev pub pid_service_path : ℕ
pid_service_path = 7

abbrev pub pid_service_exe : ℕ
pid_service_exe = 8

abbrev pub pid_service_pid : ℕ
pid_service_pid = 9

-- What a query is refused for; each is one format of `ptql_error`.
pub data Error : Type 0 where
  missing_equals missing_dot missing_query : Error
  unsupported_modifier : ℕ → Error
  unsupported_operator : Bytes → Error
  unsupported_method : Bytes → Error
  unsupported_attribute : Bytes → Bytes → Error
  unsupported_operator_for : Bytes → Bytes → Bytes → Error
  unsupported_variable : Bytes → Bytes → Error
  out_of_range : Bytes → ℕ → Error
  self_reference : Bytes → Error
  not_a_number : Bytes → Error
  not_a_char : Bytes → Error
  requires_eq : Bytes → Error
  unsupported_protocol : Bytes → Bytes → Error

pub data Result {ℓ} (A : Type ℓ) : Type ℓ where
  ok : A → Result A
  malformed : Error → Result A

infixl 5 ◌>>=◌
abbrev pub ◌>>=◌ {ℓ κ} : {A : Type ℓ} {B : Type κ} → Result A → (A → Result B) → Result B
ok a >>= f = f a
malformed e >>= f = malformed e

abbrev pub need {ℓ} : {A : Type ℓ} → Option A → Error → Result A
need (some a) e = ok a
need none e = malformed e
