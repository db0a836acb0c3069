-- ===== src/SpatialGuest.antt =====
-- linux/spatial/native-guest.c: its data, over the system calls of the kernel, and actions that may
-- leave for the label `out`. What is asked of the kernel is kept as a list of events; what is printed
-- and the power off are left out. Control has `run_control` and `main`.
pub mod Closing
pub mod Control
pub mod Ends
pub mod Order
pub mod Pass
pub mod Traces
use c_bpf.Base.{
  ℕ, zero, suc, ◌+◌, ◌*◌, ◌%◌, ◌^◌, Bool, true, false, not, ◌&&◌, ◌||◌, Option, none, some, List,
  [], ◌∷◌, ◌++◌, ltb, ◌==◌, if◌then◌else◌, ℤ, pos, negsuc,
}

-- The opcodes of the one program.
pub data Op : Type 0 where
  st_w mov64_x add64_k ld_imm_dw second_half call jeq_k ldx_b stx_b mov64_k exit : Op

pub record Insn : Type 0 where
  pub op : Op
  pub dst_reg : ℕ
  pub src_reg : ℕ
  pub off : ℤ
  pub imm : ℤ

abbrev pub ins : Op → ℕ → ℕ → ℤ → ℤ → Insn
ins op dst src off imm = record { op = op; dst_reg = dst; src_reg = src; off = off; imm = imm }

-- Adds 1 to the last of the seven bytes of entry 1. The fourth instruction has the map's descriptor;
-- BPF_PSEUDO_MAP_FD is 1 and BPF_FUNC_map_lookup_elem is 1.
abbrev pub program : ℕ → List Insn
program map_fd =
    ins st_w 10 0 (negsuc 3) (pos 1)
    ∷ ins mov64_x 2 10 (pos 0) (pos 0)
    ∷ ins add64_k 2 0 (pos 0) (negsuc 3)
    ∷ ins ld_imm_dw 1 1 (pos 0) (pos map_fd)
    ∷ ins second_half 0 0 (pos 0) (pos 0)
    ∷ ins call 0 0 (pos 0) (pos 1)
    ∷ ins jeq_k 0 0 (pos 5) (pos 0)
    ∷ ins ldx_b 1 0 (pos 6) (pos 0)
    ∷ ins add64_k 1 0 (pos 0) (pos 1)
    ∷ ins stx_b 0 1 (pos 6) (pos 0)
    ∷ ins mov64_x 0 1 (pos 0) (pos 0)
    ∷ ins exit 0 0 (pos 0) (pos 0)
    ∷ ins mov64_k 0 0 (pos 0) (pos 0)
    ∷ ins exit 0 0 (pos 0) (pos 0)
    ∷ []

-- `struct bpf_map_info`, as far as it is read.
pub record MapInfo : Type 0 where
  pub id : ℕ
  pub is_array : Bool
  pub key_size : ℕ
  pub value_size : ℕ
  pub max_entries : ℕ
  pub map_flags : ℕ
  pub ifindex : ℕ
  pub btf_id : ℕ
  pub btf_key_type_id : ℕ
  pub btf_value_type_id : ℕ
  pub btf_vmlinux_value_type_id : ℕ
  pub map_extra : ℕ

-- `struct bpf_prog_info`, as far as it is read; the pointers are those that the guest gave, or not,
-- and what the kernel writes behind them stands beside.
pub record ProgInfo : Type 0 where
  pub is_socket_filter : Bool
  pub id : ℕ
  pub jited_prog_len : ℕ
  pub xlated_prog_len : ℕ
  pub nr_map_ids : ℕ
  pub nr_jited_ksyms : ℕ
  pub nr_jited_func_lens : ℕ
  pub ifindex : ℕ
  pub btf_id : ℕ
  pub name_matches : Bool
  pub pointers_kept : Bool
  pub map_id : ℕ
  pub native_entry : ℕ
  pub function_length : ℕ

-- The seven bytes of an entry, by index.
abbrev pub Bytes : Type 0
Bytes = ℕ → ℕ

-- `0x11 … 0x66`, then 41.
abbrev pub initial_value : Bytes
initial_value i = if i == 6 then 41 else 17 * (i + 1)

abbrev pub same_bytes : ℕ → Bytes → Bytes → Bool
same_bytes zero a b = true
same_bytes (suc n) a b = a n == b n && same_bytes n a b

-- What the guest asks for, with the answer; `none` is a failure.
pub data Event : Type 0 where
  creates : Option ℕ → Event
  describes : ℕ → Option MapInfo → Event
  updates : ℕ → Bytes → Bool → Event
  looks : ℕ → Option Bytes → Event
  loads : List Insn → Option ℕ → Event
  inspects : ℕ → Option ProgInfo → Event
  waits : Bool → Event
  runs : ℕ → Option ℕ → Event
  closes : ℕ → Event

pub record Kernel : Type 1 where
  pub State : Type 0
  pub create : State → Option ℕ × State
  pub describe : ℕ → State → Option MapInfo × State
  pub update : ℕ → Bytes → State → Bool × State
  pub lookup : ℕ → State → Option Bytes × State
  pub load : List Insn → State → Option ℕ × State
  -- Without buffers, and with the buffers that the first answer asks for.
  pub inspect : ℕ → Option ProgInfo → State → Option ProgInfo × State
  -- Whether the next line of the input is the authorization.
  pub authorize : State → Bool × State
  pub test_run : ℕ → State → Option ℕ × State
  pub close : ℕ → State → State
  pub pid : ℕ
  pub uname_fails : Bool
  pub release_matches : Bool

pub data Stage : Type 0 where
  map_create map_info map_initialize program_load program_info_size program_info_complete : Stage
  authorization test_run map_readback complete : Stage

pub record Counts : Type 0 where
  pub map_creates : ℕ
  pub map_updates : ℕ
  pub map_lookups : ℕ
  pub prog_loads : ℕ
  pub test_runs : ℕ
  pub infos : ℕ

-- `++n` on an `unsigned`.
abbrev pub bump : ℕ → ℕ
bump n = (n + 1) % 2 ^ 32

abbrev pub map_fits : MapInfo → Bool
map_fits i =
    not (i.id == 0)
    && i.is_array
    && i.key_size == 4
    && i.value_size == 7
    && i.max_entries == 2
    && i.map_flags == 0
    && i.ifindex == 0
    && i.btf_id == 0
    && i.btf_key_type_id == 0
    && i.btf_value_type_id == 0
    && i.btf_vmlinux_value_type_id == 0
    && i.map_extra == 0

-- The sizes of `native_words` and `translated`.
abbrev pub sizing_fits : ProgInfo → Bool
sizing_fits i =
    i.is_socket_filter
    && not (i.id == 0)
    && not (i.jited_prog_len == 0)
    && not (ltb (4 * 2048) i.jited_prog_len)
    && i.jited_prog_len % 4 == 0
    && not (i.xlated_prog_len == 0)
    && not (ltb (8 * 256) i.xlated_prog_len)
    && i.xlated_prog_len % 8 == 0
    && i.nr_map_ids == 1
    && i.nr_jited_ksyms == 1
    && i.nr_jited_func_lens == 1
    && i.ifindex == 0
    && i.btf_id == 0
    && i.name_matches

-- The second answer, against the first and the map. Both types are that of a socket filter.
abbrev pub image_fits : MapInfo → ProgInfo → ProgInfo → Bool
image_fits m sizing i =
    i.id == sizing.id
    && i.is_socket_filter
    && i.jited_prog_len == sizing.jited_prog_len
    && i.xlated_prog_len == sizing.xlated_prog_len
    && i.pointers_kept
    && i.nr_map_ids == 1
    && i.map_id == m.id
    && i.nr_jited_ksyms == 1
    && not (i.native_entry == 0)
    && i.native_entry % 4 == 0
    && i.nr_jited_func_lens == 1
    && i.function_length == i.jited_prog_len

module _ (k : Kernel) where
  -- The two descriptors and the stage are variables of `run_control`; -1 is `none`.
  pub record World : Type 0 where
    pub kernel : k.State
    pub map_fd : Option ℕ
    pub prog_fd : Option ℕ
    pub counts : Counts
    pub stage : Stage
    pub events : List Event

  -- `none` goes to `out`.
  abbrev pub Action : Type 0 → Type 0
  Action A = World → Option A × World

  -- The events grow at the end.
  abbrev pub add : Event → World → World
  add e w = record w { events = w.events ++ (e ∷ []) }

module _ {k : Kernel} where
  unfoldable pub continue :
      {A B : Type 0} → Option A × World k → (A → Action k B) → Option B × World k
  continue (some a, w) f = f a w
  continue (none, w) f = (none, w)

  infixl 5 ◌>>=◌ ◌>>◌
  unfoldable pub ◌>>=◌ : {A B : Type 0} → Action k A → (A → Action k B) → Action k B
  unfolding continue
  ◌>>=◌ m f w = continue (m w) f

  abbrev pub ◌>>◌ : {A B : Type 0} → Action k A → Action k B → Action k B
  m >> n = m >>= λ _. n

  -- An action that does not fail.
  abbrev pub done : {A : Type 0} → A → Action k A
  done a w = (some a, w)

  -- `if (!test) goto out;`
  unfoldable pub require : Bool → Action k Bool
  require true w = (some true, w)
  require false w = (none, w)

  abbrev pub enter : Stage → Action k Stage
  enter t w = (some t, record w { stage = t })
