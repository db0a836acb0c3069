-- ===== src/Jit/Admit.antt =====
-- linux/ownership/cbpf_jit.c, `call_operation`, `cbpf_jit_match` and `admit`.
use c_bpf.Base.{
  ℕ, suc, ◌+◌, Bool, true, false, not, ◌&&◌, ◌||◌, Option, none, some, List, [], ◌∷◌, ◌==◌, ltb,
  leb, if◌then◌else◌, length, store, ℤ, pos, negsuc, is,
}
use c_bpf.Jit.{
  Code, mov_x, mov_k, stx_dw, ldx_dw, jeq_k, call, exit, other, BpfInsn, Kind, no_bits, only_uninit,
  only_zero, only_scalar, handle_or_zero, nonempty, is_scalar, is_defined, is_handle, Flow, join,
}

pub data Operation : Type 0 where
  no_operation acquire read release : Operation

-- What the kernel and the linker supply: `bpf_jit_get_func_addr`, which gives an address and
-- whether it is fixed, or fails, and the addresses of the three functions.
pub record Linkage : Type 0 where
  pub get_func_addr : BpfInsn → Option (ℕ × Bool)
  pub acquire_address : ℕ
  pub read_address : ℕ
  pub release_address : ℕ

-- `BPF_PSEUDO_KFUNC_CALL`.
abbrev pub pseudo_kfunc_call : ℕ
pseudo_kfunc_call = 2

unfoldable pub is_call : Code → Bool
is_call call = true
is_call _ = false

unfoldable pub operation_at : Linkage → ℕ → Operation
operation_at l address =
    if address == l.acquire_address
    then acquire
    else if address == l.read_address
    then read
    else if address == l.release_address
    then release
    else no_operation

unfoldable pub resolved : Linkage → Option (ℕ × Bool) → Operation
unfolding operation_at
resolved l none = no_operation
resolved l (some (address, fixed)) = if fixed then operation_at l address else no_operation

unfoldable pub call_operation : Linkage → BpfInsn → Operation
unfolding is_call resolved
call_operation l i =
    if not (is_call i.code) || not (i.src_reg == pseudo_kfunc_call) || not (i.dst_reg == 0)
    then no_operation
    else resolved l (l.get_func_addr i)

unfoldable pub is_operation : Operation → Bool
is_operation no_operation = false
is_operation _ = true

-- `cbpf_jit_match`: the answer, which is also the mark that it leaves on the program.
unfoldable pub cbpf_jit_match : Linkage → List BpfInsn → Bool → Bool
unfolding call_operation is_operation
cbpf_jit_match l [] marked = marked
cbpf_jit_match l (i ∷ is) marked =
    if is_operation (call_operation l i) then true else cbpf_jit_match l is marked

pub data Error : Type 0 where
  einval eopnotsupp : Error

-- What the switch makes of one instruction: an error, or the state behind it, whether control
-- falls through, the flow that a branch takes to its target, and what it adds to the two locals.
pub record Passed : Type 0 where
  pub state : Flow
  pub falls_through : Bool
  pub taken : Option (ℕ × Flow)
  pub acquires : ℕ
  pub exits : Bool
  pub operation : Operation

pub data Transfer : Type 0 where
  refuse : Error → Transfer
  pass : Passed → Transfer

abbrev pub simply : Flow → Transfer
simply f = pass (record {
  state = f;
  falls_through = true;
  taken = none;
  acquires = 0;
  exits = false;
  operation = no_operation;
})

abbrev pub set_reg : Flow → ℕ → Kind → Flow
set_reg f r v = record f { reg = store f.reg r v }

-- `imm` and `off` as conditions, and `off == -8`.
abbrev pub nonzero : ℤ → Bool
nonzero v = not (is v 0)

abbrev pub is_slot : ℤ → Bool
is_slot (pos n) = false
is_slot (negsuc n) = n == 7

unfoldable pub transfer_mov_x : BpfInsn → Flow → Transfer
unfolding is_defined
transfer_mov_x i f =
    if ltb 9 i.dst_reg
      || ltb 9 i.src_reg
      || nonzero i.off
      || nonzero i.imm
      || not (is_defined (f.reg i.src_reg))
    then refuse einval
    else simply (set_reg f i.dst_reg (f.reg i.src_reg))

unfoldable pub transfer_mov_k : BpfInsn → Flow → Transfer
transfer_mov_k i f =
    if ltb 9 i.dst_reg || not (i.src_reg == 0) || nonzero i.off
    then refuse einval
    else simply (set_reg f i.dst_reg (if nonzero i.imm then only_scalar else only_zero))

unfoldable pub transfer_store : BpfInsn → Flow → Transfer
unfolding is_defined
transfer_store i f =
    if not (i.dst_reg == 10)
      || ltb 9 i.src_reg
      || not (is_slot i.off)
      || nonzero i.imm
      || not (is_defined (f.reg i.src_reg))
    then refuse einval
    else simply (record f { spill = f.reg i.src_reg })

unfoldable pub transfer_load : BpfInsn → Flow → Transfer
unfolding is_defined
transfer_load i f =
    if ltb 9 i.dst_reg
      || not (i.src_reg == 10)
      || not (is_slot i.off)
      || nonzero i.imm
      || not (is_defined f.spill)
    then refuse einval
    else simply (set_reg f i.dst_reg f.spill)

-- The distance of a forward branch; `none` where `off <= 0`.
unfoldable pub forward : ℤ → Option ℕ
forward (pos (suc n)) = some (suc n)
forward _ = none

unfoldable pub branch_to : BpfInsn → Flow → ℕ → Transfer
unfolding nonempty
branch_to i f target =
    let kind = f.reg i.dst_reg in
    let rest = record kind { zero = false } in
    pass (record {
      state = set_reg f i.dst_reg rest;
      falls_through = nonempty rest;
      taken = if kind.zero then some (target, set_reg f i.dst_reg only_zero) else none;
      acquires = 0;
      exits = false;
      operation = no_operation;
    })

unfoldable pub branch_by : Option ℕ → BpfInsn → ℕ → ℕ → Flow → Transfer
unfolding is_defined branch_to
branch_by none i pc len f = refuse einval
branch_by (some d) i pc len f =
    if ltb 9 i.dst_reg
      || not (i.src_reg == 0)
      || nonzero i.imm
      || leb len (pc + 1 + d)
      || not (is_defined (f.reg i.dst_reg))
      || (f.reg i.dst_reg).uninit
      || (f.reg i.dst_reg).scalar
    then refuse einval
    else branch_to i f (pc + 1 + d)

unfoldable pub transfer_branch : BpfInsn → ℕ → ℕ → Flow → Transfer
unfolding branch_by
transfer_branch i pc len f = branch_by (forward i.off) i pc len f

-- Registers 1 to 5 are lost in a call.
abbrev pub clobber : (ℕ → Kind) → ℕ → Kind
clobber reg r = if leb 1 r && leb r 5 then only_uninit else reg r

abbrev pub called : Flow → Kind → Operation → ℕ → Transfer
called f result operation acquires = pass (record {
  state = record f { reg = clobber (store f.reg 0 result) };
  falls_through = true;
  taken = none;
  acquires = acquires;
  exits = false;
  operation = operation;
})

unfoldable pub transfer_call : Operation → ℕ → Flow → Transfer
unfolding is_scalar is_handle
transfer_call no_operation n f = refuse einval
transfer_call acquire n f =
    if not (is_scalar (f.reg 1)) || ltb 2 (n + 1)
    then refuse einval
    else called f handle_or_zero acquire 1
transfer_call read n f =
    if not (is_handle (f.reg 1)) then refuse einval else called f only_scalar read 0
transfer_call release n f =
    if not (is_handle (f.reg 1)) then refuse einval else called f only_zero release 0

unfoldable pub transfer_exit : BpfInsn → Flow → Transfer
unfolding is_scalar
transfer_exit i f =
    if not (i.dst_reg == 0)
      || not (i.src_reg == 0)
      || nonzero i.off
      || nonzero i.imm
      || not (is_scalar (f.reg 0))
    then refuse einval
    else pass (record {
      state = f;
      falls_through = false;
      taken = none;
      acquires = 0;
      exits = true;
      operation = no_operation;
    })

-- The switch, with `n` acquisitions so far.
unfoldable pub transfer : Linkage → Code → BpfInsn → ℕ → ℕ → ℕ → Flow → Transfer
unfolding transfer_mov_x transfer_mov_k transfer_store transfer_load transfer_branch transfer_call
    transfer_exit call_operation
transfer l mov_x i pc len n f = transfer_mov_x i f
transfer l mov_k i pc len n f = transfer_mov_k i f
transfer l stx_dw i pc len n f = transfer_store i f
transfer l ldx_dw i pc len n f = transfer_load i f
transfer l jeq_k i pc len n f = transfer_branch i pc len f
transfer l call i pc len n f = transfer_call (call_operation l i) n f
transfer l exit i pc len n f = transfer_exit i f
transfer l (other c) i pc len n f = refuse eopnotsupp

-- The compiler's table and the locals of `admit`.
pub record Table : Type 0 where
  pub flow : ℕ → Flow
  pub operation : ℕ → Operation
  pub acquisitions : ℕ
  pub has_exit : Bool

unfoldable pub join_at : ℕ → Flow → (ℕ → Flow) → ℕ → Flow
unfolding join
join_at target source flow = store flow target (join (flow target) source)

abbrev pub join_taken : Option (ℕ × Flow) → (ℕ → Flow) → ℕ → Flow
join_taken none flow = flow
join_taken (some (target, source)) flow = join_at target source flow

-- The rest of a round, once the switch has passed the instruction at `pc`.
unfoldable pub record_pass : ℕ → Passed → Table → Table
unfolding join_at
record_pass pc r t =
    let flow = join_taken r.taken t.flow in
    record {
      flow = if r.falls_through then join_at (pc + 1) r.state flow else flow;
      operation = store t.operation pc r.operation;
      acquisitions = t.acquisitions + r.acquires;
      has_exit = t.has_exit || r.exits;
    }

pub data Admission : Type 0 where
  admitted : Table → Admission
  refused : Error → Admission

-- The loop over the rest of the program, from `pc`.
unfoldable pub admit_loop : Linkage → List BpfInsn → ℕ → ℕ → Table → Admission
unfolding transfer record_pass
admit_loop l [] pc len t = admitted t
admit_loop l (i ∷ is) pc len t =
    if not (t.flow pc).reached
    then refused einval
    else elim (transfer l i.code i pc len t.acquisitions (t.flow pc)) [
      | refuse e ↦ refused e
      | pass r ↦ admit_loop l is (pc + 1) len (record_pass pc r t)
    ]

abbrev pub unreached : Flow
unreached = record { reg = λ _. no_bits; spill = no_bits; reached = false }

abbrev pub entry : Flow
entry = record { reg = λ _. only_uninit; spill = only_uninit; reached = true }

unfoldable pub initial : Table
initial = record {
  flow = store (λ _. unreached) 0 entry;
  operation = λ _. no_operation;
  acquisitions = 0;
  has_exit = false;
}

unfoldable pub finish : ℕ → Table → Admission
finish len t =
    if t.has_exit && not (t.acquisitions == 0) && not (t.flow len).reached
    then admitted t
    else refused einval

unfoldable pub admit : Linkage → List BpfInsn → Admission
unfolding admit_loop initial finish
admit l p = elim (admit_loop l p 0 (length p) initial) [
  | refused e ↦ refused e
  | admitted t ↦ finish (length p) t
]
