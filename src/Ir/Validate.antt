-- ===== src/Ir/Validate.antt =====
-- src/cbpf.c, `cbpf_validate`. `none` is the NULL program; otherwise the count is the length.
use c_bpf.Base.{
  ℕ, ◌+◌, ◌-◌, Bool, true, false, not, ◌&&◌, ◌||◌, Option, none, some, List, [], ◌∷◌, ltb, leb,
  ◌==◌, if◌then◌else◌, length, get_elem?, is, at_most, at_least,
}
use c_bpf.Ir.{
  Insn, Opcode, acquire, copy, spill, reload, read, release, br_null, return, other, cbpf_regs,
  cbpf_spills, cbpf_max_insns,
}

-- `rejected i` is the return value 0 with `*bad_pc = i`.
pub data Verdict : Type 0 where
  accepted : Verdict
  rejected : ℕ → Verdict

-- One round of the loop: does the switch leave without `goto invalid`?
unfoldable pub insn_ok : Opcode → Insn → ℕ → ℕ → Bool
insn_ok acquire x i n = not (leb cbpf_regs x.dst || (not (is x.imm 0) && not (is x.imm 1)))
insn_ok copy x i n = not (leb cbpf_regs x.dst || leb cbpf_regs x.src)
insn_ok spill x i n = not (leb cbpf_spills x.dst || leb cbpf_regs x.src)
insn_ok reload x i n = not (leb cbpf_regs x.dst || leb cbpf_spills x.src)
insn_ok read x i n = not (leb cbpf_regs x.dst)
insn_ok release x i n = not (leb cbpf_regs x.dst)
insn_ok br_null x i n = not (leb cbpf_regs x.dst || at_most x.imm i || at_least x.imm n)
insn_ok return x i n = true
insn_ok (other k) x i n = false

-- The loop over the rest of the program, from index `i`.
unfoldable pub validate_loop : List Insn → ℕ → ℕ → Verdict
validate_loop [] i n = accepted
validate_loop (x ∷ xs) i n = if insn_ok x.op x i n then validate_loop xs (i + 1) n else rejected i

unfoldable pub is_return : Opcode → Bool
is_return return = true
is_return _ = false

unfoldable pub last_is_return : List Insn → Bool
unfolding is_return
last_is_return p = elim (get_elem? p (length p - 1)) [ none ↦ false | some x ↦ is_return x.op ]

unfoldable pub validate_list : List Insn → Verdict
unfolding validate_loop last_is_return
validate_list p =
    if length p == 0 || ltb cbpf_max_insns (length p)
    then rejected 0
    else elim (validate_loop p 0 (length p)) [
      | rejected i ↦ rejected i
      | accepted ↦ if last_is_return p then accepted else rejected (length p - 1)
    ]

unfoldable pub cbpf_validate : Option (List Insn) → Verdict
unfolding validate_list
cbpf_validate none = rejected 0
cbpf_validate (some p) = validate_list p
