-- ===== src/Reference/Forward.antt =====
-- The program counter of `cbpf_run` only rises, and stays within the program.
use c_bpf.Base.{
  if◌then◌else◌, List, some, length, get_elem?, get_elem?-lt, ℕ, ◌+◌, ◌^◌, ◌≤◌, ◌<◌, ◌≡◌, Bool,
  true, false, arith, Bool-cases, inl, inr, ℤ, pos, to_word, ◌==◌, ◌-◌, ◌%◌, ◌≢◌,
}
use c_bpf.Ir.{
  Insn, Opcode, acquire, copy, spill, reload, read, release, br_null, return, other, cbpf_max_insns,
}
use c_bpf.Ir.WellFormed.{IsInsn, IsProgram}
use c_bpf.Reference.{
  Machine, Effect, go, fault, done, acquire_cell, read_cell, release_cell, exec, Round, on, finish,
  settle, round,
}

abbrev Goes : ℕ → ℕ → Effect → Type 0
Goes pc n (go t next m) = (pc < next) × (next < n)
Goes pc n (fault f t m) = Unit
Goes pc n (done m) = Unit

abbrev pub RoundGoes : ℕ → ℕ → Round → Type 0
RoundGoes pc n (on next m) = (pc < next) × (next < n)
RoundGoes pc n (finish m) = Unit

acquire_cell-Goes :
    (x : Insn) (pc n : ℕ) (m : Machine) → pc + 1 < n → Goes pc n (acquire_cell x pc m)
unfolding acquire_cell
acquire_cell-Goes x pc n m h = ground arith

read_cell-Goes : (t pc n : ℕ) (m : Machine) → pc + 1 < n → Goes pc n (read_cell t pc m)
unfolding read_cell
read_cell-Goes t pc n m h = ground arith

release_cell-Goes : (t pc n : ℕ) (m : Machine) → pc + 1 < n → Goes pc n (release_cell t pc m)
unfolding release_cell
release_cell-Goes t pc n m h = ground arith

target :
    (b : Bool) (v : ℤ) (t pc n : ℕ)
    → v ≡ pos t
    → pc < t
    → t < n
    → n ≤ cbpf_max_insns
    → (pc < (if b then to_word 64 v else pc + 1)) × ((if b then to_word 64 v else pc + 1) < n)
target b v t pc n e lo hi small = rw e (go_to b)
  where
    fits : t % 2 ^ 64 ≡ t
    fits = omega arith

    go_to :
        (b : Bool)
        → (pc < (if b then t % 2 ^ 64 else pc + 1)) × ((if b then t % 2 ^ 64 else pc + 1) < n)
    go_to true = rw fits (lo, hi)
    go_to false = omega arith

exec-Goes :
    (op : Opcode) (x : Insn) (pc n : ℕ) (m : Machine)
    → n ≤ cbpf_max_insns
    → (op ≢ return → pc + 1 < n)
    → IsInsn pc n (record x { op = op })
    → Goes pc n (exec op x pc m)
unfolding exec
exec-Goes acquire x pc n m s h v = acquire_cell-Goes x pc n m (h (λ e. cc))
exec-Goes copy x pc n m s h v = let k = h (λ e. cc) in omega arith
exec-Goes spill x pc n m s h v = let k = h (λ e. cc) in omega arith
exec-Goes reload x pc n m s h v = let k = h (λ e. cc) in omega arith
exec-Goes read x pc n m s h v = read_cell-Goes (m.regs x.dst) pc n m (h (λ e. cc))
exec-Goes release x pc n m s h v = release_cell-Goes (m.regs x.dst) pc n m (h (λ e. cc))
exec-Goes br_null x pc n m s h (d, (t, e, lo, hi)) =
    target (m.regs x.dst == 0) x.imm t pc n e lo hi s
exec-Goes return x pc n m s h v = tt
exec-Goes (other k) x pc n m s h v = tt

settle-Goes : (op : Opcode) (pc n : ℕ) (e : Effect) → Goes pc n e → RoundGoes pc n (settle op pc e)
unfolding settle
settle-Goes op pc n (go t next m) h = h
settle-Goes op pc n (fault f t m) h = tt
settle-Goes op pc n (done m) h = tt

-- One round moves the PC forward, to another instruction of the program.
pub round-Goes :
    (p : List Insn) (x : Insn) (pc : ℕ) (m : Machine)
    → IsProgram p
    → get_elem? p pc ≡ some x
    → RoundGoes pc (length p) (round x pc m)
unfolding round
round-Goes p x pc m v e =
    settle-Goes x.op pc _ _ (exec-Goes x.op x pc _ _ v.bounded inside (v.each pc x e))
  where
    -- Only the last instruction has no successor, and it is RETURN.
    inside : x.op ≢ return → pc + 1 < length p
    inside h =
        let (y, e', r) = v.ends in
        let lt = get_elem?-lt p pc e in
        elim (Bool-cases (pc + 1 == length p)) [
          | inl q ↦
              let same : pc ≡ length p - 1 = ground arith in
              let at_end : get_elem? p (length p - 1) ≡ some x = rw (← same) e in
              absurd (h (let same' : x ≡ y = cc in rw same' r))
          | inr q ↦ ground arith
        ]
