-- ===== src/CheriDemo/Stale.antt =====
-- src/cheri_demo.c, `expect_stale_fault`: what passes it.
use c_bpf.Base.{
  ℕ, ◌≡◌, ◌↔◌, refl, sym, ap, ◌∙◌, Bool, true, ◌&&◌, Option, none, some, ◌==◌, if◌then◌else◌, arith,
}
use c_bpf.CheriDemo.{
  ◌>>=◌, ◌>>◌, require, cbpf_segv_captagerr, sigsegv, Loaded, value, faulted, Platform, Processes,
  report_size, State, resolve_read, child_end, child, matches, expect_stale_fault, Cap,
}

-- Every system call works.
pub record Works (os : Processes) : Type 0 where
  pub pipe : os.pipe ≡ true
  pub fork : os.fork ≡ true
  pub sigaction : os.sigaction ≡ true
  pub written : os.written ≡ report_size
  pub received : os.received report_size ≡ report_size
  pub waited : os.waited ≡ true

module _ (p : Platform) where
  -- The parent's verdict on what the read in the child yields.
  abbrev verdict : Processes → Loaded ℕ → Option Bool
  verdict os l =
      let c = if os.sigaction then child_end p os l else record { report = none; status = 3 } in
      require os.pipe
      >> (require os.fork
          >> (require os.waited
              >> require
                  (os.received os.written == report_size && c.status == 0 && matches p c.report)))

  verdict-Works : (os : Processes) (l : Loaded ℕ) → verdict os l ≡ some true → Works os
  unfolding ◌>>=◌
  verdict-Works os (value v) e = ground (arith, e)
  verdict-Works os (faulted n c) e = record {
    pipe = ground (arith, e);
    fork = ground (arith, e);
    sigaction = ground (arith, e);
    written = whole;
    received = sym (ap os.received whole) ∙ ground (arith, e);
    waited = ground (arith, e);
  }
    where
      whole : os.written ≡ report_size
      whole = ground (arith, e)

  verdict-fault :
      (os : Processes) (l : Loaded ℕ)
      → verdict os l ≡ some true
      → l ≡ faulted sigsegv cbpf_segv_captagerr
  unfolding ◌>>=◌
  verdict-fault os (value v) e = ground (arith, e)
  verdict-fault os (faulted n c) e = ground (arith, e)

  verdict_pass :
      (os : Processes) → Works os → verdict os (faulted sigsegv cbpf_segv_captagerr) ≡ some true
  unfolding ◌>>=◌
  verdict_pass os w = rw (w.pipe, w.fork, w.sigaction, w.waited, w.written, w.received) refl

  -- `expect_stale_fault` passes exactly where every system call works and the read of the alias in the
  -- child faults with SIGSEGV and the code of a capability's tag.
  pub expect_stale_fault_iff :
      (os : Processes) (alias : Cap p) (s : State p)
      → (expect_stale_fault p os alias s ≡ some true)
        ↔ (Works os × (resolve_read p alias s ≡ faulted sigsegv cbpf_segv_captagerr))
  unfolding expect_stale_fault child
  expect_stale_fault_iff os alias s = (
    λ e. (verdict-Works os (resolve_read p alias s) e, verdict-fault os (resolve_read p alias s) e),
    λ (w, e). ap (verdict os) e ∙ verdict_pass os w,
  )
