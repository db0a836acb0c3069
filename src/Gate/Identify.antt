-- ===== src/Gate/Identify.antt =====
-- src/gate.c, `identify`: the trusted table gives each handle the token of its acquisition.
use mathlib.Core.Path.{subst}
use c_bpf.Base.{
  ℕ, zero, suc, ◌+◌, ◌≤◌, ◌<◌, ◌≡◌, ◌≢◌, refl, sym, ap, ◌∙◌, inl, inr, true, false, some, arith,
  Bool-cases,
}
use c_bpf.Gate.{State, ok, find_view, identify}
use c_bpf.Gate.Platform.{Build, IsFaithful}

module _ (b : Build) (faithful : IsFaithful b) where
  -- The first `n` entries of the table hold the views of the first `n` cells.
  abbrev pub IsTable : (ℕ → b.Handle) → ℕ → Type 0
  IsTable views n = (i : ℕ) → i < n → b.prepare_view i ≡ some (views i)

  -- The handle stands for a token: NULL for 0, and the view of cell `i` for `i + 1`.
  abbrev pub Denotes : (ℕ → b.Handle) → ℕ → ℕ → b.Handle → Type 0
  Denotes views n zero h = h ≡ b.null_handle
  Denotes views n (suc i) h = (i < n) × (h ≡ views i)

  same_self : (u v : b.Handle) → u ≡ v → b.same_handle u v ≡ true
  same_self u v e = subst (λ w. b.same_handle u w ≡ true) e (faithful.same_refl u)

  differs : (u v : b.Handle) → u ≢ v → b.same_handle u v ≡ false
  differs u v ne = elim (Bool-cases (b.same_handle u v)) [
    | inl e ↦ absurd (ne (faithful.same_sound u v e))
    | inr e ↦ e
  ]

  find_view-table :
      (k i₀ i n : ℕ) (views : ℕ → b.Handle) (h : b.Handle)
      → IsTable views n
      → h ≡ views i
      → i < n
      → i₀ ≤ i
      → i < i₀ + k
      → i₀ + k ≤ n
      → n ≤ 2
      → find_view b k i₀ views h ≡ (ok, i + 1)
  unfolding find_view
  find_view-table zero i₀ i n views h table e lt lo hi fit room = absurd (omega arith)
  find_view-table (suc k) i₀ i n views h table e lt lo hi fit room =
      elim (Bool-cases (b.same_handle h (views i₀))) [
        | inl hit ↦
            let at_i : b.prepare_view i ≡ some (views i₀) =
              table i lt ∙ ap some (sym e ∙ faithful.same_sound h (views i₀) hit) in
            let same =
              faithful.view_injective i i₀ (views i₀) (omega arith) (omega arith) at_i
                (table i₀ (omega arith)) in
            rw hit (rw same refl)
        | inr miss ↦
            let apart : i ≢ i₀ = λ q. cc (miss, same_self h (views i₀) (e ∙ ap views q)) in
            rw miss (
              find_view-table k (i₀ + 1) i n views h table e lt (omega arith) (omega arith)
                (omega arith) room)
      ]

  -- A handle that denotes a token is identified with that token, also after its consumption.
  pub identify-Denotes :
      (s : State b) (n t : ℕ) (h : b.Handle)
      → IsTable s.views n
      → Denotes s.views n t h
      → n ≤ 2
      → identify b s h n ≡ (ok, t)
  unfolding identify
  identify-Denotes s n zero h table d room = rw (same_self h b.null_handle d)
  identify-Denotes s n (suc i) h table (lt, e) room =
      rw
        (differs h b.null_handle (λ z. faithful.view_not_null i h (table i lt ∙ ap some (sym e)) z))
        (find_view-table n 0 i n s.views h table e lt (omega arith) (omega arith) (omega arith) room
          ∙ ap (λ k. (ok, k)) (omega arith))
