-- ===== src/Crdt/Rga/Merge/Sweeps.antt =====
-- pkg/crdt/crdt.go, `RGA.Merge`: its sweeps come to an end.
use mathlib.Core.Path.{subst}
use local_web.Base.{
  All, ℕ, zero, suc, ◌+◌, ◌<◌, ◌≤◌, ◌≡◌, refl, inl, inr, true, false, not, ◌||◌, List, [], ◌∷◌,
  some, arith, length, length-append, Bool-cases, some_inj,
}
use local_web.Crdt.Rga.{Rga, head_id}
use local_web.Crdt.Rga.Merge.{
  Pending, Sweep, place, sweep, sweeps, start_pass, is_empty, merge, missing, sync_deletes,
  index_ids, first_sweep, with_sweep,
}

-- A step defers a node, or makes progress, or skips one.
deferred-place :
    (p : Pending) (st : Sweep)
    → (length (place p st).deferred ≤ length st.deferred + 1)
      × ((place p st).progress ≡ false → st.progress ≡ false)
      × ((place p st).progress ≡ true
          → st.progress ≡ false
          → length (place p st).deferred ≤ length st.deferred)
unfolding place
deferred-place p st = ground (arith, length-append st.deferred (p ∷ []))

deferred-sweep :
    (ps : List Pending) (st : Sweep)
    → (length (sweep ps st).deferred ≤ length st.deferred + length ps)
      × ((sweep ps st).progress ≡ true
          → st.progress ≡ false
          → length (sweep ps st).deferred < length st.deferred + length ps)
unfolding sweep
deferred-sweep [] st = ground arith
deferred-sweep (p ∷ ps) st = ground (arith, deferred-place p st, deferred-sweep ps (place p st))

sweeps_total :
    (fuel : ℕ) (remaining : List Pending) (st : Sweep)
    → length remaining < fuel
    → (out : Sweep) × (sweeps fuel remaining st ≡ some out)
unfolding sweeps
sweeps_total zero remaining st h = absurd (omega arith)
sweeps_total (suc fuel) remaining st h =
    elim (Bool-cases (is_empty out.deferred || not out.progress)) [
      | inl stops ↦ (out, rw (stops, sweeps) refl)
      | inr goes_on ↦ rw (goes_on, sweeps) (sweeps_total fuel out.deferred out (fewer goes_on))
    ]
  where
    out : Sweep
    out = sweep remaining (start_pass st)

    fewer : (is_empty out.deferred || not out.progress) ≡ false → length out.deferred < fuel
    fewer e = ground (arith, deferred-sweep remaining (start_pass st))

-- `Merge` returns: each sweep but the last places a node, so one more than there are missing nodes is
-- enough.
pub merge_total : (other r : Rga) → (u : Rga) × (merge other r ≡ some u)
unfolding merge
merge_total other r =
    let known = index_ids r.nodes in
    let lacking = missing known head_id other.nodes in
    let (out, e) =
      sweeps_total (suc (length lacking)) lacking
        (first_sweep r (sync_deletes known other.nodes r.nodes)) (omega arith) in
    (with_sweep r out, rw (e, merge) refl)

-- An invariant of the sweeps, where `Q` holds of every node that is still to be placed.
module _ {ℓ κ} (P : Sweep → Type ℓ) (Q : Pending → Type κ)
    (pass : (st : Sweep) → P st → P (start_pass st))
    (step : (p : Pending) (st : Sweep) → Q p → P st → P (place p st))
    (later : (st : Sweep) → P st → All Q st.deferred) where
  sweep_inv : (ps : List Pending) (st : Sweep) → All Q ps → P st → P (sweep ps st)
  unfolding sweep
  sweep_inv [] st q k = k
  sweep_inv (p ∷ ps) st q k = sweep_inv ps (place p st) q.1 (step p st q.0 k)

  pub sweeps_inv :
      (fuel : ℕ) (remaining : List Pending) (st out : Sweep)
      → All Q remaining
      → P st
      → sweeps fuel remaining st ≡ some out
      → P out
  unfolding sweeps
  sweeps_inv zero remaining st out q k e = cc
  sweeps_inv (suc fuel) remaining st out q k e =
      elim (Bool-cases (is_empty next.deferred || not next.progress)) [
        | inl stops ↦ subst P (some_inj (rw (stops, sweeps) at e)) kept
        | inr goes_on ↦
            sweeps_inv fuel next.deferred next out (later next kept) kept
              (rw (goes_on, sweeps) at e)
      ]
    where
      next : Sweep
      next = sweep remaining (start_pass st)

      kept : P next
      kept = sweep_inv remaining (start_pass st) q (pass st k)

-- A merge that returns is the end of the sweeps.
pub merge_inv :
    (other r u : Rga)
    → merge other r ≡ some u
    → (st : Sweep) × (sweeps
          (suc (length (missing (index_ids r.nodes) head_id other.nodes)))
          (missing (index_ids r.nodes) head_id other.nodes)
          (first_sweep r (sync_deletes (index_ids r.nodes) other.nodes r.nodes))
        ≡ some st)
      × (u ≡ with_sweep r st)
unfolding merge
merge_inv other r u e = ground arith
