-- ===== src/Simulator/Delivery.antt =====
-- What a delivery, a duplicate and a drop do to the server.

use loomabase.Base.{ℕ, String, ◌≡◌, refl, sym, ◌∙◌, ◌⊎◌, inl, inr, [], arith}
use loomabase.Error.{Result, SyncError, ok, err}
use loomabase.Value.{CrdtColumn, SyncPayload}
use loomabase.Merge.{CrdtState}
use loomabase.Merge.Advance.{open_security}
use loomabase.Server.{merge_inner, merge_with_security, merge}
use loomabase.Server.Convergence.{deliver_all}
use loomabase.Server.Replay.{SameCells, merge_replay}
use loomabase.Simulator.{NetworkSimulator, deliver, duplicate, record_event}

Result-cases :
    {A : Type 0} (r : Result A) → ((a : A) × (r ≡ ok a)) ⊎ ((e : SyncError) × (r ≡ err e))
Result-cases (ok a) = inl (a, refl)
Result-cases (err e) = inr (e, refl)

module _ (json_len : CrdtColumn → Result ℕ) where
  -- What a merge returned, from the run of its loop.
  merge_cases :
      (payload : SyncPayload) (device : String) (s : CrdtState) (response : SyncPayload)
      → (merge json_len payload device s).1 ≡ ok response
      → merge_inner json_len payload device open_security s
        ≡ ok ((merge json_len payload device s).0, response)
  unfolding merge merge_with_security
  merge_cases payload device s response h =
      elim (Result-cases (merge_inner json_len payload device open_security s)) [
        | inl ((t, r), e) ↦ ground arith
        | inr (x, e) ↦ absurd (ground arith)
      ]

  deliver_server :
      (payload : SyncPayload) (device : String) (n : NetworkSimulator)
      → ((deliver json_len payload device n).0.server ≡ (merge json_len payload device n.server).0)
        × ((deliver json_len payload device n).1 ≡ (merge json_len payload device n.server).1)
  unfolding deliver record_event
  deliver_server payload device n = ground arith

  merge_error :
      (payload : SyncPayload) (device : String) (s : CrdtState) (e : SyncError)
      → (merge json_len payload device s).1 ≡ err e
      → (merge json_len payload device s).0 ≡ s
  unfolding merge merge_with_security
  merge_error payload device s x h =
      elim (Result-cases (merge_inner json_len payload device open_security s)) [
        | inl (_, e) ↦ absurd (ground arith)
        | inr (_, e) ↦ ground arith
      ]

  SameCells-of_eq : (s t : CrdtState) → t ≡ s → SameCells s t
  SameCells-of_eq s t e = rw e (record { same_cells = refl; same_seq = refl; same_cell_seq = refl })

  -- The second merge of a payload changes no cell, answered or not.
  merge_twice :
      (payload : SyncPayload) (device : String) (s : CrdtState) (first : SyncPayload)
      → (merge json_len payload device s).1 ≡ ok first
      → SameCells
          (merge json_len payload device s).0
          (merge json_len payload device (merge json_len payload device s).0).0
  unfolding deliver_all
  merge_twice payload device s first h =
      let t = (merge json_len payload device s).0 in
      elim (Result-cases (merge json_len payload device t).1) [
        | inl (again, e) ↦
            merge_replay json_len payload device s t first [] device open_security
              (merge json_len payload device t).0 again (merge_cases payload device s first h)
              (merge_cases payload device t again e)
        | inr (x, e) ↦
            SameCells-of_eq t (merge json_len payload device t).0 (merge_error payload device t x e)
      ]

  duplicate_server :
      (payload : SyncPayload) (device : String) (n : NetworkSimulator) (first : SyncPayload)
      → (deliver json_len payload device n).1 ≡ ok first
      → (duplicate json_len payload device n).0.server
        ≡ (merge json_len payload device (deliver json_len payload device n).0.server).0
  unfolding duplicate record_event
  duplicate_server payload device n first h = ground arith

  duplicate_refused :
      (payload : SyncPayload) (device : String) (n : NetworkSimulator) (e : SyncError)
      → (deliver json_len payload device n).1 ≡ err e
      → (duplicate json_len payload device n).0.server
        ≡ (deliver json_len payload device n).0.server
  unfolding duplicate
  duplicate_refused payload device n x h = ground arith

  -- A duplicate leaves the server of the simulator with the cells, the counter and the sequence
  -- numbers that one delivery of the payload leaves.
  pub duplicate_preserves :
      (payload : SyncPayload) (device : String) (n : NetworkSimulator)
      → SameCells
          (deliver json_len payload device n).0.server
          (duplicate json_len payload device n).0.server
  duplicate_preserves payload device n =
      let (server, answer) = deliver_server payload device n in
      elim (Result-cases (deliver json_len payload device n).1) [
        | inl (first, e) ↦
            rw (duplicate_server payload device n first e, server)
              (merge_twice payload device n.server first (sym answer ∙ e))
        | inr (x, e) ↦ SameCells-of_eq _ _ (duplicate_refused payload device n x e)
      ]
