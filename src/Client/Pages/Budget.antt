-- ===== src/Client/Pages/Budget.antt =====
-- A synchronization until caught up makes a bounded number of calls, and what it returns says why
-- it stopped.
use loomabase.Base.{
  ℕ, zero, suc, ◌+◌, ◌<◌, String, ◌≡◌, refl, ap, ◌∙◌, Bool, true, false, Option, arith,
}
use loomabase.Error.{Result, ok, err, SyncError, sync_page_budget_exhausted}
use loomabase.Value.{SyncPayload}
use loomabase.Schema.{TableDef}
use loomabase.Client.{Client}
use loomabase.Client.Pages.{sync_with, sync_pages, sync_until_caught_up}

module _ (cast_real print_real : ℕ → String) (parse_real : String → Option ℕ) (table : TableDef)
    (transport : ℕ → SyncPayload → Result SyncPayload) where
  -- One call, by its number.
  abbrev call_of : ℕ → Client → Client × Result SyncPayload
  call_of call s = sync_with cast_real print_real parse_real table (transport call) s

  -- So many calls in a row, from the given one on, each completed and each saying there is more.
  pub data FullPages : (pages call : ℕ) → Client → Client → Type 0 where
    done : {call : ℕ} {s : Client} → FullPages 0 call s s
    page :
        {pages call : ℕ} {s t u : Client} (response : SyncPayload)
        → call_of call s ≡ (t, ok response)
        → response.has_more ≡ true
        → FullPages pages (suc call) t u
        → FullPages (suc pages) call s u

  -- Why the loop stopped after so many full pages.
  pub data Stopped (rounds pages call : ℕ) (t : Client) : Client × Result SyncPayload → Type 0 where
    exhausted : pages ≡ rounds → Stopped rounds pages call t (t, err sync_page_budget_exhausted)
    failed :
        {s' : Client} (e : SyncError)
        → pages < rounds
        → call_of (call + pages) t ≡ (s', err e)
        → Stopped rounds pages call t (s', err e)
    caught_up :
        {s' : Client} (response : SyncPayload)
        → pages < rounds
        → call_of (call + pages) t ≡ (s', ok response)
        → response.has_more ≡ false
        → Stopped rounds pages call t (s', ok response)

  -- The full pages that were read, and the call that ended the loop.
  pub record Ended (rounds call : ℕ) (s : Client) (outcome : Client × Result SyncPayload)
      : Type 0 where
    pub pages : ℕ
    pub last : Client
    pub read : FullPages pages call s last
    pub stopped : Stopped rounds pages call last outcome

  shift :
      (rounds pages call : ℕ) (t : Client) (outcome : Client × Result SyncPayload)
      → Stopped rounds pages (suc call) t outcome
      → Stopped (suc rounds) (suc pages) call t outcome
  shift rounds pages call t _ (exhausted e) = exhausted (ap (λ (n : ℕ). suc n) e)
  shift rounds pages call t _ (failed e lt h) =
      failed e (omega arith) (ap (λ (n : ℕ). call_of n t) (omega arith) ∙ h)
  shift rounds pages call t _ (caught_up response lt h more) =
      caught_up response (omega arith) (ap (λ (n : ℕ). call_of n t) (omega arith) ∙ h) more

  pub sync_pages-Ended :
      (rounds call : ℕ) (s : Client)
      → Ended rounds call s
          (sync_pages cast_real print_real parse_real table transport rounds call s)
  unfolding sync_pages
  sync_pages-Ended zero call s = record {
    pages = 0;
    last = s;
    read = done;
    stopped = exhausted refl;
  }
  sync_pages-Ended (suc rounds) call s =
      go (λ t. sync_pages-Ended rounds (suc call) t) (call_of call s) refl
    where
      outcome : Client × Result SyncPayload → Client × Result SyncPayload
      outcome found = elim found.1 [
        | err e ↦ (found.0, err e)
        | ok response ↦ elim response.has_more [
          | false ↦ (found.0, ok response)
          | true ↦
              sync_pages cast_real print_real parse_real table transport rounds (suc call) found.0
        ]
      ]

      Later : Type 0
      Later =
          (t : Client)
          → Ended rounds (suc call) t
              (sync_pages cast_real print_real parse_real table transport rounds (suc call) t)

      more :
          Later
          → (t : Client) (response : SyncPayload) → call_of call s ≡ (t, ok response)
          → (b : Bool) → response.has_more ≡ b
          → Ended (suc rounds) call s (elim b [
            | false ↦ (t, ok response)
            | true ↦ sync_pages cast_real print_real parse_real table transport rounds (suc call) t
          ])
      more later t response e false last = record {
        pages = 0;
        last = s;
        read = done;
        stopped =
            caught_up response (omega arith) (ap (λ (n : ℕ). call_of n s) (omega arith) ∙ e) last;
      }
      more later t response e true again =
          let rest = later t in
          record {
            pages = suc rest.pages;
            last = rest.last;
            read = page response e again rest.read;
            stopped = shift rounds rest.pages call rest.last _ rest.stopped;
          }

      go :
          Later
          → (found : Client × Result SyncPayload) → call_of call s ≡ found
          → Ended (suc rounds) call s (outcome found)
      go later (t, err e) h = record {
        pages = 0;
        last = s;
        read = done;
        stopped = failed e (omega arith) (ap (λ (n : ℕ). call_of n s) (omega arith) ∙ h);
      }
      go later (t, ok response) h = more later t response h response.has_more refl

  -- A synchronization until caught up makes at most a hundred calls and returns: after some full
  -- pages, each completed and each saying that there is more, it stops with the budget error if
  -- they are a hundred, or with the next call, which failed with the error that is returned or
  -- completed with a response that says there is no more.
  pub sync_until_caught_up-Ended :
      (s : Client)
      → Ended 100 0 s (sync_until_caught_up cast_real print_real parse_real table transport s)
  unfolding sync_until_caught_up
  sync_until_caught_up-Ended s = sync_pages-Ended 100 0 s
