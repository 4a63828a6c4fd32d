-- ===== src/Sync/Lock/Waiting.antt =====
-- src/sync/operation-lock.ts: what becomes of the operations that come while one runs.
use content_lens.Prelude.{
  ◌≡◌, refl, false, none, some, List, [], ◌∷◌, JsString, same_iff, arith, All,
}
use content_lens.Prelude.Dict.{get-set_self, get-delete}
use content_lens.Prelude.Dict
use content_lens.Sync.Lock.{
  Entry, Lock, Admission, joins, waits, launch, run, run_found, advance, advance_found,
  advance_entry,
}

module _ {O : Type 0} (p : JsString) where
  -- Calls of `run` for the profile, one after the other, with what each leads to.
  unfoldable pub call_all : Lock O → List O → List (Admission O) × Lock O
  call_all l [] = ([], l)
  call_all l (o ∷ os) =
      let (answer, l') = run l p o in let (answers, l'') = call_all l' os in (answer ∷ answers, l'')

  abbrev pub Joined : O → Admission O → Type 0
  Joined o a = a ≡ joins o

  run_joins :
      (l : Lock O) (e : Entry O) (o x : O)
      → Dict.get p l.entries ≡ some e
      → e.pending ≡ some o
      → run l p x ≡ (joins o, l)
  unfolding run run_found
  run_joins l e o x h q = ground arith

  call-joins :
      (l : Lock O) (e : Entry O) (o : O) (os : List O)
      → Dict.get p l.entries ≡ some e
      → e.pending ≡ some o
      → ((call_all l os).1 ≡ l) × All (Joined o) (call_all l os).0
  unfolding call_all
  call-joins l e o [] h q = (refl, tt)
  call-joins l e o (x ∷ os) h q =
      rw (run_joins l e o x h q) (let ih = call-joins l e o os h q in (ih.0, (refl, ih.1)))

  run_waits :
      (l : Lock O) (e : Entry O) (o : O)
      → Dict.get p l.entries ≡ some e
      → e.pending ≡ none
      → run l p o
        ≡ (waits, record l { entries = Dict.set p (record e { pending = some o }) l.entries })
  unfolding run run_found
  run_waits l e o h q = ground arith

  advance_starts :
      (l : Lock O) (e : Entry O) (o : O)
      → Dict.get p l.entries ≡ some e
      → e.pending ≡ some o
      → advance l p e.active ≡ (some o, launch l p)
  unfolding advance advance_found advance_entry
  advance_starts l e o h q = ground arith

  abbrev new_entry : Lock O → Entry O
  new_entry l = record { active = l.next; aborted = false; pending = none }

  launched_ends : (l : Lock O) → Dict.get p (advance (launch l p) p l.next).1.entries ≡ none
  unfolding advance advance_found advance_entry launch
  launched_ends l = ground (
    arith,
    get-set_self p (new_entry l) l.entries,
    same_iff p p,
    get-delete p p (Dict.set p (new_entry l) l.entries),
  )

  -- While an operation of the profile runs and none waits, the first one that comes waits and all that come
  -- after it join it. It starts when the promise of the one that runs settles, and when its own settles with
  -- no call in between, the profile is free again.
  pub first_waits_and_runs :
      (l : Lock O) (e : Entry O) (o : O) (os : List O)
      → Dict.get p l.entries ≡ some e
      → e.pending ≡ none
      → let l' = (call_all (run l p o).1 os).1 in
        ((run l p o).0 ≡ waits)
        × All (Joined o) (call_all (run l p o).1 os).0
        × ((advance l' p e.active).0 ≡ some o)
        × (Dict.get p (advance (advance l' p e.active).1 p l'.next).1.entries ≡ none)
  first_waits_and_runs l e o os h q = rw (run_waits l e o h q) (
      let waiting = record l { entries = Dict.set p (record e { pending = some o }) l.entries } in
      let found = get-set_self p (record e { pending = some o }) l.entries in
      let (same_lock, joined) =
        call-joins waiting (record e { pending = some o }) o os found refl in
      rw same_lock (
        rw (advance_starts waiting (record e { pending = some o }) o found refl)
          (refl, joined, refl, launched_ends waiting)))
